-- ===== src/Server/Database/Updates.antt =====
-- `update_document`: the rows that its revision check finds, and those that its `UPDATE` leaves.
use replicant.Prelude.{
  ℕ, ◌≡◌, ◌≢◌, refl, inl, inr, true, false, some, List, [], ◌∷◌, arith, Bool-cases, ◌==◌, ==_refl,
}
use replicant.Prelude.Int.{ℤ, pos, negsuc, ◌+ℤ◌}
use replicant.Models.{Document}
use replicant.Server.State.{Row, Library}
use replicant.Server.Queries.{document_to_params, find_document}
use replicant.Server.Database.{eq_ℤ, count_matches, update_rows}

eq_ℤ_refl : (z : ℤ) → eq_ℤ z z ≡ true
eq_ℤ_refl (pos n) = ==_refl n
eq_ℤ_refl (negsuc n) = ==_refl n

-- The row that a search finds is counted.
pub count_matches-find_document :
    (id : ℕ) (rows : List Row) (d : Document)
    → find_document id rows ≡ some d
    → (count_matches id d.sync_revision rows == 0) ≡ false
unfolding count_matches find_document
count_matches-find_document id [] d e = ground arith
count_matches-find_document id (r ∷ rows) d e =
    ground (arith, eq_ℤ_refl r.document.sync_revision, count_matches-find_document id rows d)

-- The document that an update stores in the place of `original`.
unfoldable pub stored : Library → ℕ → Document → Document → Document
unfolding document_to_params
stored lib now doc original = record original {
  content = doc.content;
  sync_revision = original.sync_revision +ℤ pos 1;
  updated_at = now;
  deleted_at = doc.deleted_at;
  content_hash = (document_to_params lib doc).document.content_hash;
  title = (document_to_params lib doc).document.title;
}

module _ (lib : Library) (now : ℕ) (doc : Document) where
  pub find-update_rows_self :
      (rows : List Row) (d : Document)
      → find_document doc.id rows ≡ some d
      → find_document doc.id (update_rows now (document_to_params lib doc) d.sync_revision rows)
        ≡ some (stored lib now doc d)
  unfolding find_document update_rows document_to_params stored
  find-update_rows_self [] d e = ground arith
  find-update_rows_self (r ∷ rows) d e = elim (Bool-cases (r.document.id == doc.id)) [
    | inl hit ↦ ground (arith, eq_ℤ_refl d.sync_revision)
    | inr miss ↦ ground (arith, find-update_rows_self rows d)
  ]

  pub find-update_rows_other :
      (rows : List Row) (revision : ℤ) (id : ℕ)
      → id ≢ doc.id
      → find_document id (update_rows now (document_to_params lib doc) revision rows)
        ≡ find_document id rows
  unfolding find_document update_rows document_to_params
  find-update_rows_other [] revision id ne = refl
  find-update_rows_other (r ∷ rows) revision id ne =
      ground (arith, find-update_rows_other rows revision id ne)
