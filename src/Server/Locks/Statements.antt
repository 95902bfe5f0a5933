-- ===== src/Server/Locks/Statements.antt =====
-- One statement of a transaction beside the others (replicant-server/src/database.rs).
use replicant.Prelude.{
  ℕ, ◌+◌, ◌-◌, ◌^◌, ◌≤◌, ◌≡◌, ◌≢◌, refl, ◌∙◌, subst, false, inl, inr, some, List, [], ◌∷◌, ◌++◌,
  ◌==◌, ==_refl, if◌then◌else◌, Bool-cases, Option-cases, All, arith,
}
use replicant.Prelude.Int.{ℤ, pos, ltb_ℤ}
use replicant.Models.{Document}
use replicant.Server.State.{Row, Library}
use replicant.Server.Queries.{document_to_params, find_document}
use replicant.Server.Database.{count_matches, update_rows}
use replicant.Server.Database.Updates.{count_matches-find_document, find-update_rows_other}
use replicant.Server.Changes.{mark_deleted}
use replicant.Server.Locks.{
  Transaction, updates, has_read, has_updated, deletes, has_deleted, mismatched, finished, holds,
  count_locks, select_for_update, update_row, advance,
}

-- A revision that was read is that of the row, and nothing has ended in a mismatch.
abbrev pub Fits : List Row → Transaction → Type 0
Fits rows (updates doc) = Unit {0}
Fits rows (has_read doc revision) =
    (d : Document) × (find_document doc.id rows ≡ some d) × (d.sync_revision ≡ revision)
Fits rows (has_updated doc) = Unit {0}
Fits rows (deletes id user) = Unit {0}
Fits rows (has_deleted id) = Unit {0}
Fits rows (mismatched expected actual) = ⊥
Fits rows finished = Unit {0}

pub count_locks-append :
    (id : ℕ) (xs ys : List Transaction)
    → count_locks id (xs ++ ys) ≡ count_locks id xs + count_locks id ys
unfolding count_locks
count_locks-append id [] ys = omega arith
count_locks-append id (x ∷ xs) ys = omega (arith, count_locks-append id xs ys)

pub split :
    (P : Transaction → Type 0) (before : List Transaction) (t : Transaction)
    (after : List Transaction)
    → All P (before ++ t ∷ after)
    → P t × All P (before ++ after)
split P [] t after (p, ps) = (p, ps)
split P (b ∷ before) t after (q, ps) = let (p, rest) = split P before t after ps in (p, (q, rest))

pub joined :
    (P : Transaction → Type 0) (before : List Transaction) (t : Transaction)
    (after : List Transaction)
    → P t
    → All P (before ++ after)
    → All P (before ++ t ∷ after)
joined P [] t after p ps = (p, ps)
joined P (b ∷ before) t after p (q, ps) = (q, joined P before t after p ps)

-- The rows of the other documents are as they were.
abbrev OthersStay : ℕ → List Row → List Row → Type 0
OthersStay id rows rows' = (j : ℕ) → j ≢ id → find_document j rows' ≡ find_document j rows

Fits-OthersStay :
    (id : ℕ) (rows rows' : List Row)
    → OthersStay id rows rows'
    → (t : Transaction) → holds id t ≡ false
    → Fits rows t
    → Fits rows' t
unfolding holds
Fits-OthersStay id rows rows' stay (has_read doc revision) free (d, there, same) =
    (d, stay doc.id (λ e. ground (arith, e, free, ==_refl id)) ∙ there, same)
Fits-OthersStay id rows rows' stay (updates doc) free fits = tt
Fits-OthersStay id rows rows' stay (has_updated doc) free fits = tt
Fits-OthersStay id rows rows' stay (deletes i user) free fits = tt
Fits-OthersStay id rows rows' stay (has_deleted i) free fits = tt
Fits-OthersStay id rows rows' stay (mismatched x y) free fits = fits
Fits-OthersStay id rows rows' stay finished free fits = tt

All-OthersStay :
    (id : ℕ) (rows rows' : List Row)
    → OthersStay id rows rows'
    → (ts : List Transaction) → count_locks id ts ≡ 0
    → All (Fits rows) ts
    → All (Fits rows') ts
unfolding count_locks
All-OthersStay id rows rows' stay [] free fits = tt
All-OthersStay id rows rows' stay (t ∷ ts) free (fit, fits) = elim (Bool-cases (holds id t)) [
  | inl h ↦ absurd (ground (arith, (rw h at free)))
  | inr h ↦ (
    Fits-OthersStay id rows rows' stay t h fit,
    All-OthersStay id rows rows' stay ts (ground (arith, (rw h at free))) fits,
  )
]

mark_deleted-OthersStay :
    (now id user : ℕ) (rows : List Row) → OthersStay id rows (mark_deleted now id user rows)
unfolding mark_deleted find_document
mark_deleted-OthersStay now id user [] j n = refl
mark_deleted-OthersStay now id user (r ∷ rows) j n =
    ground (arith, n, mark_deleted-OthersStay now id user rows j n)

-- What a statement does beside others that do not hold what it holds then.
pub record Moves (others : List Transaction) (r : Transaction × List Row) : Type 0 where
  pub stands : Fits r.1 r.0
  pub beside : All (Fits r.1) others
  pub single : (id : ℕ) → (if holds id r.0 then 1 else 0) + count_locks id others ≤ 1

-- A lock that is taken where nobody has it.
taken :
    (i : ℕ) (others : List Transaction)
    → count_locks i others ≡ 0
    → ((id : ℕ) → count_locks id others ≤ 1)
    → (id : ℕ) → (if i == id then 1 else 0) + count_locks id others ≤ 1
taken i others free few id = elim (Bool-cases (i == id)) [
  | inl h ↦
      let same : count_locks id others ≡ 0 =
        subst (λ k. count_locks k others ≡ 0) (ground (arith, h)) free in
      rw (h, same) (omega arith)
  | inr h ↦ rw h (omega (arith, few id))
]

module _ (lib : Library) (now : ℕ) (others : List Transaction) (rows : List Row)
    (fits : All (Fits rows) others) where
  idle :
      (t : Transaction)
      → Fits rows t
      → ((id : ℕ) → (if holds id t then 1 else 0) + count_locks id others ≤ 1)
      → Moves others (t, rows)
  idle t fit few = record { stands = fit; beside = fits; single = few }

  ended : ((id : ℕ) → count_locks id others ≤ 1) → Moves others (finished, rows)
  unfolding holds
  ended few = idle finished tt (λ id. omega (arith, few id))

  select-Moves :
      (doc : Document)
      → ((id : ℕ) → count_locks id others ≤ 1)
      → Moves others (select_for_update doc others rows, rows)
  unfolding select_for_update holds
  select-Moves doc few = elim (Bool-cases (count_locks doc.id others == 0)) [
    | inl free ↦ elim (Option-cases (find_document doc.id rows)) [
      | inl e ↦ rw (free, e) (ended few)
      | inr (d, e) ↦
          rw (free, e)
            (idle (has_read doc d.sync_revision) (d, e, refl)
              (taken doc.id others (ground (arith, free)) few))
    ]
    | inr held ↦ rw held (idle (updates doc) tt (λ id. omega (arith, few id)))
  ]

  update-Moves :
      (doc : Document) (revision : ℤ)
      → Fits rows (has_read doc revision)
      → ((id : ℕ) → (if doc.id == id then 1 else 0) + count_locks id others ≤ 1)
      → Moves others (update_row lib now doc revision rows)
  unfolding update_row holds
  update-Moves doc revision (d, there, same) few =
      let found : (count_matches doc.id revision rows == 0) ≡ false =
        subst (λ z. (count_matches doc.id z rows == 0) ≡ false) same
          (count_matches-find_document doc.id rows d there) in
      let alone : count_locks doc.id others ≡ 0 = ground (arith, few doc.id, ==_refl doc.id) in
      elim (Bool-cases (ltb_ℤ revision (pos (2 ^ 63 - 1)))) [
        | inl room ↦
            rw (found, room)
              (record {
                stands = tt;
                beside =
                    All-OthersStay doc.id rows
                      (update_rows now (document_to_params lib doc) revision rows)
                      (λ j n. find-update_rows_other lib now doc rows revision j n) others alone
                      fits;
                single = few;
              })
        | inr full ↦ rw (found, full) (ended (λ id. ground (arith, few id)))
      ]

  delete-Moves :
      (id user : ℕ)
      → ((i : ℕ) → count_locks i others ≤ 1)
      → Moves others (
          if count_locks id others == 0
          then (has_deleted id, mark_deleted now id user rows)
          else (deletes id user, rows))
  unfolding holds
  delete-Moves id user few = elim (Bool-cases (count_locks id others == 0)) [
    | inl free ↦ rw free (record {
      stands = tt;
      beside =
          All-OthersStay id rows (mark_deleted now id user rows)
            (mark_deleted-OthersStay now id user rows) others (ground (arith, free)) fits;
      single = taken id others (ground (arith, free)) few;
    })
    | inr held ↦ rw held (idle (deletes id user) tt (λ i. omega (arith, few i)))
  ]

  pub advance-Moves :
      (t : Transaction)
      → Fits rows t
      → ((id : ℕ) → (if holds id t then 1 else 0) + count_locks id others ≤ 1)
      → Moves others (advance lib now t others rows)
  unfolding advance holds
  advance-Moves (updates doc) fit few = select-Moves doc (λ id. omega (arith, few id))
  advance-Moves (has_read doc revision) fit few = update-Moves doc revision fit few
  advance-Moves (has_updated doc) fit few = ended (λ id. ground (arith, few id))
  advance-Moves (deletes id user) fit few = delete-Moves id user (λ i. omega (arith, few i))
  advance-Moves (has_deleted i) fit few = ended (λ id. ground (arith, few id))
  advance-Moves (mismatched x y) fit few = absurd fit
  advance-Moves finished fit few = ended (λ id. omega (arith, few id))
