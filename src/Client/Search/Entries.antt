-- ===== src/Client/Search/Entries.antt =====
-- replicant-client/src/queries.rs: the rows and the entries of one document in the lists of all.
use replicant.Prelude.{
  ℕ, ◌≡◌, ◌≢◌, refl, ap, true, false, inl, inr, Option, none, some, List, [], ◌∷◌, ◌++◌, map,
  if◌then◌else◌, ◌==◌, ==_iff, Bool-cases, Text, arith,
}
use replicant.Json.{Value}
use replicant.Models.{Document}
use replicant.Client.State.{Row}
use replicant.Client.Database.{has_row, update_rows, overwrite, upsert}
use replicant.Client.Queue.{is_some, is_none, active_documents}
use replicant.Client.Rows.{KeepsId, overwrite-KeepsId}
use replicant.Client.Search.{
  FtsEntry, SearchLibrary, rows_of, delete_fts_entry, title_or_empty, add_entry,
}
use replicant.Client.Search.Index.{extracts, concat, entry_of, index_rows}

-- The entries of one document.
unfoldable pub entries_for : ℕ → List FtsEntry → List FtsEntry
entries_for id [] = []
entries_for id (e ∷ entries) =
    let rest = entries_for id entries in if e.document_id == id then e ∷ rest else rest

pub entries_for-append :
    (id : ℕ) (xs ys : List FtsEntry)
    → entries_for id (xs ++ ys) ≡ entries_for id xs ++ entries_for id ys
unfolding entries_for
entries_for-append id [] ys = refl
entries_for-append id (e ∷ xs) ys = elim (Bool-cases (e.document_id == id)) [
  | inl h ↦ rw h (ap (λ l. e ∷ l) (entries_for-append id xs ys))
  | inr h ↦ rw h (entries_for-append id xs ys)
]

pub entries_for-delete_fts_entry :
    (id : ℕ) (xs : List FtsEntry) → entries_for id (delete_fts_entry id xs) ≡ []
unfolding entries_for delete_fts_entry
entries_for-delete_fts_entry id [] = refl
entries_for-delete_fts_entry id (e ∷ xs) = elim (Bool-cases (e.document_id == id)) [
  | inl h ↦ rw h (entries_for-delete_fts_entry id xs)
  | inr h ↦ rw (h, h) (entries_for-delete_fts_entry id xs)
]

pub entries_for-delete_fts_entry-other :
    (j id : ℕ) (xs : List FtsEntry)
    → j ≢ id
    → entries_for j (delete_fts_entry id xs) ≡ entries_for j xs
unfolding entries_for delete_fts_entry
entries_for-delete_fts_entry-other j id [] n = refl
entries_for-delete_fts_entry-other j id (e ∷ xs) n = elim (Bool-cases (e.document_id == id)) [
  | inl h ↦
      let other : (e.document_id == j) ≡ false = ground arith in
      rw (h, other) (entries_for-delete_fts_entry-other j id xs n)
  | inr h ↦ rw h (
      ap (λ l. if e.document_id == j then e ∷ l else l)
        (entries_for-delete_fts_entry-other j id xs n))
]

pub rows_of_twice : (id : ℕ) (rows : List Row) → rows_of id (rows_of id rows) ≡ rows_of id rows
unfolding rows_of
rows_of_twice id [] = refl
rows_of_twice id (r ∷ rows) = elim (Bool-cases (r.document.id == id)) [
  | inl h ↦ rw (h, h) (ap (λ l. r ∷ l) (rows_of_twice id rows))
  | inr h ↦ rw h (rows_of_twice id rows)
]

pub rows_of_other : (j id : ℕ) (rows : List Row) → j ≢ id → rows_of j (rows_of id rows) ≡ []
unfolding rows_of
rows_of_other j id [] n = refl
rows_of_other j id (r ∷ rows) n = elim (Bool-cases (r.document.id == id)) [
  | inl h ↦
      let other : (r.document.id == j) ≡ false = ground arith in
      rw (h, other) (rows_of_other j id rows n)
  | inr h ↦ rw h (rows_of_other j id rows n)
]

pub rows_of-update_rows-other :
    (j id : ℕ) (f : Row → Row) (rows : List Row)
    → KeepsId id f
    → j ≢ id
    → rows_of j (update_rows id f rows) ≡ rows_of j rows
unfolding rows_of update_rows
rows_of-update_rows-other j id f [] keeps n = refl
rows_of-update_rows-other j id f (r ∷ rows) keeps n = elim (Bool-cases (r.document.id == id)) [
  | inl h ↦
      let is_id : r.document.id ≡ id = (==_iff r.document.id id).0 h in
      let before : (r.document.id == j) ≡ false = ground arith in
      let after : ((f r).document.id == j) ≡ false = ground (arith, keeps r is_id) in
      rw (h, before, after) (rows_of-update_rows-other j id f rows keeps n)
  | inr h ↦ rw h (
      ap (λ l. if r.document.id == j then r ∷ l else l)
        (rows_of-update_rows-other j id f rows keeps n))
]

rows_of-append-other :
    (j : ℕ) (new : Row) (rows : List Row)
    → j ≢ new.document.id
    → rows_of j (rows ++ new ∷ []) ≡ rows_of j rows
unfolding rows_of
rows_of-append-other j new [] n =
    let other : (new.document.id == j) ≡ false = ground arith in rw other refl
rows_of-append-other j new (r ∷ rows) n =
    ap (λ l. if r.document.id == j then r ∷ l else l) (rows_of-append-other j new rows n)

pub rows_of-upsert-other :
    (j : ℕ) (new : Row) (rows : List Row)
    → j ≢ new.document.id
    → rows_of j (upsert new rows) ≡ rows_of j rows
unfolding upsert
rows_of-upsert-other j new rows n = elim (Bool-cases (has_row new.document.id rows)) [
  | inl h ↦
      rw h
        (rows_of-update_rows-other j new.document.id (overwrite new) rows (overwrite-KeepsId new) n)
  | inr h ↦ rw h (rows_of-append-other j new rows n)
]

-- The texts, or none of them for a malformed path.
abbrev pub texts_of : Option (List Text) → List Text
texts_of none = []
texts_of (some texts) = texts

texts_of_lem : (o : Option (List Text)) → is_some o ≡ true → o ≡ some (texts_of o)
texts_of_lem none h = ground (arith, h)
texts_of_lem (some texts) h = refl

module _ (sqlite : SearchLibrary) (paths : List Text) where
  -- The entry of a document, where no path is malformed.
  abbrev pub entry : Document → FtsEntry
  entry doc = record {
    document_id = doc.id;
    title = title_or_empty doc.title;
    body = concat sqlite (texts_of (extracts sqlite paths doc.content));
  }

  entry_of-entry :
      ((v : Value) → is_some (extracts sqlite paths v) ≡ true)
      → (doc : Document) → entry_of sqlite paths doc ≡ some (entry doc)
  unfolding entry_of
  entry_of-entry readable doc =
      ap
        (λ (o : Option (List Text)). elim o [
          | none ↦ none
          | some texts ↦ some (record {
            document_id = doc.id;
            title = title_or_empty doc.title;
            body = concat sqlite texts;
          })
        ])
        (texts_of_lem (extracts sqlite paths doc.content) (readable doc.content))

  pub index_rows-entry :
      ((v : Value) → is_some (extracts sqlite paths v) ≡ true)
      → (docs : List Document) → index_rows sqlite paths docs ≡ some (map entry docs)
  unfolding index_rows add_entry
  index_rows-entry readable [] = refl
  index_rows-entry readable (doc ∷ docs) =
      rw (entry_of-entry readable doc, index_rows-entry readable docs) refl

  pub entries_for-map :
      (id : ℕ) (rows : List Row)
      → entries_for id (map entry (active_documents rows))
        ≡ map entry (active_documents (rows_of id rows))
  unfolding entries_for active_documents rows_of
  entries_for-map id [] = refl
  entries_for-map id (r ∷ rows) = elim (Bool-cases (is_none r.document.deleted_at)) [
    | inl a ↦ elim (Bool-cases (r.document.id == id)) [
      | inl h ↦ rw (a, h, a) (ap (λ l. entry r.document ∷ l) (entries_for-map id rows))
      | inr h ↦ rw (a, h) (entries_for-map id rows)
    ]
    | inr a ↦ elim (Bool-cases (r.document.id == id)) [
      | inl h ↦ rw (a, h, a) (entries_for-map id rows)
      | inr h ↦ rw (a, h) (entries_for-map id rows)
    ]
  ]
