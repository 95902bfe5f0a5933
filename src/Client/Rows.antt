-- ===== src/Client/Rows.antt =====
-- Lookups in the table of documents behind an UPDATE and an upsert.
use replicant.Prelude.{
  ℕ, ◌≡◌, ◌≢◌, refl, sym, ap, ◌∙◌, true, false, inl, inr, Option, none, some, List, [], ◌∷◌, ◌++◌,
  if◌then◌else◌, ◌==◌, ==_iff, ==_refl, ==_ne, Bool-cases, Option-cases, arith,
}
use replicant.Client.State.{Row}
use replicant.Client.Database.{find_row, is_found, has_row, update_rows, overwrite, upsert}

abbrev pub map_row : (Row → Row) → Option Row → Option Row
map_row f none = none
map_row f (some r) = some (f r)

-- A change of the rows with one id that leaves them the id.
abbrev pub KeepsId : ℕ → (Row → Row) → Type 0
KeepsId id f = (r : Row) → r.document.id ≡ id → (f r).document.id ≡ id

pub find_row-id : (k : ℕ) (rows : List Row) (r : Row) → find_row k rows ≡ some r → r.document.id ≡ k
unfolding find_row
find_row-id k [] r e = ground arith
find_row-id k (x ∷ rows) r e = elim (Bool-cases (x.document.id == k)) [
  | inl h ↦ ground (arith, h)
  | inr h ↦ find_row-id k rows r (rw h at e)
]

pub find_row-update_rows :
    (id : ℕ) (f : Row → Row)
    → KeepsId id f
    → (rows : List Row) → find_row id (update_rows id f rows) ≡ map_row f (find_row id rows)
unfolding find_row update_rows
find_row-update_rows id f keeps [] = refl
find_row-update_rows id f keeps (r ∷ rows) = elim (Bool-cases (r.document.id == id)) [
  | inl h ↦
      let same : ((f r).document.id == id) ≡ true =
        rw (keeps r ((==_iff r.document.id id).0 h)) (==_refl id) in
      rw (h, same) refl
  | inr h ↦ rw (h, h) (find_row-update_rows id f keeps rows)
]

pub find_row-update_rows-other :
    (k id : ℕ) (f : Row → Row)
    → KeepsId id f
    → k ≢ id
    → (rows : List Row) → find_row k (update_rows id f rows) ≡ find_row k rows
unfolding find_row update_rows
find_row-update_rows-other k id f keeps n [] = refl
find_row-update_rows-other k id f keeps n (r ∷ rows) = elim (Bool-cases (r.document.id == id)) [
  | inl h ↦
      let is_id : r.document.id ≡ id = (==_iff r.document.id id).0 h in
      let before : (r.document.id == k) ≡ false = ground arith in
      let after : ((f r).document.id == k) ≡ false = ground (arith, keeps r is_id) in
      rw (h, before, after) (find_row-update_rows-other k id f keeps n rows)
  | inr h ↦ rw h (
      ap (λ o. if r.document.id == k then some r else o)
        (find_row-update_rows-other k id f keeps n rows))
]

pub find_row-append :
    (k : ℕ) (new : Row) (rows : List Row)
    → find_row k rows ≡ none
    → find_row k (rows ++ new ∷ []) ≡ (if new.document.id == k then some new else none)
unfolding find_row
find_row-append k new [] e = refl
find_row-append k new (r ∷ rows) e = elim (Bool-cases (r.document.id == k)) [
  | inl h ↦ ground (arith, h)
  | inr h ↦ rw h (find_row-append k new rows (rw h at e))
]

pub find_row-append-found :
    (k : ℕ) (new r : Row) (rows : List Row)
    → find_row k rows ≡ some r
    → find_row k (rows ++ new ∷ []) ≡ some r
unfolding find_row
find_row-append-found k new r [] e = ground arith
find_row-append-found k new r (x ∷ rows) e = elim (Bool-cases (x.document.id == k)) [
  | inl h ↦ rw h (rw h at e)
  | inr h ↦ rw h (find_row-append-found k new r rows (rw h at e))
]

pub overwrite-KeepsId : (new : Row) → KeepsId new.document.id (overwrite new)
unfolding overwrite
overwrite-KeepsId new r e = refl

pub has_row-some :
    (id : ℕ) (rows : List Row) (r : Row) → find_row id rows ≡ some r → has_row id rows ≡ true
unfolding has_row
has_row-some id rows r e = ap is_found e

has_row-none : (id : ℕ) (rows : List Row) → find_row id rows ≡ none → has_row id rows ≡ false
unfolding has_row
has_row-none id rows e = ap is_found e

-- The row of the upsert.
pub find_row-upsert-old :
    (new old : Row) (rows : List Row)
    → find_row new.document.id rows ≡ some old
    → find_row new.document.id (upsert new rows) ≡ some (overwrite new old)
unfolding upsert
find_row-upsert-old new old rows e = rw (has_row-some new.document.id rows old e) (
    find_row-update_rows new.document.id (overwrite new) (overwrite-KeepsId new) rows
    ∙ ap (map_row (overwrite new)) e)

pub find_row-upsert-new :
    (new : Row) (rows : List Row)
    → find_row new.document.id rows ≡ none
    → find_row new.document.id (upsert new rows) ≡ some new
unfolding upsert
find_row-upsert-new new rows e =
    rw (has_row-none new.document.id rows e)
      (find_row-append new.document.id new rows e ∙ rw (==_refl new.document.id) refl)

-- The other rows.
pub find_row-upsert-other :
    (new : Row) (k : ℕ) (rows : List Row)
    → k ≢ new.document.id
    → find_row k (upsert new rows) ≡ find_row k rows
unfolding upsert
find_row-upsert-other new k rows n = elim (Option-cases (find_row new.document.id rows)) [
  | inr (old, e) ↦
      rw (has_row-some new.document.id rows old e) (
        find_row-update_rows-other k new.document.id (overwrite new) (overwrite-KeepsId new) n rows)
  | inl e ↦ rw (has_row-none new.document.id rows e) (elim (Option-cases (find_row k rows)) [
    | inl z ↦ find_row-append k new rows z ∙ rw (==_ne (λ p. n (sym p)), z) refl
    | inr (r, z) ↦ find_row-append-found k new r rows z ∙ sym z
  ])
]
