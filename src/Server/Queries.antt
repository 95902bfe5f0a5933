-- ===== src/Server/Queries.antt =====
-- replicant-server/src/queries.rs, and the tables' searches and updates that the SQL states.
use replicant.Prelude.{
  ℕ, ◌+◌, ◌-◌, ◌%◌, ◌^◌, Bool, true, false, Option, none, some, List, [], ◌∷◌, Text, codes,
  if◌then◌else◌, ◌==◌, ltb, take,
}
use replicant.Prelude.Int.{ℤ, pos, negsuc}
use replicant.Models.{Document, as_str, get_key}
use replicant.Patches.{calculate_checksum}
use replicant.Server.State.{Row, Library}

-- The length of a text in UTF-8.
unfoldable pub byte_len : Text → ℕ
byte_len [] = 0
byte_len (c ∷ s) =
    (if ltb c 0x80 then 1 else if ltb c 0x800 then 2 else if ltb c 0x10000 then 3 else 4)
    + byte_len s

-- `as i32`
unfoldable pub as_i32 : ℕ → ℤ
as_i32 n = if ltb (n % 2 ^ 32) (2 ^ 31) then pos (n % 2 ^ 32) else negsuc (2 ^ 32 - n % 2 ^ 32 - 1)

abbrev pub or_else : {A : Type 0} → Option A → Option A → Option A
or_else (some a) b = some a
or_else none b = b

abbrev pub unwrap_or : {A : Type 0} → Option A → A → A
unwrap_or (some a) b = a
unwrap_or none b = b

abbrev pub first_128 : Option Text → Option Text
first_128 none = none
first_128 (some t) = some (take 128 t)

-- The row that is bound to the parameters of an `INSERT`, or whose fields an `UPDATE` takes.
unfoldable pub document_to_params : Library → Document → Row
unfolding byte_len as_i32
document_to_params lib doc = record {
  document = record doc {
    content_hash = some (unwrap_or doc.content_hash (calculate_checksum lib.json doc.content));
    title = or_else doc.title (
        or_else (first_128 (as_str (get_key lib.json (codes "title") doc.content)))
          (some (lib.format_time doc.created_at)));
  };
  size_bytes = as_i32 (byte_len (lib.json.to_string doc.content));
}

-- `SELECT … WHERE id = $1`
unfoldable pub find_document : ℕ → List Row → Option Document
find_document id [] = none
find_document id (r ∷ rows) = if r.document.id == id then some r.document else find_document id rows

unfoldable pub has_user : ℕ → List (ℕ × Text) → Bool
has_user id [] = false
has_user id ((u, email) ∷ users) = if u == id then true else has_user id users
