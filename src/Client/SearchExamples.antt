-- ===== src/Client/SearchExamples.antt =====
-- The theorem on the full-text index, on the client of the other examples, and runs of it.
use replicant.Prelude.{true, ◌≡◌, refl, Option, none, some, [], ◌∷◌, map, codes, Text, text_eq}
use replicant.Errors.{database, database_error, ok, err}
use replicant.Json.{Value, null, boolean, number, string, array, object}
use replicant.Models.{Document}
use replicant.Client.Queue.{is_some}
use replicant.Client.Search.{FtsEntry, SearchLibrary, Search}
use replicant.Client.Search.Index.{extracts, configure_search, rebuild_fts_index}
use replicant.Client.Search.Changes.{saves, deletes, marks, apply_all}
use replicant.Client.Search.InStep.{InStep}
use replicant.Client.Search.Configured.{apply_all-InStep}
use replicant.Client.Examples.{lib, device, local}

abbrev text_at : Value → Option Text
text_at null = none
text_at (boolean b) = none
text_at (number n) = none
text_at (string t) = some t
text_at (array items) = none
text_at (object fields) = none

-- Only a text has a value, at every path, and every entry matches.
unfoldable sqlite : SearchLibrary
sqlite = record {
  json_extract = λ value path. some (text_at value);
  group_concat = λ texts. elim texts [ [] ↦ [] | t ∷ ts ↦ t ];
  matching = λ text entries. some entries;
}

abbrev phone : Search
unfolding device
phone = record { client = device; search_config = []; documents_fts = [] }

abbrev renamed : Document
renamed = record local { title = some (codes "new"); content = string (codes "x") }

readable : (v : Value) → is_some (extracts sqlite (codes "$.body" ∷ []) v) ≡ true
unfolding extracts sqlite
readable null = refl
readable (boolean b) = refl
readable (number n) = refl
readable (string t) = refl
readable (array items) = refl
readable (object fields) = refl

configured : (configure_search sqlite (codes "$.body" ∷ []) phone).0 ≡ ok tt
unfolding configure_search device sqlite
configured = refl

apply_all-InStep_example : InStep sqlite (
    apply_all lib sqlite
      (saves renamed none ∷ deletes 2 ∷ marks 1 ∷ [])
      (configure_search sqlite (codes "$.body" ∷ []) phone).1)
unfolding phone device
apply_all-InStep_example =
    apply_all-InStep sqlite (codes "$.body") [] readable lib
      (saves renamed none ∷ deletes 2 ∷ marks 1 ∷ []) phone refl configured

-- The entry of the new content.
bodies :
    map
      (λ (e : FtsEntry). e.body)
      (apply_all lib sqlite
        (saves renamed none ∷ [])
        (configure_search sqlite (codes "$.body" ∷ []) phone).1).documents_fts
    ≡ codes "x" ∷ []
unfolding apply_all configure_search phone device sqlite
bodies = refl

-- A path that stands twice is refused, and the search stays as it was.
configured_twice :
    configure_search sqlite (codes "$.a" ∷ codes "$.a" ∷ []) phone
    ≡ (err (database_error (database (codes "1555"))), phone)
unfolding configure_search phone device sqlite text_eq
configured_twice = refl

-- With no path the index is filled, but no later write reaches it.
titles_stay :
    map
      (λ (e : FtsEntry). e.title)
      (apply_all lib sqlite
        (saves renamed none ∷ [])
        (configure_search sqlite [] phone).1).documents_fts
    ≡ codes "notes" ∷ []
unfolding apply_all configure_search phone device sqlite
titles_stay = refl

titles_rebuilt :
    map
      (λ (e : FtsEntry). e.title)
      ((rebuild_fts_index sqlite
          (apply_all lib sqlite (saves renamed none ∷ []) (configure_search sqlite [] phone).1)).1
        ).documents_fts
    ≡ codes "new" ∷ []
unfolding apply_all configure_search rebuild_fts_index phone device sqlite
titles_rebuilt = refl
