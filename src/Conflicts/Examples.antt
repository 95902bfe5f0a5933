-- ===== src/Conflicts/Examples.antt =====
-- The theorems on conflicts, on two documents and the sample library.
use replicant.Prelude.{◌+◌, ◌≡◌, refl, ◌||◌, text_eq, true, none, arith, codes, Text}
use replicant.Prelude.Int.{pos}
use replicant.Errors.{ok}
use replicant.Json.{Value, null, boolean, array, object, Items, nil, cons, Fields, end, field}
use replicant.Models.{Document}
use replicant.Conflicts.{
  last_write_wins, first_write_wins, merge_json, contains, merge_json_values, resolve,
}
use replicant.Conflicts.Choice.{IsLatest, IsFirst, resolve-IsLatest-IsFirst}
use replicant.Conflicts.Merge.{Holds, IsMap, merge_json_values_keys}
use replicant.Conflicts.Arrays.{append, IsDistinct, larger, merge_json_values_items, resolve_merge}
use replicant.Sample.{sample_json, sample_json-MapLaws, sample_json-ComparesValues}

abbrev mine : Document
mine = record {
  id = 1;
  user_id = 7;
  content = object (field (codes "title") null end);
  sync_revision = pos 3;
  content_hash = none;
  title = none;
  created_at = 10;
  updated_at = 20;
  deleted_at = none;
}

abbrev theirs : Document
theirs = record mine {
  content = object (field (codes "size") null (field (codes "title") (boolean true) end));
  sync_revision = pos 5;
  updated_at = 30;
}

resolve-IsLatest-IsFirst_run :
    ((d : Document) × (resolve sample_json last_write_wins mine theirs ≡ ok d)
      × IsLatest mine theirs d)
    × ((d : Document) × (resolve sample_json first_write_wins mine theirs ≡ ok d)
        × IsFirst mine theirs d)
resolve-IsLatest-IsFirst_run = resolve-IsLatest-IsFirst sample_json mine theirs

abbrev local_map : Fields
local_map = field (codes "title") null end

abbrev remote_map : Fields
remote_map = field (codes "size") null (field (codes "title") (boolean true) end)

remote_map-IsMap : IsMap remote_map
remote_map-IsMap = (unfold text_eq in refl, (refl, tt))

merge_json_values_keys_example :
    (merged : Fields) × (merge_json_values sample_json (object local_map) (object remote_map)
      ≡ ok (object merged))
    × ((k : Text)
        → Holds sample_json
            (sample_json.get k local_map)
            (sample_json.get k remote_map)
            (sample_json.get k merged))
merge_json_values_keys_example =
    merge_json_values_keys sample_json sample_json-MapLaws local_map remote_map remote_map-IsMap

one_item-IsDistinct : IsDistinct sample_json (cons null nil)
unfolding contains
one_item-IsDistinct = (refl, tt)

merge_json_values_items_example :
    (extra : Items) × (merge_json_values sample_json
        (array (cons null nil))
        (array (cons (boolean true) (cons null nil)))
      ≡ ok (array (append (cons null nil) extra)))
    × ((v : Value)
        → contains sample_json (append (cons null nil) extra) v ≡ (
            contains sample_json (cons null nil) v
            || contains sample_json (cons (boolean true) (cons null nil)) v))
    × IsDistinct sample_json (append (cons null nil) extra)
merge_json_values_items_example =
    merge_json_values_items sample_json sample_json-ComparesValues (cons null nil)
      (cons (boolean true) (cons null nil)) one_item-IsDistinct

resolve_merge_example :
    (merged : Value) × (merge_json_values sample_json mine.content theirs.content ≡ ok merged)
    × (resolve sample_json merge_json mine theirs
        ≡ ok (record mine {
          content = merged;
          sync_revision = pos (larger 3 5 + 1);
          content_hash = none;
        }))
resolve_merge_example =
    resolve_merge sample_json mine theirs 3 5 refl refl (omega arith) (omega arith)
