-- ===== src/Patches/Examples.antt =====
-- The theorems on patches, on concrete patches and the sample library.
use replicant.Prelude.{◌≡◌, refl, none, List, [], ◌∷◌, arith, codes, text_eq, All}
use replicant.Errors.{ok}
use replicant.Json.{null, PatchOperation, remove, replace}
use replicant.Ot.Types.{PathSegment, object}
use replicant.Ot.Segment.{parse_usize, scan}
use replicant.Ot.Segment.RoundTrip.{IsCanonical}
use replicant.Ot.Path.{extract_array_index}
use replicant.Ot.Transform.Edits.{insertion}
use replicant.Ot.Transform.Arrays.{element, operation}
use replicant.Ot.Transform.Cases.{SharesArray}
use replicant.Patches.{operational, push_new, transform_patches}
use replicant.Patches.Reverse.{Reverses, compute_reverse_patch_undoes}
use replicant.Patches.Transforms.{push_all, transform_patches-Apart}
use replicant.Patches.Repeats.{transform_patches_repeated, transform_patches_doubled}
use replicant.Sample.{sample_json, sample_json-PatchesDiff, sample_json-ComparesOperations}

abbrev items : List PathSegment
items = object (codes "items") ∷ []

abbrev remove_first : PatchOperation
remove_first = remove (record { path = codes "/items/0" })

abbrev set_title : PatchOperation
set_title = replace (record { path = codes "/title"; value = null })

no_number : parse_usize (codes "items") ≡ none
unfolding parse_usize scan
no_number = refl

items-IsCanonical : All IsCanonical items
items-IsCanonical = (no_number, tt)

title_index : extract_array_index (codes "/title") ≡ none
unfolding extract_array_index text_eq
title_index = refl

unshared : ¬ SharesArray (codes "/items/0") (codes "/title")
unshared (i, j, e, f, shared) = ground (arith, title_index)

second_unshared : ¬ SharesArray (element items 1) (codes "/title")
second_unshared (i, j, e, f, shared) = ground (arith, title_index)

compute_reverse_patch_undoes_example : Reverses sample_json null (set_title ∷ [])
compute_reverse_patch_undoes_example =
    compute_reverse_patch_undoes sample_json sample_json-PatchesDiff null (set_title ∷ [])

transform_patches-Apart_example :
    transform_patches sample_json (remove_first ∷ []) (set_title ∷ []) operational
    ≡ ok (push_all sample_json [] (remove_first ∷ []), push_all sample_json [] (set_title ∷ []))
transform_patches-Apart_example =
    transform_patches-Apart sample_json sample_json-ComparesOperations remove_first set_title [] []
      ((unshared, tt), tt)

removals_once :
    transform_patches sample_json (remove_first ∷ remove_first ∷ []) (set_title ∷ []) operational
    ≡ ok (remove_first ∷ [], set_title ∷ [])
removals_once =
    transform_patches_repeated sample_json sample_json-ComparesOperations remove_first set_title
      unshared

transform_patches_doubled_example :
    transform_patches sample_json
      (operation items (insertion 1 null) ∷ [])
      (operation items (insertion 0 null) ∷ set_title ∷ [])
      operational
    ≡ ok (
      operation items (insertion 2 null) ∷ operation items (insertion 1 null) ∷ [],
      push_new sample_json (operation items (insertion 0 null) ∷ []) set_title,
    )
transform_patches_doubled_example =
    transform_patches_doubled sample_json sample_json-ComparesOperations items 1 0 null null
      set_title items-IsCanonical (omega arith) (omega arith) second_unshared
