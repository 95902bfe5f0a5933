-- ===== src/Ot/Examples.antt =====
-- Runs of the path functions, after the unit tests of replicant-core/src/ot/path_utils.rs, and the
-- theorems on concrete paths.
use replicant.Prelude.{
  ◌≡◌, ◌≢◌, refl, ◌↔◌, true, false, none, some, List, [], ◌∷◌, arith, codes, text_eq, All,
}
use replicant.Prelude.Int.{pos, negsuc, wrap_i64, ◌+ℤ◌}
use replicant.Errors.{invalid_operation, ok, err}
use replicant.Json.{Value, null, boolean, remove}
use replicant.Ot.Types.{PathSegment, object, array, sibling, unrelated}
use replicant.Ot.Segment.{parse_usize, scan}
use replicant.Ot.Segment.RoundTrip.{IsCanonical}
use replicant.Ot.Path.{
  parse_path, reconstruct_path, extract_array_index, negative_index, adjust_array_index,
}
use replicant.Ot.Path.RoundTrip.{parse_path-reconstruct_path, parse_path-reparse}
use replicant.Ot.Path.Adjust.{
  append-ne-single, adjust_array_index_shift, adjust_array_index_negative,
}
use replicant.Ot.Relation.{compare_paths, starts_with, get_parent_path, paths_conflict}
use replicant.Ot.Relation.Compare.{Overlap, paths_conflict_iff, compare_paths_root}
use replicant.Ot.Transform.{transform_operation_pair}
use replicant.Ot.Transform.Edits.{Edit, insertion, deletion}
use replicant.Ot.Transform.Convergence.{Converges}
use replicant.Ot.Transform.Arrays.{
  operation, Transformed, transform_operation_pair-operation, transform_operation_pair-Converges,
}
use replicant.Ot.Transform.Cases.{SharesArray, transform_operation_pair_unshared}
use replicant.Ot.Transform.Nested.{set_member, set_member-moved}

parse_runs :
    parse_path (codes "/items/0/a~1b")
    ≡ ok (record {
      raw = codes "/items/0/a~1b";
      segments = object (codes "items") ∷ array 0 ∷ object (codes "a/b") ∷ [];
    })
unfolding parse_path text_eq
parse_runs = refl

adjust_runs : adjust_array_index (codes "/data/5/name") 5 (pos 1) ≡ ok (codes "/data/6/name")
unfolding adjust_array_index text_eq wrap_i64 ◌+ℤ◌
adjust_runs = refl

adjust_underflow :
    adjust_array_index (codes "/items/2") 2 (negsuc 2)
    ≡ err (invalid_operation (codes "Index adjustment would be negative: 2 + -3 = -1"))
unfolding adjust_array_index text_eq wrap_i64 ◌+ℤ◌
adjust_underflow = refl

compare_runs : compare_paths (codes "/x/y/z") (codes "/x/y/w") ≡ sibling
unfolding compare_paths text_eq starts_with get_parent_path
compare_runs = refl

-- The segments of `/items`, and of `/items/2/name`.
abbrev items : List PathSegment
items = object (codes "items") ∷ []

abbrev third_name : List PathSegment
third_name = object (codes "items") ∷ array 2 ∷ object (codes "name") ∷ []

no_number :
    (parse_usize (codes "items") ≡ none)
    × (parse_usize (codes "name") ≡ none)
    × (parse_usize (codes "size") ≡ none)
unfolding parse_usize scan
no_number = (refl, refl, refl)

items-IsCanonical : All IsCanonical items
items-IsCanonical = (no_number.0, tt)

third_name-IsCanonical : All IsCanonical third_name
third_name-IsCanonical = (no_number.0, (omega arith, (no_number.1, tt)))

third_name-ne : third_name ≢ object [] ∷ []
third_name-ne = append-ne-single items (object (codes "name") ∷ []) 2

transform_operation_pair-Converges_example :
    (a' : Edit Value) × (b' : Edit Value) × (transform_operation_pair
        (operation items (insertion 0 null))
        (operation items (deletion 1))
      ≡ ok (some (operation items a'), some (operation items b')))
    × Converges (boolean true ∷ boolean false ∷ []) (insertion 0 null) (deletion 1) (a', b')
transform_operation_pair-Converges_example =
    transform_operation_pair-Converges items (boolean true ∷ boolean false ∷ []) (insertion 0 null)
      (deletion 1) items-IsCanonical (omega arith) (omega arith) (omega arith) (omega arith)
      (λ e. e)

transform_operation_pair-operation_example :
    Transformed items (insertion 3 null) (insertion 1 (boolean true))
transform_operation_pair-operation_example =
    transform_operation_pair-operation items (insertion 3 null) (insertion 1 (boolean true))
      items-IsCanonical (omega arith) (omega arith)

parse_path-reconstruct_path_example :
    parse_path (reconstruct_path third_name)
    ≡ ok (record { raw = reconstruct_path third_name; segments = third_name })
parse_path-reconstruct_path_example =
    parse_path-reconstruct_path third_name third_name-IsCanonical third_name-ne

abbrev escaped : List PathSegment
escaped = object (codes "items") ∷ array 0 ∷ object (codes "a/b") ∷ []

parse_path-reparse_run :
    parse_path (reconstruct_path escaped)
    ≡ ok (record { raw = reconstruct_path escaped; segments = escaped })
parse_path-reparse_run = parse_path-reparse (codes "/items/0/a~1b") parse_runs

adjust_array_index_shift_run :
    adjust_array_index (reconstruct_path third_name) 2 (negsuc 0)
    ≡ ok (reconstruct_path (object (codes "items") ∷ array 1 ∷ object (codes "name") ∷ []))
adjust_array_index_shift_run =
    adjust_array_index_shift items (object (codes "name") ∷ []) 2 (negsuc 0) third_name-IsCanonical
      ((λ e. cc), tt) (omega arith) 1 (unfold ◌+ℤ◌ in refl) (omega arith)

adjust_array_index_negative_run :
    adjust_array_index (reconstruct_path third_name) 2 (negsuc 2)
    ≡ err (negative_index (pos 2) (negsuc 2) (negsuc 0))
adjust_array_index_negative_run =
    adjust_array_index_negative items (object (codes "name") ∷ []) 2 (negsuc 2)
      third_name-IsCanonical ((λ e. cc), tt) (omega arith) 0 (unfold ◌+ℤ◌ in refl) (omega arith)

paths_conflict_iff_run :
    (paths_conflict (codes "/a") (codes "/a/b") ≡ true) ↔ Overlap (codes "/a") (codes "/a/b")
paths_conflict_iff_run = paths_conflict_iff (codes "/a") (codes "/a/b")

compare_paths_root_run : compare_paths (codes "/") (codes "/a") ≡ unrelated
compare_paths_root_run = compare_paths_root b'a' [] (omega arith)

title_index : extract_array_index (codes "/title") ≡ none
unfolding extract_array_index text_eq
title_index = refl

title_unshared : ¬ SharesArray (codes "/title") (codes "/items/0")
title_unshared (i, j, e, f, shared) = ground (arith, title_index)

transform_operation_pair_unshared_run :
    transform_operation_pair
      (remove (record { path = codes "/title" }))
      (remove (record { path = codes "/items/0" }))
    ≡ ok (
      some (remove (record { path = codes "/title" })),
      some (remove (record { path = codes "/items/0" })),
    )
transform_operation_pair_unshared_run =
    transform_operation_pair_unshared (remove (record { path = codes "/title" }))
      (remove (record { path = codes "/items/0" })) title_unshared

set_member-moved_example :
    transform_operation_pair
      (set_member items 0 (codes "name") null)
      (set_member items 0 (codes "size") null)
    ≡ ok (
      some (set_member items 0 (codes "name") null),
      some (set_member items 1 (codes "size") null),
    )
set_member-moved_example =
    set_member-moved items 0 (codes "name") (codes "size") null null items-IsCanonical (omega arith)
      (no_number.1) (no_number.2)
