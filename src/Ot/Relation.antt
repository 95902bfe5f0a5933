-- ===== src/Ot/Relation.antt =====
-- The functions of replicant-core/src/ot/path_utils.rs that compare two paths. Positions count
-- characters, and every slice is taken at a position that `rfind` found.
pub mod Parent
pub mod Compare
use replicant.Prelude.{
  ℕ, suc, Bool, true, false, ◌&&◌, Option, none, some, [], ◌∷◌, ◌++◌, Text, ◌==◌, if◌then◌else◌,
  text_eq, take,
}
use replicant.Ot.Types.{PathRelation, same, parent, child, sibling, unrelated}
use replicant.Ot.Segment.{slash}

-- `text.starts_with(prefix)`, the prefix first.
unfoldable pub starts_with : Text → Text → Bool
starts_with [] t = true
starts_with (c ∷ s) [] = false
starts_with (c ∷ s) (d ∷ t) = (c == d) && starts_with s t

-- `rfind('/')`
unfoldable pub rfind_slash : Text → Option ℕ
rfind_slash [] = none
rfind_slash (c ∷ s) = elim (rfind_slash s) [
  | some i ↦ some (suc i)
  | none ↦ if c == slash then some 0 else none
]

unfoldable pub get_parent_path : Text → Option Text
unfolding rfind_slash
get_parent_path path = if text_eq path (slash ∷ []) then none else elim (rfind_slash path) [
  | none ↦ none
  | some at ↦ if at == 0 then some (slash ∷ []) else some (take at path)
]

abbrev pub option_eq : Option Text → Option Text → Bool
option_eq none none = true
option_eq none (some t) = false
option_eq (some s) none = false
option_eq (some s) (some t) = text_eq s t

-- The guard `(Some(p1), Some(p2)) if p1 == p2`.
abbrev same_parent : Option Text → Option Text → Bool
same_parent (some s) (some t) = text_eq s t
same_parent (some s) none = false
same_parent none o = false

unfoldable pub compare_paths : Text → Text → PathRelation
compare_paths path1 path2 =
    if text_eq path1 path2
    then same
    else if starts_with (path1 ++ slash ∷ []) path2
    then parent
    else if starts_with (path2 ++ slash ∷ []) path1
    then child
    else if same_parent (get_parent_path path1) (get_parent_path path2)
    then sibling
    else unrelated

abbrev is_conflict : PathRelation → Bool
is_conflict same = true
is_conflict parent = true
is_conflict child = true
is_conflict _ = false

unfoldable pub paths_conflict : Text → Text → Bool
unfolding compare_paths
paths_conflict path1 path2 = is_conflict (compare_paths path1 path2)
