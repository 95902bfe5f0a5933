-- ===== src/Ot/Relation/Compare.antt =====
-- What `compare_paths` and `paths_conflict` decide.
use replicant.Prelude.{
  ℕ, ◌≤◌, ◌≡◌, ◌≢◌, ◌↔◌, ◌⊎◌, inl, inr, refl, ◌∙◌, true, none, some, Option, [], ◌∷◌, ◌++◌,
  append_assoc, arith, Text, ◌==◌, ==_refl, length, length-append, text_eq, text_eq-eq, text_eq_iff,
  Bool-cases,
}
use replicant.Ot.Types.{PathRelation, same, parent, child, sibling, unrelated}
use replicant.Ot.Segment.{slash}
use replicant.Ot.Relation.{starts_with, get_parent_path, same_parent, compare_paths, paths_conflict}

starts_with-append : (s r : Text) → starts_with s (s ++ r) ≡ true
unfolding starts_with
starts_with-append [] r = refl
starts_with-append (c ∷ s) r = rw (==_refl c, starts_with-append s r)

starts_with-split : (s t : Text) → starts_with s t ≡ true → (r : Text) × (t ≡ s ++ r)
unfolding starts_with
starts_with-split [] t h = (t, refl)
starts_with-split (c ∷ s) [] h = ground arith
starts_with-split (c ∷ s) (d ∷ t) h = elim (Bool-cases (c == d)) [
  | inl e ↦ let (r, q) = starts_with-split s t (rw e at h) in (r, ground arith)
  | inr n ↦ ground arith
]

starts_with-length-le : (s t : Text) → starts_with s t ≡ true → length s ≤ length t
unfolding starts_with
starts_with-length-le [] t h = omega arith
starts_with-length-le (c ∷ s) [] h = ground arith
starts_with-length-le (c ∷ s) (d ∷ t) h = ground (arith, starts_with-length-le s t)

text_eq_comm : (s t : Text) → text_eq s t ≡ text_eq t s
unfolding text_eq
text_eq_comm [] [] = refl
text_eq_comm [] (d ∷ t) = refl
text_eq_comm (c ∷ s) [] = refl
text_eq_comm (c ∷ s) (d ∷ t) = ground (arith, text_eq_comm s t)

same_parent_comm : (a b : Option Text) → same_parent a b ≡ same_parent b a
same_parent_comm none none = refl
same_parent_comm none (some t) = refl
same_parent_comm (some s) none = refl
same_parent_comm (some s) (some t) = text_eq_comm s t

-- No path is both a parent and a child.
not_parent_and_child :
    (p q : Text)
    → starts_with (p ++ slash ∷ []) q ≡ true
    → starts_with (q ++ slash ∷ []) p ≡ true
    → ⊥
not_parent_and_child p q h k = omega (
  arith,
  starts_with-length-le (p ++ slash ∷ []) q h,
  starts_with-length-le (q ++ slash ∷ []) p k,
  length-append p (slash ∷ []),
  length-append q (slash ∷ []),
)

abbrev flip : PathRelation → PathRelation
flip same = same
flip parent = child
flip child = parent
flip sibling = sibling
flip unrelated = unrelated

-- Exchanging the two paths exchanges parent and child in the relation between them, and changes
-- nothing else.
compare_paths-flip : (p q : Text) → compare_paths q p ≡ flip (compare_paths p q)
unfolding compare_paths
compare_paths-flip p q = ground (
  arith,
  text_eq_comm p q,
  same_parent_comm (get_parent_path p) (get_parent_path q),
  not_parent_and_child p q,
)

-- Two paths are the same, or one is the other followed by a slash.
abbrev pub Overlap : Text → Text → Type 0
Overlap p q = (p ≡ q) ⊎ ((r : Text) × (q ≡ p ++ slash ∷ r)) ⊎ ((r : Text) × (p ≡ q ++ slash ∷ r))

below : (p q : Text) → starts_with (p ++ slash ∷ []) q ≡ true → (r : Text) × (q ≡ p ++ slash ∷ r)
below p q h =
    let (r, e) = starts_with-split (p ++ slash ∷ []) q h in (r, e ∙ append_assoc p (slash ∷ []) r)

starts_below : (p r : Text) → starts_with (p ++ slash ∷ []) (p ++ slash ∷ r) ≡ true
starts_below p r = rw (← append_assoc p (slash ∷ []) r) (starts_with-append (p ++ slash ∷ []) r)

conflict_tests :
    (p q : Text)
    → paths_conflict p q ≡ true
    → (text_eq p q ≡ true)
      ⊎ (starts_with (p ++ slash ∷ []) q ≡ true)
      ⊎ (starts_with (q ++ slash ∷ []) p ≡ true)
unfolding paths_conflict
conflict_tests p q h = ground arith

tests_conflict :
    (p q : Text)
    → (text_eq p q ≡ true)
      ⊎ (starts_with (p ++ slash ∷ []) q ≡ true)
      ⊎ (starts_with (q ++ slash ∷ []) p ≡ true)
    → paths_conflict p q ≡ true
unfolding paths_conflict
tests_conflict p q h = ground arith

Overlap-tests :
    (p q : Text)
    → Overlap p q
    → (text_eq p q ≡ true)
      ⊎ (starts_with (p ++ slash ∷ []) q ≡ true)
      ⊎ (starts_with (q ++ slash ∷ []) p ≡ true)
Overlap-tests p q (inl e) = inl ((text_eq_iff p q).1 e)
Overlap-tests p q (inr (inl (r, e))) = inr (inl (rw e (starts_below p r)))
Overlap-tests p q (inr (inr (r, e))) = inr (inr (rw e (starts_below q r)))

tests-Overlap :
    (p q : Text)
    → (text_eq p q ≡ true)
      ⊎ (starts_with (p ++ slash ∷ []) q ≡ true)
      ⊎ (starts_with (q ++ slash ∷ []) p ≡ true)
    → Overlap p q
tests-Overlap p q (inl e) = inl (text_eq-eq p q e)
tests-Overlap p q (inr (inl e)) = inr (inl (below p q e))
tests-Overlap p q (inr (inr e)) = inr (inr (below q p e))

-- Two paths conflict exactly if they are the same, or one is the other followed by a slash and
-- more.
pub paths_conflict_iff : (p q : Text) → (paths_conflict p q ≡ true) ↔ Overlap p q
paths_conflict_iff p q =
    (λ h. tests-Overlap p q (conflict_tests p q h), λ o. tests_conflict p q (Overlap-tests p q o))

-- The root path is unrelated to every path below it that does not begin with an empty key.
pub compare_paths_root :
    (c : ℕ) (s : Text) → c ≢ slash → compare_paths (slash ∷ []) (slash ∷ c ∷ s) ≡ unrelated
unfolding compare_paths
compare_paths_root c s h = unfold text_eq starts_with get_parent_path in ground arith
