-- ===== src/Ot/Relation/Parent.antt =====
-- The parent of the print of a path.
use replicant.Prelude.{
  ℕ, ◌≡◌, ◌≢◌, refl, ap, false, none, some, List, [], ◌∷◌, ◌++◌, append_assoc, append-nil, arith,
  Text, ==_ne, length, take, text_eq,
}
use replicant.Ot.Types.{PathSegment, object}
use replicant.Ot.Segment.{slash, show_segment}
use replicant.Ot.Segment.Escape.{Lacks}
use replicant.Ot.Segment.RoundTrip.{IsCanonical, show_segment-Lacks}
use replicant.Ot.Path.{join_segments, reconstruct_path}
use replicant.Ot.Path.RoundTrip.{print_ne}
use replicant.Ot.Relation.{rfind_slash, get_parent_path}

rfind_slash-Lacks : (s : Text) → Lacks slash s → rfind_slash s ≡ none
unfolding rfind_slash
rfind_slash-Lacks [] h = refl
rfind_slash-Lacks (c ∷ s) (hc, hs) = rw (rfind_slash-Lacks s hs, ==_ne hc, rfind_slash)

rfind_slash-append : (s t : Text) → Lacks slash t → rfind_slash (s ++ slash ∷ t) ≡ some (length s)
unfolding rfind_slash
rfind_slash-append [] t h = rw (rfind_slash-Lacks t h, rfind_slash)
rfind_slash-append (c ∷ s) t h = rw (rfind_slash-append s t h, rfind_slash)

take-append : (s t : Text) → take (length s) (s ++ t) ≡ s
take-append [] t = refl
take-append (c ∷ s) t = ap (λ (u : Text). c ∷ u) (take-append s t)

join_segments-append :
    (pre segs : List PathSegment)
    → join_segments (pre ++ segs) ≡ join_segments pre ++ join_segments segs
unfolding join_segments
join_segments-append [] segs = refl
join_segments-append (p ∷ pre) segs = rw (join_segments-append pre segs, append_assoc)

-- A path of at least one character and a slash-free rest behind its last slash.
get_parent_path-append :
    (c : ℕ) (s t : Text) → Lacks slash t → get_parent_path (c ∷ s ++ slash ∷ t) ≡ some (c ∷ s)
unfolding get_parent_path
get_parent_path-append c s t h = rw (
  long_ne c s t,
  rfind_slash-append (c ∷ s) t h,
  get_parent_path,
  ==_ne {a = length (c ∷ s)} {b = 0} (omega arith),
  take-append s (slash ∷ t),
)
  where
    long_ne : (d : ℕ) (u v : Text) → text_eq (d ∷ u ++ slash ∷ v) (slash ∷ []) ≡ false
    long_ne d [] v = unfold text_eq in ground arith
    long_ne d (e ∷ u) v = unfold text_eq in ground arith

-- The parent of a path at the root is the root.
get_parent_path_root :
    (t : Text)
    → Lacks slash t
    → text_eq (slash ∷ t) (slash ∷ []) ≡ false
    → get_parent_path (slash ∷ t) ≡ some (slash ∷ [])
unfolding get_parent_path
get_parent_path_root t h ne = rw (ne, rfind_slash-append [] t h, get_parent_path)

join_segments_nil : join_segments [] ≡ []
unfolding join_segments
join_segments_nil = refl

reconstruct_path_nil : reconstruct_path [] ≡ slash ∷ []
unfolding reconstruct_path
reconstruct_path_nil = refl

join_segments_single : (seg : PathSegment) → join_segments (seg ∷ []) ≡ slash ∷ show_segment seg
unfolding join_segments
join_segments_single seg = rw append-nil

reconstruct_path_cons :
    (p : PathSegment) (pre : List PathSegment)
    → reconstruct_path (p ∷ pre) ≡ slash ∷ (show_segment p ++ join_segments pre)
unfolding reconstruct_path
reconstruct_path_cons p pre = refl

reconstruct_path_last :
    (p : PathSegment) (pre : List PathSegment) (seg : PathSegment)
    → reconstruct_path (p ∷ (pre ++ seg ∷ []))
      ≡ slash ∷ (show_segment p ++ join_segments pre) ++ slash ∷ show_segment seg
reconstruct_path_last p pre seg =
    rw (
      reconstruct_path_cons,
      join_segments-append pre (seg ∷ []),
      join_segments_single,
      append_assoc,
    )

-- The parent of the print of some segments is the print of the segments without the last one, where
-- that one is canonical and the path is not the single empty key.
pub get_parent_path-reconstruct_path :
    (pre : List PathSegment) (seg : PathSegment)
    → IsCanonical seg
    → pre ++ seg ∷ [] ≢ object [] ∷ []
    → get_parent_path (reconstruct_path (pre ++ seg ∷ [])) ≡ some (reconstruct_path pre)
get_parent_path-reconstruct_path [] seg h ne =
    rw (reconstruct_path_cons seg [], join_segments_nil, append-nil, reconstruct_path_nil)
      (get_parent_path_root (show_segment seg) (show_segment-Lacks seg)
        (rw (join_segments_nil, append-nil) at (print_ne seg [] h ne)))
get_parent_path-reconstruct_path (p ∷ pre) seg h ne =
    rw (reconstruct_path_last p pre seg, reconstruct_path_cons p pre)
      (get_parent_path-append slash (show_segment p ++ join_segments pre) (show_segment seg)
        (show_segment-Lacks seg))
