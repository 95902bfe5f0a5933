-- ===== src/Ot/Path/RoundTrip.antt =====
-- `parse_path` reads back what `reconstruct_path` writes.
use replicant.Prelude.{
  ℕ, ◌≡◌, ◌≢◌, refl, ◌∙◌, ap, sym, false, List, [], ◌∷◌, ◌++◌, map, arith, Text, ==_ne, text_eq,
  text_eq-eq, All, Bool-cases, inl, inr, Option-cases, some, none, ◌⊎◌, append-nil,
}
use mathlib.Core.List.{cons-ne-nil}
use replicant.Errors.{ok}
use replicant.Ot.Types.{PathSegment, object, array, ParsedPath}
use replicant.Ot.Segment.{
  slash, tilde, replace_pair, unescape, parse_segment, parse_usize, show_segment,
}
use replicant.Ot.Segment.Escape.{Lacks}
use replicant.Ot.Segment.RoundTrip.{
  IsCanonical, parse_segment-show_segment, show_segment-Lacks, parse_segment-IsCanonical,
}
use replicant.Ot.Path.{
  cons_head, split_slash, parse_segments, parse_path, join_segments, reconstruct_path,
}

split_slash_plain :
    (c : ℕ) (s : Text) → c ≢ slash → split_slash (c ∷ s) ≡ cons_head c (split_slash s)
unfolding split_slash
split_slash_plain c s h = rw (==_ne h)

split_slash_end : (s : Text) → Lacks slash s → split_slash s ≡ s ∷ []
split_slash_end [] h = unfold split_slash in refl
split_slash_end (c ∷ s) (hc, hs) =
    split_slash_plain c s hc ∙ ap (cons_head c) (split_slash_end s hs)

split_slash-append : (s t : Text) → Lacks slash s → split_slash (s ++ slash ∷ t) ≡ s ∷ split_slash t
split_slash-append [] t h = unfold split_slash in refl
split_slash-append (c ∷ s) t (hc, hs) =
    split_slash_plain c (s ++ slash ∷ t) hc ∙ ap (cons_head c) (split_slash-append s t hs)

-- Splitting a print gives the prints of its segments.
split_slash-join_segments :
    (seg : PathSegment) (segs : List PathSegment)
    → split_slash (show_segment seg ++ join_segments segs)
      ≡ show_segment seg ∷ map show_segment segs
unfolding join_segments
split_slash-join_segments seg [] =
    rw append-nil (split_slash_end (show_segment seg) (show_segment-Lacks seg))
split_slash-join_segments seg (next ∷ segs) =
    split_slash-append (show_segment seg) _ (show_segment-Lacks seg)
    ∙ ap (λ (ps : List Text). show_segment seg ∷ ps) (split_slash-join_segments next segs)

parse_segments-map :
    (segs : List PathSegment) → All IsCanonical segs → parse_segments (map show_segment segs) ≡ segs
unfolding parse_segments
parse_segments-map [] h = refl
parse_segments-map (seg ∷ segs) (hs, hss) =
    rw (parse_segment-show_segment seg hs, parse_segments-map segs hss)

-- Only the empty key has an empty print.
show_segment-eq-nil :
    (seg : PathSegment) → IsCanonical seg → show_segment seg ≡ [] → seg ≡ object []
show_segment-eq-nil seg h e =
    sym (parse_segment-show_segment seg h) ∙ ap parse_segment e ∙ parse_segment_nil
  where
    parse_segment_nil : parse_segment [] ≡ object []
    parse_segment_nil = unfold parse_segment in refl

append-eq-nil : (s t : Text) → s ++ t ≡ [] → (s ≡ []) × (t ≡ [])
append-eq-nil [] t e = (refl, e)
append-eq-nil (c ∷ s) t e = ground arith

pub print_ne :
    (seg : PathSegment) (segs : List PathSegment)
    → IsCanonical seg
    → seg ∷ segs ≢ object [] ∷ []
    → text_eq (slash ∷ (show_segment seg ++ join_segments segs)) (slash ∷ []) ≡ false
print_ne seg segs h ne =
    elim (Bool-cases (text_eq (slash ∷ (show_segment seg ++ join_segments segs)) (slash ∷ []))) [
      | inr no_match ↦ no_match
      | inl hit ↦ absurd (
          contra segs
            (append-eq-nil (show_segment seg) (join_segments segs) (tail_nil (text_eq-eq _ _ hit)))
            ne)
    ]
  where
    tail_nil : {s : Text} → slash ∷ s ≡ slash ∷ [] → s ≡ []
    tail_nil e = cc

    contra :
        (rest : List PathSegment)
        → (show_segment seg ≡ []) × (join_segments rest ≡ [])
        → seg ∷ rest ≢ object [] ∷ []
        → ⊥
    contra [] (e, f) n = n (ap (λ (x : PathSegment). x ∷ []) (show_segment-eq-nil seg h e))
    contra (x ∷ rest) (e, f) n = unfold join_segments in ground arith

-- Printing canonical segments and parsing the result gives the segments back, but for the single
-- empty key, whose print is the root. A segment is canonical if it is a 64-bit index or a key that
-- does not read as a number.
pub parse_path-reconstruct_path :
    (segs : List PathSegment)
    → All IsCanonical segs
    → segs ≢ object [] ∷ []
    → parse_path (reconstruct_path segs)
      ≡ ok (record { raw = reconstruct_path segs; segments = segs })
unfolding parse_path reconstruct_path
parse_path-reconstruct_path [] h ne = unfold text_eq in refl
parse_path-reconstruct_path (seg ∷ segs) (hs, hss) ne = rw (
  print_ne seg segs hs ne,
  split_slash-join_segments seg segs,
  parse_segments-map (seg ∷ segs) (hs, hss),
)

parse_segments-IsCanonical : (ps : List Text) → All IsCanonical (parse_segments ps)
unfolding parse_segments
parse_segments-IsCanonical [] = tt
parse_segments-IsCanonical (p ∷ ps) = (parse_segment-IsCanonical p, parse_segments-IsCanonical ps)

replace_pair-eq-nil : (a b r : ℕ) (s : Text) → replace_pair a b r s ≡ [] → s ≡ []
unfolding replace_pair
replace_pair-eq-nil a b r [] e = refl
replace_pair-eq-nil a b r (c ∷ []) e = ground arith
replace_pair-eq-nil a b r (c ∷ d ∷ s) e = ground arith

unescape-eq-nil : (s : Text) → unescape s ≡ [] → s ≡ []
unfolding unescape
unescape-eq-nil s e =
    replace_pair-eq-nil tilde b'1' slash s
      (replace_pair-eq-nil tilde b'0' tilde (replace_pair tilde b'1' slash s) e)

object-text : (t : Text) → object t ≡ object [] → t ≡ []
object-text t q = cc

array-ne-object : (i : ℕ) (t : Text) → array i ≢ object t
array-ne-object i t q = cc

parse_segment_object :
    (s : Text) → parse_usize (unescape s) ≡ none → parse_segment s ≡ object (unescape s)
unfolding parse_segment
parse_segment_object s e = rw (e, parse_segment)

parse_segment_array :
    (s : Text) (i : ℕ) → parse_usize (unescape s) ≡ some i → parse_segment s ≡ array i
unfolding parse_segment
parse_segment_array s i e = rw (e, parse_segment)

parse_segment-eq-nil : (s : Text) → parse_segment s ≡ object [] → s ≡ []
parse_segment-eq-nil s e = elim (Option-cases (parse_usize (unescape s))) [
  | inl miss ↦ unescape-eq-nil s (object-text (unescape s) (sym (parse_segment_object s miss) ∙ e))
  | inr (i, hit) ↦ absurd (array-ne-object i [] (sym (parse_segment_array s i hit) ∙ e))
]

split_slash-eq-nil : (s : Text) → split_slash s ≡ [] ∷ [] → s ≡ []
unfolding split_slash
split_slash-eq-nil [] e = refl
split_slash-eq-nil (c ∷ s) e = ground (arith, split_slash-ne-nil s)
  where
    split_slash-ne-nil : (t : Text) → split_slash t ≢ []
    split_slash-ne-nil [] = ground arith
    split_slash-ne-nil (d ∷ t) = ground arith

parse_segments-single : (ps : List Text) → parse_segments ps ≡ object [] ∷ [] → ps ≡ [] ∷ []
unfolding parse_segments
parse_segments-single [] e = ground arith
parse_segments-single (p ∷ []) e = ground (arith, parse_segment-eq-nil p)
parse_segments-single (p ∷ q ∷ ps) e = ground arith

-- What an accepted path is.
pub parse_path-cases :
    (path : Text) {p : ParsedPath}
    → parse_path path ≡ ok p
    → (p.raw ≡ path)
      × ((p.segments ≡ [])
          ⊎ ((s : Text) × (s ≢ []) × (p.segments ≡ parse_segments (split_slash s))))
unfolding parse_path
parse_path-cases [] e = ground arith
parse_path-cases (c ∷ []) e = unfold text_eq in (ground arith, inl (ground arith))
parse_path-cases (c ∷ d ∷ s) e =
    unfold text_eq in (ground arith, inr (d ∷ s, cons-ne-nil d s, ground arith))

-- Whatever `parse_path` accepts, printing its segments and parsing again gives the same segments.
pub parse_path-reparse :
    (path : Text) {p : ParsedPath}
    → parse_path path ≡ ok p
    → parse_path (reconstruct_path p.segments)
      ≡ ok (record { raw = reconstruct_path p.segments; segments = p.segments })
parse_path-reparse path {p} e =
    parse_path-reconstruct_path p.segments (canonical (parse_path-cases path e).1)
      (several (parse_path-cases path e).1)
  where
    canonical :
        (p.segments ≡ []) ⊎ ((s : Text) × (s ≢ []) × (p.segments ≡ parse_segments (split_slash s)))
        → All IsCanonical p.segments
    canonical (inl h) = rw h tt
    canonical (inr (s, n, h)) = rw h (parse_segments-IsCanonical (split_slash s))

    several :
        (p.segments ≡ []) ⊎ ((s : Text) × (s ≢ []) × (p.segments ≡ parse_segments (split_slash s)))
        → p.segments ≢ object [] ∷ []
    several (inl h) q = ground arith
    several (inr (s, n, h)) q =
        n (split_slash-eq-nil s (parse_segments-single (split_slash s) (sym h ∙ q)))
