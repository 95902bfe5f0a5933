-- ===== src/Ot/Segment/RoundTrip.antt =====
-- A segment that the path functions can tell apart is read back from its print.
use replicant.Prelude.{◌^◌, ◌<◌, ◌≡◌, ap, none, arith, inl, inr, Option-cases, Text}
use replicant.Prelude.Int.{show_nat}
use replicant.Ot.Types.{PathSegment, object, array}
use replicant.Ot.Segment.{slash, tilde, parse_usize, unescape, parse_segment, show_segment}
use replicant.Ot.Segment.Escape.{Lacks, unescape-Lacks, unescape-escape, escape-Lacks}
use replicant.Ot.Segment.Number.{
  show_nat-IsDigit, parse_usize-show_nat, IsDigit-Lacks, parse_usize-lt,
}

-- A key that does not read as a number, or a 64-bit index.
abbrev pub IsCanonical : PathSegment → Type 0
IsCanonical (object key) = parse_usize key ≡ none
IsCanonical (array i) = i < 2 ^ 64

pub parse_segment-show_segment :
    (seg : PathSegment) → IsCanonical seg → parse_segment (show_segment seg) ≡ seg
unfolding parse_segment show_segment
parse_segment-show_segment (object key) h =
    rw (unescape-escape key, h, parse_segment) (ap object (unescape-escape key))
parse_segment-show_segment (array i) h = rw (
  unescape-Lacks (show_nat i) (IsDigit-Lacks tilde (inr (omega arith)) _ (show_nat-IsDigit i)),
  parse_usize-show_nat i h,
  parse_segment,
)

pub show_segment-Lacks : (seg : PathSegment) → Lacks slash (show_segment seg)
unfolding show_segment
show_segment-Lacks (object key) = escape-Lacks key
show_segment-Lacks (array i) = IsDigit-Lacks slash (inl (omega arith)) _ (show_nat-IsDigit i)

-- Whatever is read from a text is such a segment.
pub parse_segment-IsCanonical : (s : Text) → IsCanonical (parse_segment s)
unfolding parse_segment
parse_segment-IsCanonical s = elim (Option-cases (parse_usize (unescape s))) [
  | inl e ↦ rw (e, parse_segment) e
  | inr (i, e) ↦ rw (e, parse_segment) (parse_usize-lt (unescape s) e)
]
