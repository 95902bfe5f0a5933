-- ===== src/Ot/Types.antt =====
-- replicant-core/src/ot/types.rs.
use replicant.Prelude.{ℕ, List, Text}

pub data PathRelation : Type 0 where
  same parent child sibling unrelated : PathRelation

pub data PathSegment : Type 0 where
  object : Text → PathSegment
  array : ℕ → PathSegment

pub record ParsedPath : Type 0 where
  pub raw : Text
  pub segments : List PathSegment
