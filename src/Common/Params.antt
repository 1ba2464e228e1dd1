-- ===== src/Common/Params.antt =====
-- The parameters of queries: common/params.go.
use durandal.Prelude.{ℕ, Bool, List}
use durandal.Prelude.Int.{ℤ}
use durandal.Prelude.Str.{Str}
use durandal.Common.UnitOfTime.{UnitOfTime}
use durandal.Common.Uuid.{Uuid}
use durandal.Common.Value.{Fields}

pub record TagParams : Type 0 where
  pub tags : List Str
  pub where_clause : Fields

pub record DistinctParams : Type 0 where
  pub tag : Str
  pub where_clause : Fields

-- A nil or empty clause is `end`.
pub record DataParams : Type 0 where
  pub where_clause : Fields
  pub uuids : List Uuid
  pub stream_limit : ℤ
  pub data_limit : ℤ
  pub begin : ℤ
  pub end : ℤ
  pub convert_to_unit : UnitOfTime
  pub is_statistical : Bool
  pub point_width : ℤ
  pub is_window : Bool
  pub width : ℕ
  pub is_changed_ranges : Bool
  pub from_gen : ℕ
  pub to_gen : ℕ
  pub resolution : ℕ

-- The interface QueryParams by the types that implement it.
pub data QueryParams : Type 0 where
  tag_params : TagParams → QueryParams
  distinct_params : DistinctParams → QueryParams
  data_params : DataParams → QueryParams
