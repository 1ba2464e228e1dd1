-- ===== src/Querylang/ParsedQuery.antt =====
-- The parsed query of querylang/processor.go and querylang/types.go, and GetParams.
use durandal.Prelude.{ℕ, Bool, true, false, Option, none, some, List, [], ◌∷◌}
use durandal.Prelude.Int.{ℤ, pos}
use durandal.Prelude.Str.{Str}
use durandal.Prelude.Outcome.{Outcome, ok, panic, ◌>>=◌}
use durandal.Common.UnitOfTime.{UnitOfTime, Time, unix_nano}
use durandal.Common.Value.{Fields}
use durandal.Common.Params.{DataParams, QueryParams, tag_params, distinct_params, data_params}

-- DataQueryType
pub data DataQueryType : Type 0 where
  in_type before_type after_type changed_type : DataQueryType

pub record Limit : Type 0 where
  pub limit : ℤ
  pub streamlimit : ℤ

pub record DataQuery : Type 0 where
  pub dtype : DataQueryType
  pub start : Time
  pub end : Time
  pub limit : Limit
  pub timeconv : UnitOfTime
  pub is_statistical : Bool
  pub is_window : Bool
  pub is_changed_ranges : Bool
  pub from_gen : ℕ
  pub to_gen : ℕ
  pub resolution : ℕ
  pub width : ℕ
  pub point_width : ℤ

-- QueryType; `no_type` is the zero value.
pub data QueryType : Type 0 where
  no_type select_type delete_type data_type apply_type : QueryType

pub record ParsedQuery : Type 0 where
  pub query_type : QueryType
  pub keys : List Str
  pub target : List Str
  pub where_clause : Fields
  pub distinct : Bool
  pub data_query : Option DataQuery
  pub err_text : Option Str
  pub err_pos : Str
  pub querystring : Str

-- The fields that a DataParams literal leaves out.
abbrev pub zero_params : DataParams
zero_params = record {
  where_clause = Fields.end;
  uuids = [];
  stream_limit = pos 0;
  data_limit = pos 0;
  begin = pos 0;
  end = pos 0;
  convert_to_unit = 0;
  is_statistical = false;
  point_width = pos 0;
  is_window = false;
  width = 0;
  is_changed_ranges = false;
  from_gen = 0;
  to_gen = 0;
  resolution = 0;
}

params_of : Fields → DataQuery → DataParams
params_of where_clause q = record {
  where_clause = where_clause;
  uuids = [];
  stream_limit = q.limit.streamlimit;
  data_limit = q.limit.limit;
  begin = unix_nano q.start;
  end = unix_nano q.end;
  convert_to_unit = q.timeconv;
  is_statistical = q.is_statistical;
  point_width = q.point_width;
  is_window = q.is_window;
  width = q.width;
  is_changed_ranges = q.is_changed_ranges;
  from_gen = q.from_gen;
  to_gen = q.to_gen;
  resolution = q.resolution;
}

delete_params : Fields → List Str → Option DataQuery → QueryParams
delete_params where_clause target none =
    tag_params (record { tags = target; where_clause = where_clause })
delete_params where_clause target (some q) = data_params (record zero_params {
  where_clause = where_clause;
  begin = unix_nano q.start;
  end = unix_nano q.end;
})

select_params : Bool → List Str → Fields → Outcome QueryParams
select_params true [] where_clause = panic
select_params true (tag ∷ tags) where_clause =
    ok (distinct_params (record { tag = tag; where_clause = where_clause }))
select_params false target where_clause =
    ok (tag_params (record { tags = target; where_clause = where_clause }))

-- GetParams: a nil result is `none`; reading the first target or the data of a query that has none
-- panics.
unfoldable pub get_params : ParsedQuery → Outcome (Option QueryParams)
unfolding params_of delete_params select_params
get_params parsed = elim parsed.query_type [
  | select_type ↦ do
    params ← select_params parsed.distinct parsed.target parsed.where_clause
    ok (some params)
  | delete_type ↦ ok (some (delete_params parsed.where_clause parsed.target parsed.data_query))
  | data_type ↦ elim parsed.data_query [
    | none ↦ panic
    | some q ↦ ok (some (data_params (params_of parsed.where_clause q)))
  ]
  | no_type ↦ ok none
  | apply_type ↦ ok none
]
