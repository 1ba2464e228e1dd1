-- ===== src/Archiver/Prepare.antt =====
-- prepareDataParams of archiver/api.go.
pub mod Laws
use durandal.Prelude.{
  ℕ, zero, suc, ◌+◌, ◌-◌, ◌*◌, ◌/◌, ◌%◌, ◌^◌, ◌≤◌, ◌<◌, ◌≡◌, refl, sym, ap, ◌∙◌, ◌≢◌, ◌↔◌, ◌⊎◌, inl,
  inr, Bool, true, false, not, ◌&&◌, ◌||◌, Option, none, some, List, [], ◌∷◌, ◌++◌, map,
  append_assoc, append-nil, arith, ltb, leb, ◌==◌, if◌then◌else◌, Bool-cases, Option-cases, ==→eq,
  ==-refl, length, get_elem?, take, drop, length-append, length-take, All, Any, All-append,
  Any-append_left, Any-append_right,
}
use durandal.Prelude.Int.{
  ℤ, pos, negsuc, pos_part, neg_part, sub_ℕ, ◌+ℤ◌, ◌-ℤ◌, ◌*ℤ◌, quot, floor_div, ◌≤ℤ◌, ◌<ℤ◌, ltb_ℤ,
  eqb_ℤ, bits64, wrap64, IsInt64, wrap64-eq_self,
}
use durandal.Prelude.Str.{
  Str, codes, str_eq, str_eq_refl, str_eq_iff, ne-str_eq, is_empty, has_prefix, index, last_index,
  has_suffix, trim_suffix, split, join, Lacks, split-join,
}
use durandal.Prelude.Dict
use durandal.Prelude.Dict.{Dict, dict_laws}
use durandal.Prelude.Outcome.{
  Outcome, ok, err, panic, ◌>>=◌, >>=-eq-ok, ok-injective, ok_some-injective,
}
use durandal.Common.UnitOfTime.{uot_ns, guess_time_unit, convert_time}
use durandal.Common.Uuid.{Uuid}
use durandal.Common.Value.{Fields}
use durandal.Common.Params.{DataParams}
use durandal.Archiver.Stores.{MetadataStore}

-- The where clause, if there is one, decides the streams.
unfoldable pub evaluate_where : MetadataStore → Fields → List Uuid → Outcome (List Uuid)
evaluate_where md Fields.end uuids = ok uuids
evaluate_where md (Fields.field k v d) uuids = md.get_uuids [] (Fields.field k v d)

unfoldable pub limit_streams : ℤ → List Uuid → List Uuid
limit_streams limit uuids =
    if ltb_ℤ (pos 0) limit && ltb_ℤ limit (pos (length uuids))
    then take (pos_part limit) uuids
    else uuids

-- The result of ConvertTime as the caller reads it.
unfoldable pub checked : ℤ × Bool → Outcome ℤ
checked (time, failed) = if failed then err (codes "over/underflow in converting time") else ok time

-- A bound of the query in nanoseconds.
unfoldable pub to_nanoseconds : ℤ → Outcome ℤ
unfolding checked
to_nanoseconds time =
    let unit = guess_time_unit time in
    if unit == uot_ns
    then ok time
    else do converted ← convert_time time unit uot_ns; checked converted

unfoldable pub order_bounds : DataParams → DataParams
order_bounds params =
    if ltb_ℤ params.end params.begin
    then record params { begin = params.end; end = params.begin }
    else params

unfoldable pub prepare_data_params : MetadataStore → DataParams → Outcome DataParams
unfolding evaluate_where limit_streams to_nanoseconds order_bounds
prepare_data_params md params = do
  uuids ← evaluate_where md params.where_clause params.uuids
  begin ← to_nanoseconds params.begin
  end ← to_nanoseconds params.end
  ok (
      order_bounds (record params {
        uuids = limit_streams params.stream_limit uuids;
        begin = begin;
        end = end;
      }))
