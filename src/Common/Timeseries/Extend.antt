-- ===== src/Common/Timeseries/Extend.antt =====
-- What extending a series by another does to its readings.
use durandal.Prelude.{◌≡◌, ◌⊎◌, [], ◌++◌, arith}
use Prim.Native.Nat.{max}
use durandal.Common.Uuid.{Uuid, UuidLib}
use durandal.Common.Timeseries.{Timeseries, StatisticTimeseries, extend, extend_statistics}

-- A series takes readings if it belongs to no stream yet or to the same stream.
abbrev pub Accepts : Uuid → Uuid → Type 0
Accepts mine theirs = (mine ≡ []) ⊎ (mine ≡ theirs)

module _ (lib : UuidLib) {F : Type 0} where
  -- A series of no stream or of the same stream gets the readings behind its own, the later
  -- generation and the stream's identifier; its source stays.
  extend_accepted :
      (ts newts : Timeseries F)
      → Accepts ts.uuid newts.uuid
      → extend lib ts newts ≡ record ts {
        records = ts.records ++ newts.records;
        generation = max ts.generation newts.generation;
        uuid = newts.uuid;
      }
  unfolding extend
  extend_accepted ts newts h =
      ground (arith, lib.equal_iff ts.uuid newts.uuid, lib.equal_iff newts.uuid newts.uuid)

  -- A series of another stream is left as it is.
  pub extend_foreign :
      (ts newts : Timeseries F) → ¬ Accepts ts.uuid newts.uuid → extend lib ts newts ≡ ts
  unfolding extend
  extend_foreign ts newts h = ground (arith, lib.equal_iff ts.uuid newts.uuid)

  pub extend_statistics_accepted :
      (ts newts : StatisticTimeseries F)
      → Accepts ts.uuid newts.uuid
      → extend_statistics lib ts newts ≡ record ts {
        records = ts.records ++ newts.records;
        generation = max ts.generation newts.generation;
        uuid = newts.uuid;
      }
  unfolding extend_statistics
  extend_statistics_accepted ts newts h =
      ground (arith, lib.equal_iff ts.uuid newts.uuid, lib.equal_iff newts.uuid newts.uuid)
