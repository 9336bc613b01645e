-- ===== src/Engine/Sidecar.antt =====
-- src/engine/aggregate.rs and src/reload.rs: the sidecar database that keeps the roll-up tables, and
-- the roll-ups that are enabled. The content of a table is of any type `T`, a sum of any type `F`;
-- what the database answers on the data of the source is an argument. The stamp is the size and the
-- time of the source's file.
pub mod Again
pub mod Last
use mallard_cube.Prelude.{
  ℕ, Bool, true, false, not, ◌&&◌, Option, none, some, List, [], ◌∷◌, ◌==◌, if◌then◌else◌, any,
  every, keep, Text, codes, text_eq,
}
use mallard_cube.Engine.Model.{SemanticModel}
use mallard_cube.Engine.Aggregate.{Aggregation, design_aggregations}

-- A row of the table `agg_meta`.
pub record Stamped : Type 0 where
  pub size : ℕ
  pub mtime : ℕ
  pub version : Text

pub record Sidecar (T : Type 0) : Type 0 where
  pub agg_meta : Option Stamped
  pub tables : List (Text × T)

-- How far `write_stamp` comes: nothing is changed, the old stamp is deleted only, or it is replaced.
pub data Writing : Type 0 where
  unchanged : Writing
  deleted : Writing
  replaced : Writing

-- `rollup` is what `CREATE TABLE AS` makes, or nothing if it fails, and `differs` is a difference
-- of two sums beyond the tolerance. `opens` is whether the sidecar can be opened, and `drops` whether a
-- table can be dropped.
pub record Source (T F : Type 0) : Type 0 where
  pub stamp : ℕ × ℕ
  pub opens : Bool
  pub attaches : Bool
  pub drops : Text → Bool
  pub detaches : Bool
  pub writes : Writing
  pub rollup : Aggregation → Option T
  pub fact_total : Text → Option F
  pub table_total : T → Text → Option F
  pub differs : F → F → Bool

abbrev pub schema_version : Text
schema_version = codes "1"

-- The roll-ups that are enabled, when those are offered; a sidecar may be configured or not.
unfoldable pub enable : Bool → List Aggregation → List Aggregation → List Aggregation
enable configured aggs enabled = if configured then aggs else enabled

unfoldable pub is_stamp : ℕ × ℕ → Option Stamped → Bool
is_stamp stamp none = false
is_stamp stamp (some m) =
    m.size == stamp.0 && m.mtime == stamp.1 && text_eq m.version schema_version

unfoldable pub stamped : ℕ × ℕ → Stamped
stamped stamp = record { size = stamp.0; mtime = stamp.1; version = schema_version }

-- Was the stamp written, and what is the stamp then?
unfoldable pub write_stamp : Writing → ℕ × ℕ → Option Stamped → Bool × Option Stamped
unfolding stamped
write_stamp unchanged stamp old = (false, old)
write_stamp deleted stamp old = (false, none)
write_stamp replaced stamp old = (true, some (stamped stamp))

-- Whether a run went well, the sidecar and the enabled roll-ups.
abbrev pub Run : Type 0 → Type 0
Run T = Bool × (Sidecar T × List Aggregation)

module _ {T : Type 0} where
  unfoldable pub sidecar_current : Sidecar T → ℕ × ℕ → Bool
  unfolding is_stamp
  sidecar_current s stamp = is_stamp stamp s.agg_meta

  unfoldable pub table_exists : List (Text × T) → Text → Bool
  table_exists tables name = any (λ t. text_eq t.0 name) tables

  unfoldable pub table_named : Text → List (Text × T) → Option T
  table_named name [] = none
  table_named name (t ∷ tables) =
      let rest = table_named name tables in if text_eq t.0 name then some t.1 else rest

  unfoldable pub drop_table : Text → List (Text × T) → List (Text × T)
  drop_table name tables = keep (λ t. not (text_eq t.0 name)) tables

  unfoldable pub create_table : Text → Option T → List (Text × T) → Bool × List (Text × T)
  create_table name none tables = (false, tables)
  create_table name (some t) tables = (true, (name, t) ∷ tables)

  -- On a reload: was the routing disabled, and what is enabled? A sidecar that is not configured, or
  -- cannot be opened, is `none`.
  unfoldable pub disable_stale_aggregations :
      Bool → ℕ × ℕ → Option (Sidecar T) → List Aggregation → Bool × List Aggregation
  unfolding sidecar_current
  disable_stale_aggregations false stamp sidecar enabled = (false, enabled)
  disable_stale_aggregations true stamp none enabled = (true, [])
  disable_stale_aggregations true stamp (some s) enabled =
      if sidecar_current s stamp then (false, enabled) else (true, [])

module _ {T F : Type 0} where
  unfoldable pub build_table : Source T F → Aggregation → List (Text × T) → Bool × List (Text × T)
  unfolding drop_table create_table
  build_table source agg tables =
      if source.drops agg.table
      then create_table agg.table (source.rollup agg) (drop_table agg.table tables)
      else (false, tables)

  -- Did it go through, and with which tables?
  unfoldable pub build_tables :
      Source T F → List Aggregation → List (Text × T) → Bool × List (Text × T)
  unfolding build_table
  build_tables source [] tables = (true, tables)
  build_tables source (agg ∷ aggs) tables =
      let made = build_table source agg tables in
      let rest = build_tables source aggs made.1 in if made.0 then rest else made

  unfoldable pub totals_agree : Source T F → Option F → Option F → Bool
  totals_agree source (some fact) (some rollup) = not (source.differs fact rollup)
  totals_agree source _ _ = false

  unfoldable pub column_agrees : Source T F → Option T → Text → Bool
  unfolding totals_agree
  column_agrees source none base = false
  column_agrees source (some t) base =
      totals_agree source (source.fact_total base) (source.table_total t base)

  unfoldable pub validate_rollups : Source T F → List Aggregation → List (Text × T) → Bool
  unfolding column_agrees table_named
  validate_rollups source aggs tables =
      every
        (λ agg.
          every (λ c. column_agrees source (table_named agg.table tables) c.1) agg.measure_columns)
        aggs

  unfoldable pub is_current : Source T F → List Aggregation → Sidecar T → Bool
  unfolding sidecar_current table_exists
  is_current source aggs s =
      sidecar_current s source.stamp && every (λ a. table_exists s.tables a.table) aggs

  -- Did all steps between the attachment and the stamp go well?
  unfoldable pub went : Source T F → List Aggregation → Bool × List (Text × T) → Bool
  unfolding validate_rollups
  went source aggs built = built.0 && validate_rollups source aggs built.1 && source.detaches

  -- The tables stay as they are then, whether the steps went well or not.
  unfoldable pub finish :
      Bool
      → Source T F
      → List Aggregation
      → Sidecar T
      → List Aggregation
      → Bool
      → List (Text × T)
      → Run T
  unfolding write_stamp enable
  finish configured source aggs s enabled true tables =
      let (ok, stamp) = write_stamp source.writes source.stamp s.agg_meta in
      (
        ok,
        (
          record { agg_meta = stamp; tables = tables },
          if ok then enable configured aggs enabled else enabled,
        ),
      )
  finish configured source aggs s enabled false tables =
      (false, (record s { tables = tables }, enabled))

  unfoldable pub rebuild :
      Bool → Source T F → List Aggregation → Sidecar T → List Aggregation → Run T
  unfolding build_tables went finish
  rebuild configured source aggs s enabled =
      let built = build_tables source aggs s.tables in
      finish configured source aggs s enabled (went source aggs built) built.1

  unfoldable pub ensure_aggregations :
      Bool → (Text → Text) → SemanticModel → Source T F → Sidecar T → List Aggregation → Run T
  unfolding design_aggregations is_current rebuild enable
  ensure_aggregations configured lower model source s enabled =
      let aggs = design_aggregations lower model in
      if not source.opens
      then (false, (s, enabled))
      else if is_current source aggs s
      then (true, (s, enable configured aggs enabled))
      else if source.attaches
      then rebuild configured source aggs s enabled
      else (false, (s, enabled))
