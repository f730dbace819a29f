-- ===== src/Worker.antt =====
-- src/db_worker.cpp: how the database thread empties the two buffers. A round of `run` is a function
-- of the buffers and the tables; which statements sqlite refuses for reasons of its own is an
-- argument.
pub mod Flushing
pub mod Settling
pub mod Maintenance
pub mod Snapshots
use s_size_store.Prelude.{
  ℕ, suc, ◌-◌, ◌*◌, ℤ, pos, negsuc, neg, ◌-ℤ◌, div_trunc, Bool, true, false, List, [], ◌∷◌, Option,
  none, some, if◌then◌else◌,
}
use s_size_store.Catalog.{Catalog, build}
use s_size_store.Db.Items.{Rows, PartnerRow, load_published_items, list_partners}
use s_size_store.Models.{Event, TsMs}
use s_size_store.Events.{EventQueue, drain_events, Conversion, ConversionQueue, drain_conversions}
use s_size_store.Db.{
  Tables, insert_events, record_conversion, rollup_daily, prune_events, ms_per_day,
}

pub record World : Type 0 where
  pub events : EventQueue
  pub conversions : ConversionQueue
  pub tables : Tables

-- What sqlite refuses in one round: of the batch of events, and of the conversions.
pub record Refusals : Type 0 where
  pub event : ℕ → Bool
  pub conversion : ℕ → Bool

-- `flush_events`, and whether it returned.
unfoldable pub flush_events : Refusals → World → World × Bool
flush_events r w =
    let (q, batch) = drain_events w.events in
    let (t, returned) = insert_events r.event batch w.tables in
    (record w { events = q; tables = t }, returned)

abbrev goes_on : Option Bool → Bool
goes_on none = false
goes_on (some matched) = true

-- The loop of `flush_conversions`: an exception ends it.
unfoldable pub record_from : (ℕ → Bool) → ℕ → List Conversion → Tables → Tables
record_from refused i [] t = t
record_from refused i (c ∷ cs) t =
    let (t', done) = record_conversion (refused i) c t in
    let rest = record_from refused (suc i) cs t' in if goes_on done then rest else t'

unfoldable pub flush_conversions : Refusals → World → World
unfolding record_from
flush_conversions r w =
    let (q, batch) = drain_conversions w.conversions in
    record w { conversions = q; tables = record_from r.conversion 0 batch w.tables }

-- The flushes of one round: an exception of the first skips the second.
unfoldable pub flush : Refusals → World → World
unfolding flush_events flush_conversions
flush r w =
    let (w', returned) = flush_events r w in
    let both = flush_conversions r w' in if returned then both else w'

abbrev pub scale : ℤ → ℕ → ℤ
scale (pos n) k = pos (n * k)
scale (negsuc n) k = neg (suc n * k)

-- `maintenance` at the time `now`, with the retention in days.
unfoldable pub maintenance : TsMs → ℤ → Tables → Tables
maintenance now retention t =
    let today = div_trunc now ms_per_day in
    let rolled = rollup_daily (today -ℤ pos 1) today t in
    prune_events (now -ℤ scale retention ms_per_day) rolled

-- What sqlite refuses of the two statements of `maintenance`.
pub record UpkeepRefusals : Type 0 where
  pub rollup : Bool
  pub prune : Bool

-- `maintenance` in the loop of `run`, which catches the exception of a refused statement.
unfoldable pub try_maintenance : UpkeepRefusals → TsMs → ℤ → Tables → Tables
unfolding maintenance
try_maintenance refused now retention t =
    let today = div_trunc now ms_per_day in
    if refused.rollup
    then t
    else if refused.prune
    then rollup_daily (today -ℤ pos 1) today t
    else maintenance now retention t

-- The snapshot that `refresh_now` and a due round of `run` publish.
unfoldable pub snapshot_of : Rows → List PartnerRow → TsMs → Catalog
snapshot_of rows partners now = build (load_published_items rows) (list_partners partners) now
