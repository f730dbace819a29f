-- ===== src/System.antt =====
-- src/db_worker.cpp, the thread `run`, and the requests that the server handles while it is under way:
-- the context of the handlers, the tables and the two timers together. What the clocks show, what
-- sqlite returns and refuses and which requests come in between is the argument of a round.
pub mod Requests
pub mod Safety
pub mod Turns
pub mod Timers
pub mod Flushes
pub mod Delivery
pub mod Journey
pub mod Shutdown
pub mod Publication
use s_size_store.Prelude.{
  ℕ, ◌*◌, ℤ, pos, ltb_ℤ, ◌+ℤ◌, Bool, true, false, List, [], ◌∷◌, Option, none, some, if◌then◌else◌,
}
use s_size_store.Bytes.{Bytes}
use s_size_store.Models.{TsMs}
use s_size_store.Db.{Tables}
use s_size_store.Db.Items.{Rows, PartnerRow}
use s_size_store.Events.{conversion_queue}
use s_size_store.Http.{HttpRequest}
use s_size_store.Config.{Config}
use s_size_store.Handlers.{Library, Draws, Context, CatalogPtr}
use s_size_store.Handlers.Feed.Coherence.{publish}
use s_size_store.Handlers.Files.{FileSystem}
use s_size_store.Handlers.Dispatch.{dispatch}
use s_size_store.Handlers.Life.{started}
use s_size_store.Worker.{
  World, Refusals, UpkeepRefusals, flush_events, flush_conversions, try_maintenance, snapshot_of,
  scale,
}

-- Times of the steady clock are in nanoseconds.
pub record System : Type 0 where
  pub ctx : Context
  pub tables : Tables
  pub next_refresh : ℤ
  pub next_maintenance : ℤ

abbrev pub second : ℕ
second = 1000000000

abbrev pub hour : ℕ
hour = 3600 * second

-- A request, with what the system gives while it is handled.
pub record Visit : Type 0 where
  pub request : HttpRequest
  pub draws : Draws
  pub client_ip : Bytes

-- What the two statements of a refresh return, the time at which the snapshot is made, and where it
-- is put.
pub record Loaded : Type 0 where
  pub rows : Rows
  pub partners : List PartnerRow
  pub now : TsMs
  pub address : ℕ

abbrev pub snapshot_ptr : Loaded → CatalogPtr
snapshot_ptr l = record { address = l.address; snapshot = snapshot_of l.rows l.partners l.now }

-- One turn of the loop: `loaded` is none if a refresh throws. The requests are those that are handled
-- before the flush of the events, before that of the conversions, before the maintenance, and during
-- the sleep.
pub record Round : Type 0 where
  pub loop_start : ℤ
  pub loaded : Option Loaded
  pub refused : Refusals
  pub upkeep_refused : UpkeepRefusals
  pub wall_clock : TsMs
  pub before_events : List Visit
  pub before_conversions : List Visit
  pub before_maintenance : List Visit
  pub asleep : List Visit

abbrev pub is_due : ℤ → ℤ → Bool
is_due loop_start next = if ltb_ℤ loop_start next then false else true

-- A refresh that throws keeps the snapshot that is there.
abbrev pub publish_loaded : Option Loaded → Context → Context
publish_loaded none ctx = ctx
publish_loaded (some l) ctx = publish (snapshot_ptr l) ctx

-- The next time is a sum of unbounded integers here, of 64-bit nanoseconds in the code.
unfoldable pub refresh : Round → System → System
refresh r s =
    if is_due r.loop_start s.next_refresh
    then record s {
      ctx = publish_loaded r.loaded s.ctx;
      next_refresh = r.loop_start +ℤ scale s.ctx.cfg.refresh_interval second;
    }
    else s

abbrev pub world_of : System → World
world_of s = record { events = s.ctx.events; conversions = s.ctx.conversions; tables = s.tables }

abbrev pub with_world : World → System → System
with_world w s = record s {
  ctx = record (s.ctx) { events = w.events; conversions = w.conversions };
  tables = w.tables;
}

unfoldable pub upkeep : Round → System → System
unfolding try_maintenance
upkeep r s =
    if is_due r.loop_start s.next_maintenance
    then record s {
      tables =
          try_maintenance r.upkeep_refused r.wall_clock s.ctx.cfg.event_retention_days s.tables;
      next_maintenance = r.loop_start +ℤ pos hour;
    }
    else s

unfoldable pub flush_clicks : Refusals → System → System × Bool
unfolding flush_events
flush_clicks refused s =
    let (w, returned) = flush_events refused (world_of s) in (with_world w s, returned)

unfoldable pub flush_postbacks : Refusals → System → System
unfolding flush_conversions
flush_postbacks refused s = with_world (flush_conversions refused (world_of s)) s

-- `start`, which launches the thread unless it runs, and `stop`, which ends one that runs: what
-- `running_` becomes, and whether the thread is launched or joined.
abbrev pub start_flag : Bool → Bool × Bool
start_flag running = (true, if running then false else true)

abbrev pub stop_flag : Bool → Bool × Bool
stop_flag running = (false, running)

module _ (lib : Library) (fs : FileSystem) where
  unfoldable pub serve : List Visit → Context → Context
  serve [] ctx = ctx
  serve (v ∷ vs) ctx = serve vs (dispatch lib fs v.draws v.request v.client_ip ctx).0

  unfoldable pub visits : List Visit → System → System
  unfolding serve
  visits vs s = record s { ctx = serve vs s.ctx }

  -- The two flushes; an exception of the first skips the second.
  unfoldable pub flushes : Round → System → System
  unfolding flush_clicks flush_postbacks visits
  flushes r s =
      let (s', returned) = flush_clicks r.refused s in
      let served = visits r.before_conversions s' in
      if returned then flush_postbacks r.refused served else served

  -- One turn of the loop of `run`.
  unfoldable pub round : Round → System → System
  unfolding refresh flushes upkeep visits
  round r s =
      let filled = visits r.before_events (refresh r s) in
      let flushed = visits r.before_maintenance (flushes r filled) in
      visits r.asleep (upkeep r flushed)

  -- The rounds for which `running_` is true.
  unfoldable pub rounds : List Round → System → System
  unfolding round
  rounds [] s = s
  rounds (r ∷ rs) s = rounds rs (round r s)

  -- `run`, with the flush of the events after the loop.
  unfoldable pub run : List Round → Refusals → System → System
  unfolding rounds flush_clicks
  run rs last s = (flush_clicks last (rounds rs s)).0

-- The system when `run` begins: `main` has made the context, and `start` is the steady clock, whose
-- two readings there are taken as one.
unfoldable pub launched : Config → CatalogPtr → Tables → ℤ → System
launched cfg p t start = record {
  ctx = started cfg p;
  tables = t;
  next_refresh = start;
  next_maintenance = start +ℤ pos hour;
}
