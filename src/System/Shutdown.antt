-- ===== src/System/Shutdown.antt =====
-- What the thread leaves when it is stopped.
use s_size_store.Prelude.{ℕ, Bool, ◌≡◌, refl, inl, inr, List, [], ◌++◌, if◌then◌else◌}
use s_size_store.Models.{Event}
use s_size_store.Events.{drain_events}
use s_size_store.Db.{Tables, insert_events}
use s_size_store.Db.Batches.{insert_events_cases}
use s_size_store.Worker.{Refusals, World, flush_events}
use s_size_store.Worker.Flushing.{flush_events_cases, flush_events-rows}
use s_size_store.Worker.Settling.{flush_events-conversions}
use s_size_store.Handlers.{Library}
use s_size_store.Handlers.Files.{FileSystem}
use s_size_store.System.{System, Round, flush_clicks, rounds, run, world_of}

-- The events in the tables after a last batch: behind the rows if it returns, not at all if it throws.
abbrev pub left_behind : (ℕ → Bool) → List Event → Tables → List Event
left_behind refused pending t =
    if (insert_events refused pending t).1 then t.events ++ pending else t.events

flush_events-left_behind :
    (r : Refusals) (w : World)
    → (flush_events r w).0.tables.events ≡ left_behind r.event w.events.pending w.tables
unfolding flush_events drain_events
flush_events-left_behind r w = elim (insert_events_cases r.event w.events.pending w.tables) [
  | inl e ↦ rw e refl
  | inr e ↦ rw e refl
]

-- What is pending behind the last round: the events are all written, behind the rows and in their
-- order, if the batch of them returns, and all lost if it throws, and the buffer is empty either way;
-- the conversions are not written and stay in a buffer that nothing empties any more.
pub run_leaves :
    (lib : Library) (fs : FileSystem) (rs : List Round) (last : Refusals) (s : System)
    → ((run lib fs rs last s).ctx.events.pending ≡ [])
      × ((run lib fs rs last s).tables.events
          ≡ left_behind last.event
              (rounds lib fs rs s).ctx.events.pending
              (rounds lib fs rs s).tables)
      × ((run lib fs rs last s).ctx.conversions ≡ (rounds lib fs rs s).ctx.conversions)
      × ((run lib fs rs last s).tables.conversions ≡ (rounds lib fs rs s).tables.conversions)
unfolding run flush_clicks
run_leaves lib fs rs last s =
    let w = world_of (rounds lib fs rs s) in
    (
      (flush_events_cases last w).0,
      flush_events-left_behind last w,
      flush_events-conversions last w,
      flush_events-rows last w,
    )
