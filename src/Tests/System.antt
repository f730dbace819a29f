-- ===== src/Tests/System.antt =====
-- The theorems on the whole system, at concrete rounds.
use s_size_store.Prelude.{
  ◌<ℤ◌, ◌^◌, ◌&&◌, if◌then◌else◌, ◌==◌, list_eq, nat_eq, ◌≡◌, ◌+◌, ◌*◌, refl, pos, false, [], ◌∷◌,
  some, arith,
}
use s_size_store.Bytes.{codes}
use s_size_store.Db.Admin.{has_item}
use s_size_store.System.Publication.{IsAnswered, status_takes_effect}
use s_size_store.Tests.Db.{two_items, sock_rows, archived-IsSelected}
use s_size_store.Models.{archived, status_to_string}
use s_size_store.Db.{Tables}
use s_size_store.Db.Items.{Rows}
use s_size_store.Worker.Flushing.{IsIndexed}
use s_size_store.Worker.Settling.{none_refused}
use s_size_store.Handlers.Life.{IsSound}
use s_size_store.System.{System, Round, Visit, Loaded, run, round, rounds, launched, second}
use s_size_store.System.Safety.{run-IsSound, AreFresh}
use s_size_store.System.Timers.{IsClocked, last_start, IsPunctual, launched-IsPunctual}
use s_size_store.System.Shutdown.{left_behind, run_leaves}
use s_size_store.Tests.Sample.{
  sample_library, sample_draws, sample_request, sample_files, sample_ptr, sample_config,
  sample_identity,
}

abbrev pub no_rows : Tables
no_rows = record { events = []; conversions = []; daily = [] }

no_rows-IsIndexed : IsIndexed no_rows
no_rows-IsIndexed = record { tokens = tt; orders = tt }

abbrev pub no_items : Rows
no_items = record { items = []; images = []; tags = []; sizes = []; colors = [] }

abbrev pub loaded : Loaded
loaded = record { rows = no_items; partners = []; now = pos 9; address = 2 }

abbrev pub click_visit : Visit
click_visit = record {
  request = record sample_request { target = codes "/s/r/7?p=3" };
  draws = sample_draws;
  client_ip = codes "10.0.0.1";
}

-- Nothing is requested before the first flush, and a click comes in between the two.
abbrev pub first_round : Round
first_round = record {
  loop_start = pos 5;
  loaded = some loaded;
  refused = none_refused;
  upkeep_refused = record { rollup = false; prune = false };
  wall_clock = pos 100;
  before_events = [];
  before_conversions = click_visit ∷ [];
  before_maintenance = click_visit ∷ [];
  asleep = click_visit ∷ [];
}

abbrev start : System
start = launched sample_config sample_ptr no_rows (pos 5)

first-AreFresh : AreFresh sample_library sample_files (first_round ∷ []) start
unfolding launched
first-AreFresh = (tt, tt)

run-IsSound_example :
    IsSound sample_library sample_config
      (run sample_library sample_files (first_round ∷ []) none_refused start).ctx
    × IsIndexed (run sample_library sample_files (first_round ∷ []) none_refused start).tables
run-IsSound_example =
    run-IsSound sample_library sample_files sample_config sample_ptr no_rows (pos 5)
      (first_round ∷ []) none_refused first-AreFresh no_rows-IsIndexed

abbrev later_round : Round
later_round = record first_round { loop_start = pos (5 + 12 * second) }

first-IsClocked : IsClocked (pos 5) (first_round ∷ [])
first-IsClocked = (omega arith, tt)

launched-IsPunctual_example :
    IsPunctual sample_config
      (last_start (pos 5) [])
      (rounds sample_library sample_files (first_round ∷ []) start)
    × ((rounds sample_library sample_files (first_round ∷ []) start).next_refresh <ℤ pos (2 ^ 63))
    × ((rounds sample_library sample_files (first_round ∷ []) start).next_maintenance
        <ℤ pos (2 ^ 63))
launched-IsPunctual_example =
    launched-IsPunctual sample_library sample_files sample_config (omega arith) sample_ptr no_rows
      (pos 5) first_round [] first-IsClocked (omega arith) (omega arith)

-- The rows of the shop once the cap is archived.
abbrev archived_load : Loaded
archived_load = record { rows = sock_rows; partners = []; now = pos 20; address = 3 }

abbrev archived_round : Round
archived_round = record later_round { loaded = some archived_load }

status_takes_effect_example :
    IsAnswered sample_library sample_draws sample_identity sample_request
      (codes "10.0.0.1")
      (pos 7)
      []
      (round sample_library sample_files archived_round
        (rounds sample_library sample_files (first_round ∷ []) start)).ctx
      (if (status_to_string archived == codes "published") && has_item (pos 7) two_items
        then 302
        else 404)
status_takes_effect_example =
    status_takes_effect sample_library sample_files sample_config sample_ptr no_rows (pos 5)
      first_round [] archived_round archived_load two_items (pos 7) archived (pos 9) sample_draws
      sample_identity sample_request (codes "10.0.0.1") [] (omega arith) first-IsClocked
      (omega arith) refl archived-IsSelected

run_leaves_example :
    ((run sample_library sample_files (first_round ∷ []) none_refused start).ctx.events.pending
      ≡ [])
    × ((run sample_library sample_files (first_round ∷ []) none_refused start).tables.events
        ≡ left_behind none_refused.event
            (rounds sample_library sample_files (first_round ∷ []) start).ctx.events.pending
            (rounds sample_library sample_files (first_round ∷ []) start).tables)
    × ((run sample_library sample_files (first_round ∷ []) none_refused start).ctx.conversions
        ≡ (rounds sample_library sample_files (first_round ∷ []) start).ctx.conversions)
    × ((run sample_library sample_files (first_round ∷ []) none_refused start).tables.conversions
        ≡ (rounds sample_library sample_files (first_round ∷ []) start).tables.conversions)
run_leaves_example = run_leaves sample_library sample_files (first_round ∷ []) none_refused start
