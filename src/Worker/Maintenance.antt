-- ===== src/Worker/Maintenance.antt =====
-- The hourly maintenance.
use s_size_store.Prelude.{List, pos, ◌-ℤ◌, div_trunc}
use s_size_store.Models.{Event, TsMs}
use s_size_store.Db.{Tables, pair_eq, selected, ms_per_day}

-- The events since the day before, as they are when maintenance begins.
abbrev pub recent : TsMs → Tables → List Event
recent now t = selected (div_trunc now ms_per_day -ℤ pos 1) (div_trunc now ms_per_day) t.events
