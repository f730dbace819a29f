-- ===== src/Tests/Sqlite.antt =====
-- The theorems on the statements, over the small sqlite.
use s_size_store.Prelude.{
  ℕ, Bool, pos, true, false, [], ◌∷◌, none, some, ◌≡◌, refl, arith, if◌then◌else◌, ◌&&◌,
}
use s_size_store.Bytes.{codes}
use s_size_store.Models.{Event, blank_event, impression}
use s_size_store.Events.{Conversion}
use s_size_store.Db.{insert_events, record_conversion, has_token, known_status}
use s_size_store.Db.Items.{list_partners, PartnerRow}
use s_size_store.Worker.{UpkeepRefusals, try_maintenance}
use s_size_store.Sqlite.{null, is_some, set_version, with_stmt, bind_all, bind, step}
use s_size_store.Sqlite.Sessions.{exec-connections, with_conn-connections, is_none}
use s_size_store.Tests.Engine.Decoding.{decode_conversion}
use s_size_store.Sqlite.Connection.{exec, with_conn, connect}
use s_size_store.Sqlite.Tidy.{exec-IsTidy}
use s_size_store.Sqlite.Queries.{
  run_insert_events, run_record_conversion, run_list_partners, run_find_click, run_upsert,
}
use s_size_store.Sqlite.Batch.{run_insert_events-AreWritten}
use s_size_store.Sqlite.Postbacks.{run_record_conversion-IsRecorded}
use s_size_store.Sqlite.Reading.{run_list_partners-returns}
use s_size_store.Sqlite.Upkeep.{run_maintenance, run_maintenance-keeps_up}
use s_size_store.Tests.Engine.{Engine, engine, meaning, nothing}
use s_size_store.Tests.Engine.Lawful.{engine-IsSqlite, engine-LetsRead}

abbrev view : Event
view = record (blank_event impression) {
  item_id = some (pos 7);
  ts = pos 86400001;
  click_token = codes "0Z7";
}

abbrev order : Conversion
order = record {
  click_token = codes "0Z7";
  ts = pos 9;
  order_ref = codes "A1";
  amount = some (pos 1000);
  status = codes "pending";
  raw = [];
}

abbrev shop : PartnerRow
shop = record {
  id = pos 1;
  code = codes "shop";
  title = codes "Shop";
  link_template = codes "{url}";
  enabled = pos 1;
}

abbrev idle : Engine
idle = record {
  tables = record { events = view ∷ []; conversions = []; daily = [] };
  saved = none;
  partner_rows = shop ∷ [];
  alive = [];
  next = 1;
  texts = λ st. none;
  unstepped = λ st. false;
  params = λ st i. null;
  rest = λ st. [];
  current = nothing;
  opened = 1;
  schema = pos 1;
}

run_insert_events-AreWritten_example :
    (refused : ℕ → _) × ((
      meaning.view (run_insert_events engine (view ∷ []) idle).0,
      is_some (run_insert_events engine (view ∷ []) idle).1,
    )
      ≡ insert_events refused (view ∷ []) (meaning.view idle))
    × (meaning.in_transaction (run_insert_events engine (view ∷ []) idle).0 ≡ false)
    × (meaning.live (run_insert_events engine (view ∷ []) idle).0 ≡ meaning.live idle)
run_insert_events-AreWritten_example =
    run_insert_events-AreWritten engine-IsSqlite (view ∷ []) idle refl

run_record_conversion-IsRecorded_example :
    (refused : Bool) × ((
      meaning.view (run_record_conversion engine order idle).0,
      (run_record_conversion engine order idle).1,
    )
      ≡ record_conversion refused order (meaning.view idle))
    × (meaning.in_transaction (run_record_conversion engine order idle).0 ≡ false)
    × (meaning.live (run_record_conversion engine order idle).0 ≡ meaning.live idle)
run_record_conversion-IsRecorded_example =
    run_record_conversion-IsRecorded engine-IsSqlite order idle refl

run_list_partners-returns_example :
    ((run_list_partners engine 2 idle).1 ≡ some (some (list_partners (shop ∷ []))))
    × (meaning.view (run_list_partners engine 2 idle).0 ≡ meaning.view idle)
    × (meaning.live (run_list_partners engine 2 idle).0 ≡ meaning.live idle)
run_list_partners-returns_example =
    run_list_partners-returns engine-IsSqlite 2 idle engine-LetsRead (omega arith)

run_maintenance-keeps_up_example :
    (refusals : UpkeepRefusals) × (meaning.view
        (run_maintenance engine (pos 86400009) (pos 90) idle).0
      ≡ try_maintenance refusals (pos 86400009) (pos 90) (meaning.view idle))
    × (meaning.in_transaction (run_maintenance engine (pos 86400009) (pos 90) idle).0 ≡ false)
    × (meaning.live (run_maintenance engine (pos 86400009) (pos 90) idle).0 ≡ meaning.live idle)
run_maintenance-keeps_up_example =
    run_maintenance-keeps_up engine-IsSqlite (pos 86400009) (pos 90) idle refl

with_conn-connections_example :
    meaning.connections
      (with_conn engine (codes "shop.db") (exec engine (set_version (pos 2))) idle).0
    ≡ (if (engine.sqlite3_open (codes "shop.db") idle).1
          && is_none (connect engine (codes "shop.db") idle).1
        then 2
        else 1)
with_conn-connections_example =
    with_conn-connections engine-IsSqlite (codes "shop.db") (exec engine (set_version (pos 2))) idle
      (exec-IsTidy engine-IsSqlite (set_version (pos 2)))
      (exec-connections engine-IsSqlite (set_version (pos 2))) refl

-- What the engine does on these: the conversion is recorded, and the partner is read.
order_recorded : (run_record_conversion engine order idle).1 ≡ some true
unfolding run_record_conversion run_find_click run_upsert with_stmt bind_all bind step has_token
    known_status decode_conversion
order_recorded = refl
