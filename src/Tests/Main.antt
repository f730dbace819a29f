-- ===== src/Tests/Main.antt =====
-- The theorems on the start of the server, at a concrete machine.
use s_size_store.Prelude.{false, List, ◌∷◌, ◌≡◌, ◌⊎◌, ◌↔◌, refl, ap, pos, true, [], Option, some}
use s_size_store.Bytes.{Bytes, codes}
use s_size_store.Config.{Config}
use s_size_store.Config.Loading.{written, load_config-written}
use s_size_store.Migrations.{
  Statements, apply_migrations, discover, collect, sort_migrations, apply_from,
}
use s_size_store.Worker.Flushing.{IsIndexed}
use s_size_store.Worker.Settling.{none_refused}
use s_size_store.Db.{Tables}
use s_size_store.System.{System, Loaded, run, launched, snapshot_ptr}
use s_size_store.Handlers.Life.{IsSound}
use s_size_store.Main.{Surroundings, config_at, help, main, made, library_of}
use s_size_store.Json.{Json}
use s_size_store.Templating
use s_size_store.System.Safety.{AreFresh}
use s_size_store.Handlers.{Library, CatalogPtr}
use s_size_store.Tests.System.{first_round}
use s_size_store.Main.Starting.{IsStarted, main_iff, main-IsSound, main_started}
use s_size_store.Tests.Sample.{sample_library, sample_files, sample_config}
use s_size_store.Tests.Config.{sample-IsWritable}

-- A template is its name, and shows its name.
abbrev parse_template : Bytes → Option Bytes
parse_template name = some name

abbrev draw : Bytes → Json → Option Bytes
draw t value = some t

abbrev feed_entry : Templating.PageEntry
feed_entry = record { is_regular = true; name = codes "feed.html" }

-- No script is there to be run.
abbrev run_sql : Statements Bytes
run_sql = record {
  run = λ sql s. (s, false);
  begins = λ v. true;
  sets = λ v. true;
  commits = λ v. true;
}

abbrev no_rows : Tables
no_rows = record { events = []; conversions = []; daily = [] }

abbrev loaded : Loaded
loaded = record {
  rows = record { items = []; images = []; tags = []; sizes = []; colors = [] };
  partners = [];
  now = pos 9;
  address = 2;
}

abbrev machine : Surroundings Bytes
machine = record {
  command_line = config_at (codes "s.toml");
  sodium_ready = true;
  settings = λ path. some (written sample_config);
  opens = true;
  scripts = λ dir. some [];
  database = record { version = pos 3; content = [] };
  tables = λ s. no_rows;
  first = some loaded;
  clock = pos 5;
  worker_connects = true;
  pages = λ dir. some (feed_entry ∷ []);
  rounds = first_round ∷ [];
  last = none_refused;
}

main_iff_example :
    ((main run_sql parse_template draw sample_library sample_files machine).status ≡ 0) ↔ (
      (machine.command_line ≡ help)
      ⊎ ((st : IsStarted run_sql parse_template draw sample_library sample_files machine)
          × (cache : List (Bytes × Bytes)) × (made run_sql parse_template draw sample_library
                sample_files machine st.cfg
              ≡ some cache)))
main_iff_example = main_iff run_sql parse_template draw sample_library sample_files machine

machine-IsStarted : IsStarted run_sql parse_template draw sample_library sample_files machine
unfolding apply_migrations discover collect sort_migrations apply_from
machine-IsStarted = record {
  path = codes "s.toml";
  cfg = sample_config;
  version = pos 3;
  loaded = loaded;
  asked = refl;
  ready = refl;
  valid = load_config-written sample_config sample-IsWritable;
  opened = refl;
  migrated = refl;
  filled = refl;
  connected = refl;
}

abbrev served : Config → Library
served cfg =
    library_of parse_template draw sample_library
      (made run_sql parse_template draw sample_library sample_files machine cfg)

abbrev ended : System
ended =
    run (served sample_config) sample_files (first_round ∷ []) none_refused
      (launched sample_config (snapshot_ptr loaded) no_rows (pos 5))

machine-ended :
    (main run_sql parse_template draw sample_library sample_files machine).system ≡ some ended
unfolding machine-IsStarted
machine-ended =
    ap (λ e. e.system)
      (main_started run_sql parse_template draw sample_library sample_files machine
        machine-IsStarted)

-- The snapshot of the round is not put where the first one is.
fresh :
    (cfg : Config) (p : CatalogPtr)
    → AreFresh (served cfg) sample_files (first_round ∷ []) (launched cfg p no_rows (pos 5))
unfolding launched
fresh cfg p = (tt, tt)

main-IsSound_example :
    (st : IsStarted run_sql parse_template draw sample_library sample_files machine) × IsSound
      (served st.cfg)
      st.cfg
      ended.ctx
    × IsIndexed ended.tables
main-IsSound_example =
    main-IsSound run_sql parse_template draw sample_library sample_files machine ended machine-ended
      (λ st. (record { tokens = tt; orders = tt }, fresh st.cfg (snapshot_ptr st.loaded)))
