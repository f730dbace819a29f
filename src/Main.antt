-- ===== src/Main.antt =====
-- src/main.cpp: how the server starts, in which order its parts are made, and how it ends. What the
-- libraries, the file system and sqlite answer is an argument.
pub mod Starting
use s_size_store.Prelude.{ℕ, ℤ, Bool, true, false, List, [], ◌∷◌, Option, none, some, if◌then◌else◌}
use s_size_store.Bytes.{Bytes}
use s_size_store.Db.{Tables}
use s_size_store.Config.{Config, Table, Result, ok, err, load_config}
use s_size_store.Migrations.{Entry, Database, Statements, apply_migrations}
use s_size_store.Json.{Json}
use s_size_store.Templating
use s_size_store.Worker.{Refusals}
use s_size_store.Handlers.{Library}
use s_size_store.Handlers.Files.{FileSystem}
use s_size_store.System.{System, Loaded, Round, snapshot_ptr, launched, run}

-- What Boost.Program_options makes of the command line.
pub data CommandLine : Type 0 where
  malformed help : CommandLine
  config_at : Bytes → CommandLine

-- What `main` meets on its way: of the settings the parsed file; whether a connection to the database
-- can be opened for the migrations; the directory of the migrations; what the statements of the first
-- snapshot return, none if one of them or their connection fails; the directory of the templates; and
-- whether the database thread can open its own connection, and what it meets until it is stopped.
pub record Surroundings (S : Type 0) : Type 0 where
  pub command_line : CommandLine
  pub sodium_ready : Bool
  pub settings : Bytes → Option (Bytes → Option Table)
  pub opens : Bool
  pub scripts : Bytes → Option (List Entry)
  pub database : Database S
  pub tables : S → Tables
  pub first : Option Loaded
  pub clock : ℤ
  pub worker_connects : Bool
  pub pages : Bytes → Option (List Templating.PageEntry)
  pub rounds : List Round
  pub last : Refusals

-- The exit status, the schema, and the system once the database thread has ended, if that was launched
-- and had its connection.
pub record Ended (S : Type 0) : Type 0 where
  pub status : ℕ
  pub database : Database S
  pub system : Option System

-- The library with the templates, if the server could be made.
abbrev pub library_of :
    {T : Type 0}
    → (Bytes → Option T)
    → (T → Json → Option Bytes)
    → Library
    → Option (List (Bytes × T))
    → Library
library_of parse_template draw lib none = lib
library_of parse_template draw lib (some cache) =
    Templating.with_templates parse_template draw cache lib

abbrev pub server_status : {T : Type 0} → Option (List (Bytes × T)) → ℕ
server_status none = 1
server_status (some cache) = 0

module _ {S T : Type 0} (exec : Statements S) (parse_template : Bytes → Option T)
    (draw : T → Json → Option Bytes) (lib : Library) (fs : FileSystem) (w : Surroundings S) where
  -- The constructor of the server loads the templates.
  abbrev pub made : Config → Option (List (Bytes × T))
  made cfg = Templating.templating parse_template draw (w.pages cfg.templates_dir)

  -- The exception is logged.
  abbrev pub fatal : Database S → Ended S
  fatal db = record { status = 1; database = db; system = none }

  -- The exit status after `abort`, as a shell reports it.
  abbrev pub aborted : ℕ
  aborted = 134

  -- From the first snapshot on. The worker is stopped on either way, by `stop` or by its destructor. An
  -- exception of its connection leaves its thread function, so `std::terminate` ends the process.
  unfoldable pub with_snapshot : Config → Database S → Option Loaded → Ended S
  with_snapshot cfg db none = fatal db
  with_snapshot cfg db (some l) =
      if w.worker_connects
      then record {
        status = server_status (made cfg);
        database = db;
        system = some (
            run (library_of parse_template draw lib (made cfg)) fs w.rounds w.last
              (launched cfg (snapshot_ptr l) (w.tables db.content) w.clock));
      }
      else record { status = aborted; database = db; system = none }

  abbrev pub with_schema : Config → Database S × Option ℤ → Ended S
  with_schema cfg (db, none) = fatal db
  with_schema cfg (db, some version) = with_snapshot cfg db w.first

  unfoldable pub with_config : Result Config → Ended S
  unfolding with_snapshot
  with_config (err e) = fatal w.database
  with_config (ok cfg) =
      if w.opens
      then with_schema cfg (apply_migrations exec (w.scripts cfg.migrations_dir) w.database)
      else fatal w.database

  abbrev pub quiet : ℕ → Ended S
  quiet status = record { status = status; database = w.database; system = none }

  abbrev pub with_arguments : CommandLine → Ended S
  with_arguments malformed = quiet 2
  with_arguments help = quiet 0
  with_arguments (config_at path) =
      if w.sodium_ready then with_config (load_config (w.settings path)) else fatal w.database

  unfoldable pub main : Ended S
  unfolding with_config
  main = with_arguments w.command_line
