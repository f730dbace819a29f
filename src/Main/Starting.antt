-- ===== src/Main/Starting.antt =====
-- When the server runs, and how the process ends.
use s_size_store.Prelude.{
  List, ℤ, ◌≡◌, ◌≢◌, ◌∙◌, ◌↔◌, ◌⊎◌, inl, inr, refl, sym, ap, true, false, Bool, Option, none, some,
  arith, Bool-cases, Option-cases, if◌then◌else◌,
}
use s_size_store.Bytes.{Bytes}
use s_size_store.Worker.Flushing.{IsIndexed}
use s_size_store.Config.{Config, Result, ok, err, load_config}
use s_size_store.Json.{Json}
use s_size_store.Migrations.{Database, Statements, apply_migrations}
use s_size_store.Handlers.{Library}
use s_size_store.Handlers.Files.{FileSystem}
use s_size_store.Handlers.Life.{IsSound}
use s_size_store.System.{System, Loaded, snapshot_ptr, launched, run}
use s_size_store.System.Safety.{AreFresh, run-IsSound}
use s_size_store.Main.{
  made, library_of, server_status, Surroundings, Ended, CommandLine, malformed, help, config_at,
  main, with_config, with_arguments, with_schema, with_snapshot,
}

Result-cases : (o : Result Config) → ((cfg : Config) × (o ≡ ok cfg)) ⊎ ((cfg : Config) → o ≢ ok cfg)
Result-cases (ok cfg) = inl (cfg, refl)
Result-cases (err e) = inr (λ cfg h. cc)

none-ne-some : (s : System) → ◌≢◌ {A = Option System} none (some s)
none-ne-some s e = cc

none-ne-made :
    {T : Type 0} (cache : List (Bytes × T)) → ◌≢◌ {A = Option (List (Bytes × T))} none (some cache)
none-ne-made cache e = cc

some_injective : (s t : System) → some s ≡ some t → s ≡ t
some_injective s t e = cc

module _ {S T : Type 0} (exec : Statements S) (parse_template : Bytes → Option T)
    (draw : T → Json → Option Bytes) (lib : Library) (fs : FileSystem) (w : Surroundings S) where
  -- The server's templates, and what its handlers use.
  abbrev pub made_for : Config → Option (List (Bytes × T))
  made_for cfg = made exec parse_template draw lib fs w cfg

  abbrev pub served_by : Config → Library
  served_by cfg = library_of parse_template draw lib (made_for cfg)

  -- The server has been started, in this order: the settings are valid, the schema is the newest, and
  -- there is a snapshot for the first visitor, and the database thread has its connection.
  pub record IsStarted : Type 0 where
    pub path : Bytes
    pub cfg : Config
    pub version : ℤ
    pub loaded : Loaded
    pub asked : w.command_line ≡ config_at path
    pub ready : w.sodium_ready ≡ true
    pub valid : load_config (w.settings path) ≡ ok cfg
    pub opened : w.opens ≡ true
    pub migrated :
        (apply_migrations exec (w.scripts cfg.migrations_dir) w.database).1 ≡ some version
    pub filled : w.first ≡ some loaded
    pub connected : w.worker_connects ≡ true

  abbrev pub schema_of : Config → Database S
  schema_of cfg = (apply_migrations exec (w.scripts cfg.migrations_dir) w.database).0

  -- What the process has done when it ends after a start.
  abbrev pub ended_of : IsStarted → Ended S
  ended_of st = record {
    status = server_status (made_for st.cfg);
    database = schema_of st.cfg;
    system = some (
        run (served_by st.cfg) fs w.rounds w.last
          (launched st.cfg (snapshot_ptr st.loaded) (w.tables (schema_of st.cfg).content) w.clock));
  }

  with_schema_ok :
      (cfg : Config) (version : ℤ) (l : Loaded) (o : Database S × Option ℤ)
      → o.1 ≡ some version
      → w.first ≡ some l
      → with_schema exec parse_template draw lib fs w cfg o
        ≡ with_snapshot exec parse_template draw lib fs w cfg o.0 (some l)
  with_schema_ok cfg version l (db, some v) e f = rw f refl
  with_schema_ok cfg version l (db, none) e f = cc

  connected_snapshot :
      (cfg : Config) (db : Database S) (l : Loaded)
      → w.worker_connects ≡ true
      → with_snapshot exec parse_template draw lib fs w cfg db (some l) ≡ record {
        status = server_status (made_for cfg);
        database = db;
        system = some (
            run
              (served_by cfg)
              fs
              w.rounds
              w.last
              (launched cfg (snapshot_ptr l) (w.tables db.content) w.clock));
      }
  unfolding with_snapshot
  connected_snapshot cfg db l connected = rw (connected, with_snapshot) refl

  pub main_started : (st : IsStarted) → main exec parse_template draw lib fs w ≡ ended_of st
  unfolding main with_config with_snapshot
  main_started st =
      rw (st.asked, with_arguments, st.ready, st.valid, with_config, st.opened)
        (with_schema_ok st.cfg st.version st.loaded _ st.migrated st.filled
          ∙ connected_snapshot st.cfg (schema_of st.cfg) st.loaded st.connected)

  -- No part of the server has been launched; the status is 0 only if help was asked for.
  abbrev pub IsIdle : Ended S → Type 0
  IsIdle e = (e.system ≡ none) × (e.status ≡ 0 → w.command_line ≡ help)

  fatal-IsIdle : (db : Database S) → IsIdle (record { status = 1; database = db; system = none })
  fatal-IsIdle db = (refl, λ h. absurd (omega (arith, h)))

  choose_cases :
      (b : Bool) (x y : Ended S)
      → (b ≡ true → IsStarted ⊎ IsIdle x)
      → IsIdle y
      → IsStarted ⊎ IsIdle (if b then x else y)
  choose_cases true x y hx hy = hx refl
  choose_cases false x y hx hy = inr hy

  failed_schema :
      (cfg : Config) (o : Database S × Option ℤ)
      → o.1 ≡ none
      → IsIdle (with_schema exec parse_template draw lib fs w cfg o)
  failed_schema cfg (db, none) e = fatal-IsIdle db
  failed_schema cfg (db, some v) e = cc

  empty_schema :
      (cfg : Config) (o : Database S × Option ℤ)
      → w.first ≡ none
      → IsIdle (with_schema exec parse_template draw lib fs w cfg o)
  unfolding with_snapshot
  empty_schema cfg (db, none) e = fatal-IsIdle db
  empty_schema cfg (db, some v) e = rw (e, with_snapshot) (fatal-IsIdle db)

  aborted_schema :
      (cfg : Config) (o : Database S × Option ℤ)
      → w.worker_connects ≡ false
      → IsIdle (with_schema exec parse_template draw lib fs w cfg o)
  unfolding with_snapshot
  aborted_schema cfg (db, none) e = fatal-IsIdle db
  aborted_schema cfg (db, some v) e = elim (Option-cases w.first) [
    | inl missing ↦ rw (missing, with_snapshot) (fatal-IsIdle db)
    | inr (l, filled) ↦ rw (filled, e, with_snapshot) (refl, λ h. absurd (omega (arith, h)))
  ]

  opened_cases :
      (path : Bytes) (cfg : Config)
      → w.command_line ≡ config_at path
      → w.sodium_ready ≡ true
      → load_config (w.settings path) ≡ ok cfg
      → w.opens ≡ true
      → IsStarted
        ⊎ IsIdle (
            with_schema exec parse_template draw lib fs w cfg
              (apply_migrations exec (w.scripts cfg.migrations_dir) w.database))
  opened_cases path cfg asked ready valid opened =
      elim (Option-cases (apply_migrations exec (w.scripts cfg.migrations_dir) w.database).1) [
        | inl refused ↦ inr (failed_schema cfg _ refused)
        | inr (version, migrated) ↦ elim (Option-cases w.first) [
          | inl missing ↦ inr (empty_schema cfg _ missing)
          | inr (loaded, filled) ↦ elim (Bool-cases w.worker_connects) [
            | inl connected ↦ inl (record {
              path = path;
              cfg = cfg;
              version = version;
              loaded = loaded;
              asked = asked;
              ready = ready;
              valid = valid;
              opened = opened;
              migrated = migrated;
              filled = filled;
              connected = connected;
            })
            | inr refused ↦ inr (aborted_schema cfg _ refused)
          ]
        ]
      ]

  config_cases :
      (path : Bytes) (o : Result Config)
      → w.command_line ≡ config_at path
      → w.sodium_ready ≡ true
      → load_config (w.settings path) ≡ o
      → IsStarted ⊎ IsIdle (with_config exec parse_template draw lib fs w o)
  unfolding with_config
  config_cases path (err e) asked ready valid = inr (fatal-IsIdle w.database)
  config_cases path (ok cfg) asked ready valid =
      choose_cases w.opens _ _ (λ opened. opened_cases path cfg asked ready valid opened)
        (fatal-IsIdle w.database)

  arguments_cases :
      (c : CommandLine)
      → w.command_line ≡ c
      → IsStarted ⊎ IsIdle (with_arguments exec parse_template draw lib fs w c)
  arguments_cases malformed asked = inr (refl, λ h. absurd (omega (arith, h)))
  arguments_cases help asked = inr (refl, λ h. asked)
  arguments_cases (config_at path) asked =
      choose_cases w.sodium_ready _ _
        (λ ready. config_cases path (load_config (w.settings path)) asked ready refl)
        (fatal-IsIdle w.database)

  pub main_cases : IsStarted ⊎ IsIdle (main exec parse_template draw lib fs w)
  unfolding main
  main_cases = arguments_cases w.command_line refl

  status_of_help : w.command_line ≡ help → (main exec parse_template draw lib fs w).status ≡ 0
  unfolding main
  status_of_help asked = rw (asked, with_arguments) refl

  server_status_iff :
      (o : Option (List (Bytes × T)))
      → (server_status o ≡ 0) ↔ ((cache : List (Bytes × T)) × (o ≡ some cache))
  server_status_iff none = (λ h. absurd (omega (arith, h)), λ h. absurd (none-ne-made h.0 h.1))
  server_status_iff (some cache) = (λ h. (cache, refl), λ h. refl)

  -- The process ends with status 0 exactly if help was asked for, or the command line names a file of
  -- valid settings, the libraries and the database are there, the migrations and the first snapshot
  -- succeed, the database thread can open its connection, and the templates can be loaded.
  pub main_iff : ((main exec parse_template draw lib fs w).status ≡ 0) ↔ (
      (w.command_line ≡ help)
      ⊎ ((st : IsStarted) × (cache : List (Bytes × T)) × (made_for st.cfg ≡ some cache)))
  main_iff = (
    λ h. elim main_cases [
      | inl st ↦
          let status = sym (ap (λ (e : Ended S). e.status) (main_started st)) ∙ h in
          let (cache, loaded) = (server_status_iff (made_for st.cfg)).0 status in
          inr (st, cache, loaded)
      | inr idle ↦ inl (idle.1 h)
    ],
    λ h. elim h [
      | inl asked ↦ status_of_help asked
      | inr (st, cache, loaded) ↦
          ap (λ (e : Ended S). e.status) (main_started st)
          ∙ (server_status_iff (made_for st.cfg)).1 (cache, loaded)
    ],
  )

  -- Whatever has been launched is sound to its end: if there is a system when the process ends, it was
  -- started with valid settings, the newest schema and a snapshot; its settings are those of the file,
  -- its cache of the feeds is coherent, its buffer of events is within the capacity, and its tables
  -- keep their unique indexes, provided that the schema that the migrations leave has them and no
  -- snapshot is put where an object is alive.
  pub main-IsSound :
      (s : System)
      → (main exec parse_template draw lib fs w).system ≡ some s
      → ((st : IsStarted)
          → IsIndexed (w.tables (schema_of st.cfg).content)
            × AreFresh (served_by st.cfg) fs w.rounds (
                launched st.cfg
                  (snapshot_ptr st.loaded)
                  (w.tables (schema_of st.cfg).content)
                  w.clock))
      → (st : IsStarted) × IsSound (served_by st.cfg) st.cfg s.ctx × IsIndexed s.tables
  main-IsSound s e given = elim main_cases [
    | inr idle ↦ absurd (none-ne-some s (sym idle.0 ∙ e))
    | inl st ↦
        let same : s
            ≡ run (served_by st.cfg) fs w.rounds w.last (
                launched st.cfg (snapshot_ptr st.loaded) (w.tables (schema_of st.cfg).content)
                  w.clock) =
          some_injective _ _ (sym e ∙ ap (λ (d : Ended S). d.system) (main_started st)) in
        let (indexed, fresh) = given st in
        let (sound, kept) =
          run-IsSound (served_by st.cfg) fs st.cfg (snapshot_ptr st.loaded)
            (w.tables (schema_of st.cfg).content) w.clock w.rounds w.last fresh indexed in
        (st, rw same sound, rw same kept)
  ]
