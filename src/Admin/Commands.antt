-- ===== src/Admin/Commands.antt =====
-- src/admin_cli.cpp, `main`: which command runs, and the exit status. A command is what it does to the
-- database and the status with which it ends, or none if it throws.
use s_size_store.Prelude.{
  ℕ, ℤ, pos, Bool, List, Option, none, some, if◌then◌else◌, ◌==◌, list_eq, nat_eq,
}
use s_size_store.Bytes.{Bytes, codes}
use s_size_store.Config.{Config, Table, Result, ok, err, load_config}
use s_size_store.Migrations.{Entry, Database, Statements, apply_migrations}

-- What Boost.Program_options makes of the command line: the path of the settings, the command, and the
-- numbers of `--count` and `--days`, if they are there.
pub data Arguments : Type 0 where
  malformed help : Arguments
  command : Bytes → Bytes → Option ℤ → Option ℤ → Arguments

abbrev pub or_default : ℤ → Option ℤ → ℤ
or_default k none = k
or_default k (some n) = n

-- The three commands, each on the settings and the database.
pub record Commands (D : Type 0) : Type 0 where
  pub migrate : Config → D → D × Option ℕ
  pub seed : Config → ℤ → D → D × Option ℕ
  pub stats : Config → ℤ → D → D × Option ℕ

abbrev migrated : {S : Type 0} → Database S × Option ℤ → Database S × Option ℕ
migrated (db, none) = (db, none)
migrated (db, some version) = (db, some 0)

-- `cmd_migrate`; whether a connection can be opened is an argument.
unfoldable pub cmd_migrate :
    {S : Type 0}
    → Statements S
    → Bool
    → (Bytes → Option (List Entry))
    → Config
    → Database S
    → Database S × Option ℕ
cmd_migrate exec opens scripts cfg db =
    if opens then migrated (apply_migrations exec (scripts cfg.migrations_dir) db) else (db, none)

abbrev status_of {ℓ} : {D : Type ℓ} → D × Option ℕ → D × ℕ
status_of (d, none) = (d, 1)
status_of (d, some n) = (d, n)

module _ {D : Type 0} (cs : Commands D) (settings : Bytes → Option (Bytes → Option Table))
    (sodium_ready : Bool) where
  unfoldable pub run_command : Bytes → ℤ → ℤ → Config → D → D × ℕ
  run_command name count days cfg d =
      if name == codes "migrate"
      then status_of (cs.migrate cfg d)
      else if name == codes "seed"
      then status_of (cs.seed cfg count d)
      else if name == codes "stats"
      then status_of (cs.stats cfg days d)
      else (d, 2)

  unfoldable pub with_settings : Bytes → ℤ → ℤ → Result Config → D → D × ℕ
  unfolding run_command
  with_settings name count days (err e) d = (d, 1)
  with_settings name count days (ok cfg) d = run_command name count days cfg d

  unfoldable pub admin_main : Arguments → D → D × ℕ
  unfolding with_settings
  admin_main malformed d = (d, 2)
  admin_main help d = (d, 0)
  admin_main (command path name count days) d =
      if sodium_ready
      then with_settings name (or_default (pos 60) count) (or_default (pos 7) days)
          (load_config (settings path)) d
      else (d, 1)
