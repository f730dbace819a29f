-- ===== src/Migrations.antt =====
-- src/migrations.hpp and src/migrations.cpp: which files are migrations, and how they are applied.
-- What a script does to the schema is sqlite's, an argument.
pub mod Ordered
pub mod Loop
pub mod Applying
use s_size_store.Prelude.{
  ℕ, ◌-◌, ◌^◌, ℤ, pos, ltb_ℤ, Bool, true, false, not, ◌&&◌, List, [], ◌∷◌, Option, none, some,
  if◌then◌else◌, ◌==◌, list_eq, nat_eq,
}
use s_size_store.Bytes.{Bytes, codes}
use s_size_store.Decimal.{from_chars}
use s_size_store.Handlers.Files.{extension}

-- An entry of the directory: its contents are none if it cannot be read.
pub record Entry : Type 0 where
  pub is_regular : Bool
  pub name : Bytes
  pub contents : Option Bytes

pub record Migration : Type 0 where
  pub version : ℤ
  pub contents : Option Bytes

abbrev pub int_max : ℕ
int_max = 2 ^ 31 - 1

abbrev positive : Option (ℤ × Bytes) → Option ℤ
positive none = none
positive (some (v, rest)) = if ltb_ℤ (pos 0) v then some v else none

-- The version that a file name starts with, whatever follows it.
unfoldable pub version_of : Bytes → Option ℤ
version_of name = positive (from_chars int_max name)

abbrev add_migration : Option Bytes → Option ℤ → List Migration → List Migration
add_migration contents none ms = ms
add_migration contents (some v) ms = record { version = v; contents = contents } ∷ ms

unfoldable pub collect : List Entry → List Migration
unfolding version_of
collect [] = []
collect (e ∷ entries) =
    let rest = collect entries in
    if e.is_regular && extension e.name == codes ".sql"
    then add_migration e.contents (version_of e.name) rest
    else rest

-- `std::sort` by the version; among equal versions its order is not specified, and here it is that of
-- the directory.
unfoldable pub insert_migration : Migration → List Migration → List Migration
insert_migration m [] = m ∷ []
insert_migration m (n ∷ ms) =
    let rest = insert_migration m ms in if ltb_ℤ n.version m.version then n ∷ rest else m ∷ n ∷ ms

unfoldable pub sort_migrations : List Migration → List Migration
unfolding insert_migration
sort_migrations [] = []
sort_migrations (m ∷ ms) = insert_migration m (sort_migrations ms)

-- `discover`; none is the exception for a path that is no directory.
unfoldable pub discover : Option (List Entry) → Option (List Migration)
unfolding collect sort_migrations
discover none = none
discover (some entries) = some (sort_migrations (collect entries))

-- A database: its `user_version`, and all else that scripts change.
pub record Database (S : Type 0) : Type 0 where
  pub version : ℤ
  pub content : S

-- What sqlite makes of the statements: a script that is refused may have done a part of its work, and
-- of the other statements of a migration, given by its version, whether they are let through. No script
-- ends the transaction by itself.
pub record Statements (S : Type 0) : Type 0 where
  pub run : Bytes → S → S × Bool
  pub begins : ℤ → Bool
  pub sets : ℤ → Bool
  pub commits : ℤ → Bool

module _ {S : Type 0} (exec : Statements S) where
  -- `conn.exec(read_file(m.path))`
  unfoldable pub run_script : Option Bytes → Database S → Database S × Bool
  run_script none db = (db, false)
  run_script (some sql) db =
      let (s, ran) = exec.run sql db.content in (record db { content = s }, ran)

  -- `set_user_version`
  unfoldable pub record_version : ℤ → Database S → Database S × Bool
  record_version v db = if exec.sets v then (record db { version = v }, true) else (db, false)

  -- The try block: the database as the transaction sees it, and whether its end is reached.
  unfoldable pub try_migration : Migration → Database S → Database S × Bool
  unfolding run_script record_version
  try_migration m db =
      let (ran, whole) = run_script m.contents db in
      let (stamped, set) = record_version m.version ran in
      if whole then (stamped, set && exec.commits m.version) else (ran, false)

  -- ROLLBACK brings back what the transaction has found, whatever has been done since.
  abbrev pub roll_back : Database S → Database S → Database S
  roll_back found working = found

  -- One migration in its transaction; where it throws, the second component is false.
  unfoldable pub migrate : Migration → Database S → Database S × Bool
  unfolding try_migration
  migrate m db =
      let (working, done) = try_migration m db in
      let ended = if done then (working, true) else (roll_back db working, false) in
      if exec.begins m.version then ended else (db, false)

  -- The loop, when `current` is the version; an exception, which ends it, is none.
  unfoldable pub apply_from : List Migration → ℤ → Database S → Database S × Option ℤ
  unfolding migrate
  apply_from [] current db = (db, some current)
  apply_from (m ∷ ms) current db =
      let skipped = apply_from ms current db in
      let (db', done) = migrate m db in
      let rest = apply_from ms m.version db' in
      let applied = if done then rest else (db', none) in
      if not (ltb_ℤ current m.version) then skipped else applied

  abbrev pub apply_found : Option (List Migration) → Database S → Database S × Option ℤ
  apply_found none db = (db, none)
  apply_found (some ms) db = apply_from ms db.version db

  unfoldable pub apply_migrations : Option (List Entry) → Database S → Database S × Option ℤ
  unfolding apply_from discover
  apply_migrations dir db = apply_found (discover dir) db
