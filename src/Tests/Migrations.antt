-- ===== src/Tests/Migrations.antt =====
-- The theorems on migrations, at a concrete directory.
use s_size_store.Prelude.{pos, ◌≡◌, refl, Bool, true, false, List, [], ◌∷◌, none, some}
use s_size_store.Bytes.{Bytes, codes}
use s_size_store.Decimal.{from_chars, magnitude, scan, is_digit}
use s_size_store.Handlers.Files.{extension, split_last}
use s_size_store.Migrations.{
  Entry, Database, apply_migrations, discover, collect, version_of, sort_migrations,
  insert_migration, apply_from, run_script, migrate, try_migration, record_version, Statements,
}
use s_size_store.Migrations.Applying.{AreApplied, apply_migrations-AreApplied}

-- The content is the last script that was run; the empty script is refused, and has emptied it.
abbrev run_text : Bytes → Bytes → Bytes × Bool
run_text [] s = ([], false)
run_text (c ∷ sql) s = (c ∷ sql, true)

abbrev run_sql : Statements Bytes
run_sql = record { run = run_text; begins = λ v. true; sets = λ v. true; commits = λ v. true }

abbrev dir : List Entry
dir =
    record { is_regular = true; name = codes "2_b.sql"; contents = some (codes "B") }
    ∷ record { is_regular = true; name = codes "1_a.sql"; contents = some (codes "A") }
    ∷ record { is_regular = true; name = codes "note.txt"; contents = none }
    ∷ []

abbrev blank : Database Bytes
blank = record { version = pos 0; content = [] }

-- Both scripts are run, in the order of their versions.
applied :
    apply_migrations run_sql (some dir) blank
    ≡ (record { version = pos 2; content = codes "B" }, some (pos 2))
unfolding apply_migrations discover collect version_of sort_migrations insert_migration apply_from
    migrate try_migration record_version run_script from_chars magnitude scan is_digit extension
    split_last
applied = refl

-- A script that is refused leaves what was there before it.
abbrev broken : List Entry
broken = record { is_regular = true; name = codes "3_c.sql"; contents = some [] } ∷ dir

kept :
    apply_migrations run_sql (some broken) blank
    ≡ (record { version = pos 2; content = codes "B" }, none)
unfolding apply_migrations discover collect version_of sort_migrations insert_migration apply_from
    migrate try_migration record_version run_script from_chars magnitude scan is_digit extension
    split_last
kept = refl

apply_migrations-AreApplied_example :
    AreApplied run_sql dir blank (apply_migrations run_sql (some dir) blank)
apply_migrations-AreApplied_example = apply_migrations-AreApplied run_sql (some dir) blank
