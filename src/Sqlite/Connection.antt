-- ===== src/Sqlite/Connection.antt =====
-- src/db.cpp, the class `DbConn`: opening and closing, `exec`, and the version of the schema.
use s_size_store.Prelude.{ℕ, ℤ, pos, cast_signed, Bool, true, false, Option, none, some}
use s_size_store.Bytes.{Bytes}
use s_size_store.Sqlite.{
  Sqlite, Command, journal_mode, foreign_keys, busy_timeout, set_version, select_version, M, ◌>>=◌,
  ◌>>◌, ok_or_throw, with_stmt, step, column_int,
}

module _ {S : Type 0} (q : Sqlite S) where
  unfoldable pub exec : Command → M S (Unit {0})
  exec c s = ok_or_throw (q.sqlite3_exec c s)

  abbrev pragmas : S × Bool → S × Option (Unit {0})
  pragmas (s, false) = (q.sqlite3_close s, none)
  pragmas (s, true) = (exec journal_mode >> exec foreign_keys >> exec busy_timeout) s

  -- The constructor of `DbConn`.
  unfoldable pub connect : Bytes → M S (Unit {0})
  connect path s = pragmas (q.sqlite3_open path s)

  abbrev closed_after : {A : Type 0} → M S A → S × Option (Unit {0}) → S × Option A
  closed_after body (s, none) = (s, none)
  closed_after body (s, some u) = let (s', r) = body s in (q.sqlite3_close s', r)

  -- The scope of a `DbConn`: the destructor runs on every way out, and not if the constructor threw.
  unfoldable pub with_conn : {A : Type 0} → Bytes → M S A → M S A
  with_conn path body s = closed_after body (connect path s)

  -- The result that the row holds, or 0 without a row; `static_cast<int>` keeps 32 bits.
  abbrev pub version_read : ℕ → Bool → M S ℤ
  version_read st true s = (s, some (cast_signed 32 (column_int q st 0 s)))
  version_read st false s = (s, some (pos 0))

  unfoldable pub user_version : M S ℤ
  user_version = with_stmt q select_version (λ st. step q st >>= version_read st)

  unfoldable pub set_user_version : ℤ → M S (Unit {0})
  set_user_version v = exec (set_version v)
