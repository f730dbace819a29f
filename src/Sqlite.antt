-- ===== src/Sqlite.antt =====
-- src/db.hpp and src/db.cpp, below the metrics and the catalogue: what they call of sqlite3.h, and the
-- class `Stmt`. sqlite is not code of the repository: its functions are a record, and what the code
-- relies on is stated by Sqlite/Laws. A text of SQL is named, not spelled.
pub mod Connection
pub mod Queries
pub mod Effects
pub mod Laws
pub mod Scopes
pub mod Tidy
pub mod Writing
pub mod Batch
pub mod Postbacks
pub mod Reading
pub mod Sessions
pub mod Upkeep
use s_size_store.Prelude.{
  ℕ, ℤ, pos, cast_signed, Bool, true, false, List, [], ◌∷◌, Option, none, some, if◌then◌else◌,
}
use s_size_store.Bytes.{Bytes, is_empty}

-- The texts that `Stmt` is constructed with.
pub data Sql : Type 0 where
  select_version select_partners find_partner insert_into_events find_click upsert_conversion
        insert_daily delete_events :
      Sql

-- The texts that `DbConn::exec` is called with.
pub data Command : Type 0 where
  journal_mode foreign_keys busy_timeout begin_immediate commit rollback : Command
  set_version : ℤ → Command
  script : Bytes → Command

-- What is bound to a parameter, by the functions `sqlite3_bind_*` for integers, doubles, texts, blobs
-- and NULL; a double is the integer that stands for it in Models.
pub data Value : Type 0 where
  null : Value
  integer : ℤ → Value
  real : ℤ → Value
  text : Bytes → Value
  blob : Bytes → Value

-- What `sqlite3_step` returns: `SQLITE_ROW`, `SQLITE_DONE` or another code.
pub data Code : Type 0 where
  row done refused : Code

-- The functions of sqlite3.h on the state of a connection and its file. A Boolean is whether they
-- return `SQLITE_OK`; a statement is a number, and `sqlite3_column_text` returns none for a null pointer.
pub record Sqlite (S : Type 0) : Type 0 where
  pub sqlite3_open : Bytes → S → S × Bool
  pub sqlite3_close : S → S
  pub sqlite3_exec : Command → S → S × Bool
  pub sqlite3_prepare_v2 : Sql → S → S × Option ℕ
  pub sqlite3_bind : ℕ → ℕ → Value → S → S × Bool
  pub sqlite3_step : ℕ → S → S × Code
  pub sqlite3_reset : ℕ → S → S
  pub sqlite3_clear_bindings : ℕ → S → S
  pub sqlite3_finalize : ℕ → S → S
  pub sqlite3_column_int64 : ℕ → ℕ → S → ℤ
  pub sqlite3_column_text : ℕ → ℕ → S → Option Bytes
  pub sqlite3_column_is_null : ℕ → ℕ → S → Bool
  pub sqlite3_changes : S → ℤ

abbrev pub is_some : {A : Type 0} → Option A → Bool
is_some none = false
is_some (some a) = true

-- A call that changes the state, and its result or an exception.
abbrev pub M : Type 0 → Type 0 → Type 0
M S A = S → S × Option A

abbrev pub pure : {S A : Type 0} → A → M S A
pure a s = (s, some a)

abbrev pub throw : {S A : Type 0} → M S A
throw s = (s, none)

abbrev pub continue : {S A B : Type 0} → (A → M S B) → S × Option A → S × Option B
continue f (s, none) = (s, none)
continue f (s, some a) = f a s

infixr 5 ◌>>=◌ ◌>>◌
abbrev pub ◌>>=◌ : {S A B : Type 0} → M S A → (A → M S B) → M S B
◌>>=◌ m f s = continue f (m s)

abbrev pub ◌>>◌ : {S A B : Type 0} → M S A → M S B → M S B
m >> k = m >>= λ _. k

-- `catch (...) { handler; throw; }`
abbrev pub rethrow : {S A : Type 0} → M S (Unit {0}) → S × Option A → S × Option A
rethrow handler (s, some a) = (s, some a)
rethrow handler (s, none) = ((handler s).0, none)

abbrev pub ok_or_throw : {S : Type 0} → S × Bool → S × Option (Unit {0})
ok_or_throw (s, true) = (s, some tt)
ok_or_throw (s, false) = (s, none)

abbrev pub stepped : {S : Type 0} → S × Code → S × Option Bool
stepped (s, row) = (s, some true)
stepped (s, done) = (s, some false)
stepped (s, refused) = (s, none)

-- `Stmt::bind` on a span, on an optional, and on a text that may be left out.
abbrev pub of_span : Bytes → Value
of_span v = if is_empty v then null else blob v

abbrev pub of_optional : Option ℤ → Value
of_optional none = null
of_optional (some v) = integer v

abbrev pub of_text : Bytes → Value
of_text v = if is_empty v then null else text v

abbrev pub or_blank : Option Bytes → Bytes
or_blank none = []
or_blank (some s) = s

module _ {S : Type 0} (q : Sqlite S) where
  -- The scope of a `Stmt`: the destructor runs on every way out, and not if the constructor threw.
  abbrev pub in_scope : {A : Type 0} → (ℕ → M S A) → S × Option ℕ → S × Option A
  in_scope body (s, none) = (s, none)
  in_scope body (s, some st) = let (s', r) = body st s in (q.sqlite3_finalize st s', r)

  unfoldable pub with_stmt : {A : Type 0} → Sql → (ℕ → M S A) → M S A
  with_stmt sql body s = in_scope body (q.sqlite3_prepare_v2 sql s)

  unfoldable pub bind : ℕ → ℕ → Value → M S (Unit {0})
  bind st idx v s = ok_or_throw (q.sqlite3_bind st idx v s)

  -- A chain of calls of `bind`.
  unfoldable pub bind_all : ℕ → List (ℕ × Value) → M S (Unit {0})
  bind_all st [] = pure tt
  bind_all st ((idx, v) ∷ rest) = bind st idx v >> bind_all st rest

  -- `Stmt::step`
  unfoldable pub step : ℕ → M S Bool
  step st s = stepped (q.sqlite3_step st s)

  -- `Stmt::reset`
  unfoldable pub reset : ℕ → M S (Unit {0})
  reset st s = (q.sqlite3_clear_bindings st (q.sqlite3_reset st s), some tt)

  unfoldable pub column_int : ℕ → ℕ → S → ℤ
  column_int st i s = q.sqlite3_column_int64 st i s

  -- `Stmt::column_text`
  unfoldable pub column_text : ℕ → ℕ → S → Bytes
  column_text st i s = or_blank (q.sqlite3_column_text st i s)

  unfoldable pub column_opt_int : ℕ → ℕ → S → Option ℤ
  column_opt_int st i s = if q.sqlite3_column_is_null st i s then none else some (column_int st i s)
