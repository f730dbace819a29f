-- ===== src/Sqlite/Laws.antt =====
-- What the code relies on of sqlite, where no other connection writes to the file between the calls:
-- what a statement holds, what the first step since it was prepared or reset does by its text, what a
-- transaction brings back, and which connections can be closed.
use s_size_store.Prelude.{
  ℕ, suc, ℤ, true, false, List, [], ◌∷◌, ◌^◌, ◌-◌, InRange, some, ◌≡◌, ◌≢◌, nat_eq,
}
use s_size_store.Bytes.{Bytes}
use s_size_store.Models.{Event, TsMs}
use s_size_store.Events.{Conversion}
use s_size_store.Db.{rollup_daily, prune_events}
use s_size_store.Sqlite.{
  Sqlite, Sql, Command, Value, integer, text, refused, begin_immediate, commit, rollback,
  insert_into_events, select_version, set_version, select_partners, find_click, upsert_conversion,
  insert_daily, delete_events,
}
use s_size_store.Sqlite.Effects.{
  BeginStep, CommitStep, EventStep, FindStep, IsConversionRow, IsEventRow, Meaning, PartnerStep,
  SameStatements, SameTables, VersionStep, WriteStep, opened, update, upsert_effect,
}

module _ {S : Type 0} (q : Sqlite S) (m : Meaning S) where
  -- What the functions do that the code calls, in the states in which it calls them.
  pub record IsSqlite : Type 0 where
    pub settled : (s : S) → m.in_transaction s ≡ false → m.home s ≡ m.view s
    pub prepare_tables : (sql : Sql) (s : S) → SameTables m s (q.sqlite3_prepare_v2 sql s).0
    pub prepare_live :
        (sql : Sql) (s : S)
        → m.live (q.sqlite3_prepare_v2 sql s).0 ≡ opened (q.sqlite3_prepare_v2 sql s).1 (m.live s)
    pub prepare_holds :
        (sql : Sql) (s : S) (st : ℕ)
        → (q.sqlite3_prepare_v2 sql s).1 ≡ some st
        → m.holds st (q.sqlite3_prepare_v2 sql s).0 ≡ some sql
    pub prepare_fresh :
        (sql : Sql) (s : S) (st : ℕ)
        → (q.sqlite3_prepare_v2 sql s).1 ≡ some st
        → m.fresh st (q.sqlite3_prepare_v2 sql s).0 ≡ true
    pub bind_fresh :
        (st i : ℕ) (v : Value) (s : S) → m.fresh st (q.sqlite3_bind st i v s).0 ≡ m.fresh st s
    pub reset_fresh : (st : ℕ) (s : S) → m.fresh st (q.sqlite3_reset st s) ≡ true
    pub clear_fresh : (st : ℕ) (s : S) → m.fresh st (q.sqlite3_clear_bindings st s) ≡ m.fresh st s
    pub bind_tables : (st i : ℕ) (v : Value) (s : S) → SameTables m s (q.sqlite3_bind st i v s).0
    pub bind_statements :
        (st i : ℕ) (v : Value) (s : S) → SameStatements m st s (q.sqlite3_bind st i v s).0
    pub bind_param :
        (st i : ℕ) (v : Value) (s : S)
        → (q.sqlite3_bind st i v s).1 ≡ true
        → m.param st (q.sqlite3_bind st i v s).0 ≡ update (m.param st s) i v
    pub step_statements : (st : ℕ) (s : S) → SameStatements m st s (q.sqlite3_step st s).0
    pub reset_tables : (st : ℕ) (s : S) → SameTables m s (q.sqlite3_reset st s)
    pub reset_statements : (st : ℕ) (s : S) → SameStatements m st s (q.sqlite3_reset st s)
    pub clear_tables : (st : ℕ) (s : S) → SameTables m s (q.sqlite3_clear_bindings st s)
    pub clear_statements : (st : ℕ) (s : S) → SameStatements m st s (q.sqlite3_clear_bindings st s)
    pub finalize_tables : (st : ℕ) (s : S) → SameTables m s (q.sqlite3_finalize st s)
    pub finalize_live :
        (st : ℕ) (live : List ℕ) (s : S)
        → m.live s ≡ st ∷ live
        → m.live (q.sqlite3_finalize st s) ≡ live
    pub exec_live : (c : Command) (s : S) → m.live (q.sqlite3_exec c s).0 ≡ m.live s
    pub begin :
        (s : S)
        → BeginStep m s (q.sqlite3_exec begin_immediate s).0 (q.sqlite3_exec begin_immediate s).1
    pub commit_step :
        (s : S)
        → m.in_transaction s ≡ true
        → CommitStep m s (q.sqlite3_exec commit s).0 (q.sqlite3_exec commit s).1
    -- A ROLLBACK that finds its transaction already rolled back fails with no harm.
    pub rollback_view : (s : S) → m.view (q.sqlite3_exec rollback s).0 ≡ m.home s
    pub rollback_ends : (s : S) → m.in_transaction (q.sqlite3_exec rollback s).0 ≡ false
    pub step_event :
        (st : ℕ) (ev : Event) (s : S)
        → m.holds st s ≡ some insert_into_events
        → m.fresh st s ≡ true
        → IsEventRow (m.param st s) ev
        → m.in_transaction s ≡ true
        → EventStep m ev s (q.sqlite3_step st s).0 (q.sqlite3_step st s).1
    pub step_find :
        (st : ℕ) (token : Bytes) (s : S)
        → m.holds st s ≡ some find_click
        → m.fresh st s ≡ true
        → m.param st s 1 ≡ text token
        → FindStep m token s (q.sqlite3_step st s).1 × SameTables m s (q.sqlite3_step st s).0
    pub step_upsert :
        (st : ℕ) (c : Conversion) (s : S)
        → m.holds st s ≡ some upsert_conversion
        → m.fresh st s ≡ true
        → IsConversionRow (m.param st s) c
        → m.in_transaction s ≡ false
        → WriteStep m (upsert_effect c) s (q.sqlite3_step st s).0 (q.sqlite3_step st s).1
    pub step_daily :
        (st : ℕ) (day_from day_to : ℤ) (s : S)
        → m.holds st s ≡ some insert_daily
        → m.fresh st s ≡ true
        → m.param st s 1 ≡ integer day_from
        → m.param st s 2 ≡ integer day_to
        → m.in_transaction s ≡ false
        → WriteStep m
            (λ t. some (rollup_daily day_from day_to t))
            s
            (q.sqlite3_step st s).0
            (q.sqlite3_step st s).1
    pub step_delete :
        (st : ℕ) (older_than : TsMs) (s : S)
        → m.holds st s ≡ some delete_events
        → m.fresh st s ≡ true
        → m.param st s 1 ≡ integer older_than
        → m.in_transaction s ≡ false
        → WriteStep m
            (λ t. some (prune_events older_than t))
            s
            (q.sqlite3_step st s).0
            (q.sqlite3_step st s).1
    pub prepare_left :
        (s : S) (st : ℕ)
        → (q.sqlite3_prepare_v2 select_partners s).1 ≡ some st
        → m.left st (q.sqlite3_prepare_v2 select_partners s).0 ≡ m.partners s
    pub step_partners :
        (st : ℕ) (s : S)
        → m.holds st s ≡ some select_partners
        → PartnerStep q m st s (q.sqlite3_step st s).0 (q.sqlite3_step st s).1
          × SameTables m s (q.sqlite3_step st s).0
    pub open_live : (path : Bytes) (s : S) → m.live (q.sqlite3_open path s).0 ≡ m.live s
    pub open_connections :
        (path : Bytes) (s : S)
        → (q.sqlite3_open path s).1 ≡ true
        → m.connections (q.sqlite3_open path s).0 ≡ suc (m.connections s)
    -- The handle of a file that could not be opened is to be closed as well.
    pub open_failed :
        (path : Bytes) (s : S)
        → (q.sqlite3_open path s).1 ≡ false
        → m.connections (q.sqlite3_close (q.sqlite3_open path s).0) ≡ m.connections s
    -- With a statement that has not been finalized the connection would stay (SQLITE_BUSY).
    pub close_connections :
        (n : ℕ) (s : S)
        → m.live s ≡ []
        → m.connections s ≡ suc n
        → m.connections (q.sqlite3_close s) ≡ n
    pub exec_connections :
        (c : Command) (s : S) → m.connections (q.sqlite3_exec c s).0 ≡ m.connections s
    pub exec_version :
        (v : ℤ) (s : S)
        → InRange (2 ^ 31 - 1) v
        → (q.sqlite3_exec (set_version v) s).1 ≡ true
        → m.version (q.sqlite3_exec (set_version v) s).0 ≡ v
    pub prepare_version :
        (sql : Sql) (s : S) → m.version (q.sqlite3_prepare_v2 sql s).0 ≡ m.version s
    pub step_version :
        (st : ℕ) (s : S)
        → m.holds st s ≡ some select_version
        → m.fresh st s ≡ true
        → VersionStep q m st s (q.sqlite3_step st s).0 (q.sqlite3_step st s).1

  -- sqlite lets the partners be read: it refuses neither the SELECT nor one of its steps.
  pub record LetsRead : Type 0 where
    pub prepares : (s : S) → (st : ℕ) × ((q.sqlite3_prepare_v2 select_partners s).1 ≡ some st)
    pub steps :
        (st : ℕ) (s : S) → m.holds st s ≡ some select_partners → (q.sqlite3_step st s).1 ≢ refused
