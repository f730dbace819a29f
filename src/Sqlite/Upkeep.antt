-- ===== src/Sqlite/Upkeep.antt =====
-- src/db_worker.cpp, `maintenance`, down to its two statements.
use s_size_store.Prelude.{
  ℕ, ℤ, pos, ◌-ℤ◌, div_trunc, true, false, List, [], ◌∷◌, Option, none, some, ◌≡◌, refl, sym, ◌∙◌,
  ap, subst, arith, Option-cases, inl, inr,
}
use s_size_store.Models.{TsMs}
use s_size_store.Db.{Tables, rollup_daily, prune_events, ms_per_day}
use s_size_store.Worker.{UpkeepRefusals, try_maintenance, maintenance, scale}
use s_size_store.Sqlite.{
  Sqlite, Sql, Value, integer, insert_daily, delete_events, row, done, refused, M, ◌>>◌, with_stmt,
  bind_all, step,
}
use s_size_store.Sqlite.Queries.{run_rollup_daily, run_prune_events}
use s_size_store.Sqlite.Laws.{IsSqlite}
use s_size_store.Sqlite.Effects.{Meaning, SameTables, WriteStep}
use s_size_store.Sqlite.Scopes.{
  after, step_after, bind_all-fresh, update_all, bind_all-AreBound, with_stmt_after,
  SameTables-trans,
}
use s_size_store.Sqlite.Tidy.{IsTidy, bind_all-IsTidy, step-IsTidy, >>-IsTidy, with_stmt-IsTidy}

-- `maintenance` on the connection.
unfoldable pub run_maintenance : {S : Type 0} → Sqlite S → TsMs → ℤ → M S ℤ
run_maintenance q now retention =
    let today = div_trunc now ms_per_day in
    run_rollup_daily q (today -ℤ pos 1) today
    >> run_prune_events q (now -ℤ scale retention ms_per_day)

some_eq : {t u : Tables} → ◌≡◌ {A = Option Tables} (some t) (some u) → t ≡ u
some_eq e = ground arith

module _ {S : Type 0} {q : Sqlite S} {m : Meaning S} (laws : IsSqlite q m) where
  -- A statement has done what its text says, or nothing.
  record IsWritten (f : Tables → Tables) (s : S) {A : Type 0} (o : S × Option A) : Type 0 where
    pub outside : m.in_transaction o.0 ≡ false
    pub returned : (a : A) → o.1 ≡ some a → m.view o.0 ≡ f (m.view s)
    pub threw : o.1 ≡ none → m.view o.0 ≡ m.view s

  untouched :
      {A : Type 0} (f : Tables → Tables) {s u : S}
      → m.in_transaction s ≡ false
      → SameTables m s u
      → IsWritten f s {A = A} (u, none)
  untouched f outside same = record {
    outside = same.in_transaction ∙ outside;
    returned = λ a e. ground arith;
    threw = λ e. same.view;
  }

  with_stmt-IsWritten :
      {A : Type 0} (f : Tables → Tables) (sql : Sql) (bs : List (ℕ × Value)) (g : S → A) (s : S)
      → ((st : ℕ) (p : ℕ → Value) (t : S)
          → m.holds st t ≡ some sql
          → m.fresh st t ≡ true
          → m.param st t ≡ update_all p bs
          → m.in_transaction t ≡ false
          → WriteStep m (λ v. some (f v)) t (q.sqlite3_step st t).0 (q.sqlite3_step st t).1)
      → m.in_transaction s ≡ false
      → IsWritten f s
          (with_stmt q sql (λ st. bind_all q st bs >> step q st >> λ u. (u, some (g u))) s)
  with_stmt-IsWritten f sql bs g s law outside =
      with_stmt_after laws (IsWritten f s) sql
        (λ st. bind_all q st bs >> step q st >> λ u. (u, some (g u))) s
        (λ missing. untouched f outside (laws.prepare_tables sql s))
        (λ st prepared.
          let t : S = (q.sqlite3_prepare_v2 sql s).0 in
          let (tables, statements, params) = bind_all-AreBound laws st bs t in
          let same = SameTables-trans m (laws.prepare_tables sql s) tables in
          let t' : S = (bind_all q st bs t).0 in
          after (λ o. IsWritten f s (q.sqlite3_finalize st o.0, o.1)) (bind_all q st bs t)
            (λ _. step q st >> λ u. (u, some (g u)))
            (λ failed. untouched f outside (SameTables-trans m same (laws.finalize_tables st t')))
            (λ u bound.
              let wrote =
                law st (m.param st t) t' (statements.holds ∙ laws.prepare_holds sql s st prepared)
                  (bind_all-fresh laws st bs t ∙ laws.prepare_fresh sql s st prepared)
                  (params bound) (same.in_transaction ∙ outside) in
              let last = laws.finalize_tables st (q.sqlite3_step st t').0 in
              let seen = λ (code : _) (e : (q.sqlite3_step st t').1 ≡ code).
                subst (WriteStep m (λ v. some (f v)) t' (q.sqlite3_step st t').0) e wrote in
              step_after laws (λ o. IsWritten f s (q.sqlite3_finalize st o.0, o.1)) st t'
                (λ _ u. (u, some (g u))) (λ code. absurd (seen row code))
                (λ code. record {
                  outside = last.in_transaction ∙ (seen done code).1;
                  returned = λ a e. last.view ∙ some_eq (sym (seen done code).0) ∙ ap f same.view;
                  threw = λ e. ground arith;
                })
                (λ code. record {
                  outside = last.in_transaction ∙ (seen refused code).1;
                  returned = λ a e. ground arith;
                  threw = λ e. last.view ∙ (seen refused code).0 ∙ same.view;
                })))

  run_rollup_daily-IsWritten :
      (day_from day_to : ℤ) (s : S)
      → m.in_transaction s ≡ false
      → IsWritten (rollup_daily day_from day_to) s (run_rollup_daily q day_from day_to s)
  unfolding run_rollup_daily
  run_rollup_daily-IsWritten day_from day_to s outside =
      with_stmt-IsWritten (rollup_daily day_from day_to) insert_daily
        ((1, integer day_from) ∷ (2, integer day_to) ∷ []) (λ u. tt) s
        (λ st p t held fresh params out.
          laws.step_daily st day_from day_to t held fresh (ap (λ (f : ℕ → Value). f 1) params)
            (ap (λ (f : ℕ → Value). f 2) params) out)
        outside

  run_prune_events-IsWritten :
      (older_than : TsMs) (s : S)
      → m.in_transaction s ≡ false
      → IsWritten (prune_events older_than) s (run_prune_events q older_than s)
  unfolding run_prune_events
  run_prune_events-IsWritten older_than s outside =
      with_stmt-IsWritten (prune_events older_than) delete_events ((1, integer older_than) ∷ [])
        q.sqlite3_changes s
        (λ st p t held fresh params out.
          laws.step_delete st older_than t held fresh (ap (λ (f : ℕ → Value). f 1) params) out)
        outside

  -- What the two statements have done.
  record IsKeptUp (now : TsMs) (retention : ℤ) (t : Tables) (o : S × Option ℤ) : Type 0 where
    pub refusals : UpkeepRefusals
    pub kept : m.view o.0 ≡ try_maintenance refusals now retention t
    pub outside : m.in_transaction o.0 ≡ false

  run_maintenance-IsKeptUp :
      (now : TsMs) (retention : ℤ) (s : S)
      → m.in_transaction s ≡ false
      → IsKeptUp now retention (m.view s) (run_maintenance q now retention s)
  unfolding run_maintenance try_maintenance maintenance
  run_maintenance-IsKeptUp now retention s outside =
      let today : ℤ = div_trunc now ms_per_day in
      let cutoff : ℤ = now -ℤ scale retention ms_per_day in
      let first = run_rollup_daily-IsWritten (today -ℤ pos 1) today s outside in
      let s' : S = (run_rollup_daily q (today -ℤ pos 1) today s).0 in
      after (IsKeptUp now retention (m.view s)) (run_rollup_daily q (today -ℤ pos 1) today s)
        (λ _. run_prune_events q cutoff)
        (λ failed. record {
          refusals = record { rollup = true; prune = true };
          kept = first.threw failed;
          outside = first.outside;
        })
        (λ u done.
          let second = run_prune_events-IsWritten cutoff s' first.outside in
          elim (Option-cases (run_prune_events q cutoff s').1) [
            | inl failed ↦ record {
              refusals = record { rollup = false; prune = true };
              kept = second.threw failed ∙ first.returned u done;
              outside = second.outside;
            }
            | inr (n, removed) ↦ record {
              refusals = record { rollup = false; prune = false };
              kept = second.returned n removed ∙ ap (prune_events cutoff) (first.returned u done);
              outside = second.outside;
            }
          ])

  changes-IsTidy : {A : Type 0} (g : S → A) → IsTidy laws (λ u. (u, some (g u)))
  changes-IsTidy g = record { live = λ s. refl }

  with_stmt-IsTidy_once :
      {A : Type 0} (sql : Sql) (bs : List (ℕ × Value)) (g : S → A)
      → IsTidy laws (with_stmt q sql (λ st. bind_all q st bs >> step q st >> λ u. (u, some (g u))))
  with_stmt-IsTidy_once sql bs g =
      with_stmt-IsTidy laws sql (λ st. bind_all q st bs >> step q st >> λ u. (u, some (g u)))
        (λ st.
          >>-IsTidy laws (bind_all-IsTidy laws st bs)
            (>>-IsTidy laws (step-IsTidy laws st) (changes-IsTidy g)))

  run_maintenance-IsTidy :
      (now : TsMs) (retention : ℤ) → IsTidy laws (run_maintenance q now retention)
  unfolding run_maintenance run_rollup_daily run_prune_events
  run_maintenance-IsTidy now retention =
      let today : ℤ = div_trunc now ms_per_day in
      let cutoff : ℤ = now -ℤ scale retention ms_per_day in
      >>-IsTidy laws
        (with_stmt-IsTidy_once insert_daily
          ((1, integer (today -ℤ pos 1)) ∷ (2, integer today) ∷ []) (λ u. tt))
        (with_stmt-IsTidy_once delete_events ((1, integer cutoff) ∷ []) q.sqlite3_changes)

  -- If sqlite keeps the laws and no transaction is open, `maintenance` does to the tables what
  -- its two steps do under some choice of refused statements; no transaction is left open, and no
  -- statement is left behind.
  pub run_maintenance-keeps_up :
      (now : TsMs) (retention : ℤ) (s : S)
      → m.in_transaction s ≡ false
      → (refusals : UpkeepRefusals) × (m.view (run_maintenance q now retention s).0
          ≡ try_maintenance refusals now retention (m.view s))
        × (m.in_transaction (run_maintenance q now retention s).0 ≡ false)
        × (m.live (run_maintenance q now retention s).0 ≡ m.live s)
  run_maintenance-keeps_up now retention s outside =
      let k = run_maintenance-IsKeptUp now retention s outside in
      (k.refusals, k.kept, k.outside, (run_maintenance-IsTidy now retention).live s)
