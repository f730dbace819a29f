-- ===== src/Sqlite/Tidy.antt =====
-- Which calls leave no statement behind.
use s_size_store.Prelude.{ℕ, List, ◌≡◌, refl, ◌∙◌, ap}
use s_size_store.Sqlite.{
  Sqlite, Sql, Value, pure, M, ◌>>=◌, ◌>>◌, with_stmt, bind_all, step, reset, Command,
}
use s_size_store.Sqlite.Connection.{exec}
use s_size_store.Sqlite.Laws.{IsSqlite}
use s_size_store.Sqlite.Effects.{Meaning, opened}
use s_size_store.Sqlite.Scopes.{
  after, bind_all-AreBound, reset-SameStatements, stepped-state, exec-state, with_stmt_after,
}

module _ {S : Type 0} {q : Sqlite S} {m : Meaning S} (laws : IsSqlite q m) where
  -- A call that leaves behind no statement, and finalizes none of those that are there.
  pub record IsTidy {A : Type 0} (f : M S A) : Type 0 where
    pub live : (s : S) → m.live (f s).0 ≡ m.live s

  pub bind_all-IsTidy : (st : ℕ) (bs : List (ℕ × Value)) → IsTidy (bind_all q st bs)
  bind_all-IsTidy st bs = record { live = λ s. (bind_all-AreBound laws st bs s).1.live }

  pub step-IsTidy : (st : ℕ) → IsTidy (step q st)
  unfolding step
  step-IsTidy st = record {
    live = λ s. ap m.live (stepped-state (q.sqlite3_step st s)) ∙ (laws.step_statements st s).live;
  }

  pub reset-IsTidy : (st : ℕ) → IsTidy (reset q st)
  reset-IsTidy st = record { live = λ s. (reset-SameStatements laws st s).live }

  pub exec-IsTidy : (c : Command) → IsTidy (exec q c)
  exec-IsTidy c = record { live = λ s. rw (exec-state laws) (laws.exec_live c s) }

  pub >>=-IsTidy :
      {A B : Type 0} {f : M S A} {g : A → M S B}
      → IsTidy f
      → ((a : A) → IsTidy (g a))
      → IsTidy (f >>= g)
  >>=-IsTidy {f = f} {g = g} tidy later = record {
    live = λ s.
        after (λ o. m.live o.0 ≡ m.live s) (f s) g (λ failed. tidy.live s)
          (λ a returned. (later a).live (f s).0 ∙ tidy.live s);
  }

  pub >>-IsTidy : {A B : Type 0} {f : M S A} {k : M S B} → IsTidy f → IsTidy k → IsTidy (f >> k)
  >>-IsTidy {f = f} {k = k} tidy later = record {
    live = λ s.
        after (λ o. m.live o.0 ≡ m.live s) (f s) (λ _. k) (λ failed. tidy.live s)
          (λ a returned. later.live (f s).0 ∙ tidy.live s);
  }

  -- A statement is finalized on every way out of its scope.
  pub with_stmt-IsTidy :
      {A : Type 0} (sql : Sql) (body : ℕ → M S A)
      → ((st : ℕ) → IsTidy (body st))
      → IsTidy (with_stmt q sql body)
  with_stmt-IsTidy sql body tidy = record {
    live = λ s.
        with_stmt_after laws (λ o. m.live o.0 ≡ m.live s) sql body s
          (λ missing. laws.prepare_live sql s ∙ ap (λ o. opened o (m.live s)) missing)
          (λ st prepared.
            laws.finalize_live st (m.live s) _ (
              (tidy st).live _ ∙ laws.prepare_live sql s ∙ ap (λ o. opened o (m.live s)) prepared));
  }

  pub pure-IsTidy : {A : Type 0} (a : A) → IsTidy (pure a)
  pure-IsTidy a = record { live = λ s. refl }

  pub stepped_once-IsTidy :
      (sql : Sql) (bs : List (ℕ × Value))
      → IsTidy (with_stmt q sql (λ st. bind_all q st bs >> step q st))
  stepped_once-IsTidy sql bs =
      with_stmt-IsTidy sql (λ st. bind_all q st bs >> step q st)
        (λ st. >>-IsTidy (bind_all-IsTidy st bs) (step-IsTidy st))
