-- ===== src/Sqlite/Scopes.antt =====
-- The calls that leave the tables alone, and the scope of a statement.
use s_size_store.Prelude.{
  ℕ, Bool, true, false, List, [], ◌∷◌, Option, none, some, ◌≡◌, ◌⊎◌, inl, inr, refl, ◌∙◌, ap, arith,
  Bool-cases, Option-cases,
}
use s_size_store.Sqlite.{
  Sqlite, Sql, Value, Code, row, done, refused, M, continue, ◌>>◌, ok_or_throw, stepped, with_stmt,
  bind, bind_all, step, reset, Command,
}
use s_size_store.Sqlite.Connection.{exec}
use s_size_store.Sqlite.Laws.{IsSqlite}
use s_size_store.Sqlite.Effects.{Meaning, SameTables, SameStatements, update}

-- A property of what comes of two calls, from both ends of the first.
pub after :
    {S A B : Type 0} (Q : S × Option B → Type 0) (o : S × Option A) (f : A → M S B)
    → (o.1 ≡ none → Q (o.0, none))
    → ((a : A) → o.1 ≡ some a → Q (f a o.0))
    → Q (continue f o)
after Q (s, none) f failed next = failed refl
after Q (s, some a) f failed next = next a refl

ok_or_throw-state : {S : Type 0} (o : S × Bool) → (ok_or_throw o).0 ≡ o.0
ok_or_throw-state (s, true) = refl
ok_or_throw-state (s, false) = refl

pub checked_ok : {S : Type 0} (o : S × Bool) → (ok_or_throw o).1 ≡ some tt → o.1 ≡ true
checked_ok (s, true) e = refl
checked_ok (s, false) e = ground arith

pub stepped-state : {S : Type 0} (o : S × Code) → (stepped o).0 ≡ o.0
stepped-state (s, row) = refl
stepped-state (s, done) = refl
stepped-state (s, refused) = refl

pub Code-cases : (c : Code) → (c ≡ row) ⊎ (c ≡ done) ⊎ (c ≡ refused)
Code-cases row = inl refl
Code-cases done = inr (inl refl)
Code-cases refused = inr (inr refl)

module _ {S : Type 0} (m : Meaning S) where
  pub SameTables-refl : (s : S) → SameTables m s s
  SameTables-refl s = record { view = refl; home = refl; in_transaction = refl }

  pub SameTables-trans : {s t u : S} → SameTables m s t → SameTables m t u → SameTables m s u
  SameTables-trans a b = record {
    view = b.view ∙ a.view;
    home = b.home ∙ a.home;
    in_transaction = b.in_transaction ∙ a.in_transaction;
  }

  pub SameStatements-refl : (st : ℕ) (s : S) → SameStatements m st s s
  SameStatements-refl st s = record { live = refl; holds = refl }

  pub SameStatements-trans :
      {st : ℕ} {s t u : S}
      → SameStatements m st s t
      → SameStatements m st t u
      → SameStatements m st s u
  SameStatements-trans a b = record { live = b.live ∙ a.live; holds = b.holds ∙ a.holds }

-- What a chain of bindings leaves.
abbrev pub update_all : (ℕ → Value) → List (ℕ × Value) → ℕ → Value
update_all p [] = p
update_all p ((i, v) ∷ rest) = update_all (update p i v) rest

module _ {S : Type 0} {q : Sqlite S} {m : Meaning S} (laws : IsSqlite q m) where
  -- The parameters after a chain of bindings that has returned.
  abbrev pub AreBound : ℕ → List (ℕ × Value) → S → S × Option (Unit {0}) → Type 0
  AreBound st bs s o =
      SameTables m s o.0
      × SameStatements m st s o.0
      × (o.1 ≡ some tt → m.param st o.0 ≡ update_all (m.param st s) bs)

  pub bind_all-AreBound :
      (st : ℕ) (bs : List (ℕ × Value)) (s : S) → AreBound st bs s (bind_all q st bs s)
  unfolding bind_all bind
  bind_all-AreBound st [] s = (SameTables-refl m s, SameStatements-refl m st s, λ e. refl)
  bind_all-AreBound st ((i, v) ∷ bs) s = elim (Bool-cases (q.sqlite3_bind st i v s).1) [
    | inl bound ↦
        let (tables, statements, params) = bind_all-AreBound st bs (q.sqlite3_bind st i v s).0 in
        rw bound (
          SameTables-trans m (laws.bind_tables st i v s) tables,
          SameStatements-trans m (laws.bind_statements st i v s) statements,
          λ e. params e ∙ ap (λ p. update_all p bs) (laws.bind_param st i v s bound),
        )
    | inr failed ↦
        rw failed (laws.bind_tables st i v s, laws.bind_statements st i v s, λ e. ground arith)
  ]

  -- Binding parameters is no step.
  pub bind_all-fresh :
      (st : ℕ) (bs : List (ℕ × Value)) (s : S) → m.fresh st (bind_all q st bs s).0 ≡ m.fresh st s
  unfolding bind_all bind
  bind_all-fresh st [] s = refl
  bind_all-fresh st ((i, v) ∷ bs) s = elim (Bool-cases (q.sqlite3_bind st i v s).1) [
    | inl bound ↦
        rw bound (bind_all-fresh st bs (q.sqlite3_bind st i v s).0 ∙ laws.bind_fresh st i v s)
    | inr failed ↦ rw failed (laws.bind_fresh st i v s)
  ]

  -- After a reset the next step is a first one.
  pub reset-fresh : (st : ℕ) (s : S) → m.fresh st (reset q st s).0 ≡ true
  unfolding reset
  reset-fresh st s = laws.clear_fresh st (q.sqlite3_reset st s) ∙ laws.reset_fresh st s

  pub reset-SameTables : (st : ℕ) (s : S) → SameTables m s (reset q st s).0
  unfolding reset
  reset-SameTables st s =
      SameTables-trans m (laws.reset_tables st s) (laws.clear_tables st (q.sqlite3_reset st s))

  pub reset-SameStatements : (st : ℕ) (s : S) → SameStatements m st s (reset q st s).0
  unfolding reset
  reset-SameStatements st s =
      SameStatements-trans m (laws.reset_statements st s)
        (laws.clear_statements st (q.sqlite3_reset st s))

  -- What comes of the scope of a statement, from both ends of its constructor.
  pub with_stmt_after :
      {A : Type 0} (Q : S × Option A → Type 0) (sql : Sql) (body : ℕ → M S A) (s : S)
      → ((q.sqlite3_prepare_v2 sql s).1 ≡ none → Q ((q.sqlite3_prepare_v2 sql s).0, none))
      → ((st : ℕ)
          → (q.sqlite3_prepare_v2 sql s).1 ≡ some st
          → Q (
            q.sqlite3_finalize st (body st (q.sqlite3_prepare_v2 sql s).0).0,
            (body st (q.sqlite3_prepare_v2 sql s).0).1,
          ))
      → Q (with_stmt q sql body s)
  unfolding with_stmt
  with_stmt_after Q sql body s failed next = elim (Option-cases (q.sqlite3_prepare_v2 sql s).1) [
    | inl missing ↦ rw missing (failed missing)
    | inr (st, prepared) ↦ rw prepared (next st prepared)
  ]

  -- What comes of a step, from each of its codes.
  pub step_after :
      {B : Type 0} (Q : S × Option B → Type 0) (st : ℕ) (s : S) (f : Bool → M S B)
      → ((q.sqlite3_step st s).1 ≡ row → Q (f true (q.sqlite3_step st s).0))
      → ((q.sqlite3_step st s).1 ≡ done → Q (f false (q.sqlite3_step st s).0))
      → ((q.sqlite3_step st s).1 ≡ refused → Q ((q.sqlite3_step st s).0, none))
      → Q (continue f (step q st s))
  unfolding step
  step_after Q st s f found ended failed = elim (Code-cases (q.sqlite3_step st s).1) [
    | inl e ↦ rw e (found e)
    | inr (inl e) ↦ rw e (ended e)
    | inr (inr e) ↦ rw e (failed e)
  ]

  pub exec-state : (c : Command) (s : S) → (exec q c s).0 ≡ (q.sqlite3_exec c s).0
  unfolding exec
  exec-state c s = ok_or_throw-state (q.sqlite3_exec c s)

  -- What comes of a statement that is bound and stepped once: nothing has been done, or its step has
  -- been taken with its parameters in place.
  pub stepped_once :
      (Q : S × Option Bool → Type 0) (sql : Sql) (bs : List (ℕ × Value)) (s : S)
      → ((u : S) → SameTables m s u → Q (u, none))
      → ((st : ℕ) (p : ℕ → Value) (t : S)
          → SameTables m s t
          → m.holds st t ≡ some sql
          → m.fresh st t ≡ true
          → m.param st t ≡ update_all p bs
          → (u : S) → SameTables m (q.sqlite3_step st t).0 u
          → Q (u, (stepped (q.sqlite3_step st t)).1))
      → Q (with_stmt q sql (λ st. bind_all q st bs >> step q st) s)
  unfolding step
  stepped_once Q sql bs s early taken =
      with_stmt_after Q sql (λ st. bind_all q st bs >> step q st) s
        (λ missing. early _ (laws.prepare_tables sql s))
        (λ st prepared.
          let t : S = (q.sqlite3_prepare_v2 sql s).0 in
          let (tables, statements, params) = bind_all-AreBound st bs t in
          let same = SameTables-trans m (laws.prepare_tables sql s) tables in
          after (λ o. Q (q.sqlite3_finalize st o.0, o.1)) (bind_all q st bs t) (λ u. step q st)
            (λ failed. early _ (SameTables-trans m same (laws.finalize_tables st _)))
            (λ u bound.
              taken st (m.param st t) (bind_all q st bs t).0 same
                (statements.holds ∙ laws.prepare_holds sql s st prepared)
                (bind_all-fresh st bs t ∙ laws.prepare_fresh sql s st prepared) (params bound) _
                (rw stepped-state
                  (laws.finalize_tables st (q.sqlite3_step st (bind_all q st bs t).0).0))))
