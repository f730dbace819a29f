-- ===== src/Sqlite/Sessions.antt =====
-- The scope of a connection, and the version of its schema.
use s_size_store.Prelude.{
  suc, ◌^◌, ◌-◌, ℤ, InRange, cast_signed, cast_signed-32, Bool, true, false, [], ◌&&◌, Option, none,
  some, ◌≡◌, ◌⊎◌, inl, inr, refl, ◌∙◌, ap, subst, if◌then◌else◌, Bool-cases, Option-cases,
}
use s_size_store.Bytes.{Bytes}
use s_size_store.Sqlite.{
  Sqlite, Command, journal_mode, foreign_keys, busy_timeout, set_version, select_version, M, ◌>>=◌,
  ◌>>◌, step, column_int,
}
use s_size_store.Sqlite.Connection.{
  exec, connect, with_conn, version_read, user_version, set_user_version,
}
use s_size_store.Sqlite.Laws.{IsSqlite}
use s_size_store.Sqlite.Effects.{Meaning, VersionStep}
use s_size_store.Sqlite.Scopes.{after, step_after, with_stmt_after, exec-state, checked_ok}
use s_size_store.Sqlite.Tidy.{IsTidy, >>-IsTidy, exec-IsTidy}

abbrev pub is_none : {A : Type 0} → Option A → Bool
is_none none = true
is_none (some a) = false

module _ {S : Type 0} {q : Sqlite S} {m : Meaning S} (laws : IsSqlite q m) where
  pub exec-connections : (c : Command) (s : S) → m.connections (exec q c s).0 ≡ m.connections s
  exec-connections c s = rw (exec-state laws) (laws.exec_connections c s)

  settings-connections :
      (s : S)
      → m.connections ((exec q journal_mode >> exec q foreign_keys >> exec q busy_timeout) s).0
        ≡ m.connections s
  settings-connections s =
      let Q : S × Option (Unit {0}) → Type 0 = λ o. m.connections o.0 ≡ m.connections s in
      let one = exec-connections journal_mode s in
      after Q (exec q journal_mode s) (λ _. exec q foreign_keys >> exec q busy_timeout)
        (λ failed. one)
        (λ u set.
          let two = exec-connections foreign_keys (exec q journal_mode s).0 ∙ one in
          after Q (exec q foreign_keys (exec q journal_mode s).0) (λ _. exec q busy_timeout)
            (λ failed. two) (λ v kept. exec-connections busy_timeout _ ∙ two))

  -- The constructor leaves no statement behind, if it opens its file.
  connect-live :
      (path : Bytes) (s : S)
      → (q.sqlite3_open path s).1 ≡ true
      → m.live (connect q path s).0 ≡ m.live s
  unfolding connect
  connect-live path s opened = rw opened (
      (>>-IsTidy laws (exec-IsTidy laws journal_mode)
          (>>-IsTidy laws (exec-IsTidy laws foreign_keys) (exec-IsTidy laws busy_timeout))).live
        (q.sqlite3_open path s).0
      ∙ laws.open_live path s)

  -- A constructor that fails to open its file closes it; any other leaves it open, also if it throws.
  connect-connections :
      (path : Bytes) (s : S)
      → m.connections (connect q path s).0
        ≡ (if (q.sqlite3_open path s).1 then suc (m.connections s) else m.connections s)
  unfolding connect
  connect-connections path s = elim (Bool-cases (q.sqlite3_open path s).1) [
    | inl opened ↦
        rw opened
          (settings-connections (q.sqlite3_open path s).0 ∙ laws.open_connections path s opened)
    | inr failed ↦ rw failed (laws.open_failed path s failed)
  ]

  -- A body that leaves the count of the connections alone.
  abbrev pub KeepsConnections : {A : Type 0} → M S A → Type 0
  KeepsConnections body = (s : S) → m.connections (body s).0 ≡ m.connections s

  refused-open :
      (path : Bytes) (s : S) → (q.sqlite3_open path s).1 ≡ false → (connect q path s).1 ≡ none
  unfolding connect
  refused-open path s failed = rw failed refl

  -- If sqlite keeps the laws and no statement is left from before, the scope of a connection around a
  -- body that leaves no statement behind and the count of connections alone closes its connection on
  -- every way out but one: where the file is opened and the constructor throws, as a PRAGMA is refused,
  -- the connection stays open.
  pub with_conn-connections :
      {A : Type 0} (path : Bytes) (body : M S A) (s : S)
      → IsTidy laws body
      → KeepsConnections body
      → m.live s ≡ []
      → m.connections (with_conn q path body s).0 ≡ (
          if (q.sqlite3_open path s).1 && is_none (connect q path s).1
          then suc (m.connections s)
          else m.connections s)
  unfolding with_conn
  with_conn-connections path body s tidy keeps none_left =
      elim (Bool-cases (q.sqlite3_open path s).1) [
        | inl opened ↦ elim (Option-cases (connect q path s).1) [
          | inl threw ↦
              let open_still = connect-connections path s in
              rw (opened, threw) (rw opened at open_still)
          | inr (u, connected) ↦
              let open_still = connect-connections path s in
              rw (opened, connected)
                (laws.close_connections (m.connections s) _
                  (tidy.live (connect q path s).0 ∙ connect-live path s opened ∙ none_left)
                  (keeps (connect q path s).0 ∙ (rw opened at open_still)))
        ]
        | inr failed ↦
            let closed = connect-connections path s in
            rw (failed, refused-open path s failed) (rw failed at closed)
      ]

  -- The version that has been set is read back, if it is an `int`.
  pub user_version-set :
      (v : ℤ) (s : S)
      → InRange (2 ^ 31 - 1) v
      → (set_user_version q v s).1 ≡ some tt
      → ((user_version q (set_user_version q v s).0).1 ≡ none)
        ⊎ ((user_version q (set_user_version q v s).0).1 ≡ some v)
  unfolding set_user_version user_version column_int exec
  user_version-set v s range set =
      let t : S = (exec q (set_version v) s).0 in
      let written : m.version t ≡ v =
        rw (exec-state laws)
          (laws.exec_version v s range (checked_ok (q.sqlite3_exec (set_version v) s) set)) in
      with_stmt_after laws (λ o. (o.1 ≡ none) ⊎ (o.1 ≡ some v)) select_version
        (λ st. step q st >>= version_read q st) t (λ missing. inl refl)
        (λ st prepared.
          let u : S = (q.sqlite3_prepare_v2 select_version t).0 in
          let law =
            laws.step_version st u (laws.prepare_holds select_version t st prepared)
              (laws.prepare_fresh select_version t st prepared) in
          step_after laws (λ o. (o.1 ≡ none) ⊎ (o.1 ≡ some v)) st u (version_read q st)
            (λ code.
              let cell = subst (VersionStep q m st u (q.sqlite3_step st u).0) code law in
              inr (
                ap some (
                  ap (cast_signed 32) (cell ∙ laws.prepare_version select_version t ∙ written)
                  ∙ cast_signed-32 v range)))
            (λ code. absurd (subst (VersionStep q m st u (q.sqlite3_step st u).0) code law))
            (λ code. inl refl))
