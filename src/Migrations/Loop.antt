-- ===== src/Migrations/Loop.antt =====
-- The loop of `apply_migrations` over migrations that are in order.
use s_size_store.Prelude.{
  ℤ, ltb_ℤ, ◌≡◌, ◌∙◌, ◌⊎◌, inl, inr, refl, sym, arith, true, false, ◌&&◌, List, [], ◌∷◌, Option,
  none, some, All, list_eq, nat_eq, Bool-cases, ◌==◌, ==_iff, int_eq,
}
use s_size_store.Bytes.{Bytes}
use s_size_store.Migrations.{
  Migration, Database, Statements, run_script, record_version, try_migration, migrate, apply_from,
}
use s_size_store.Migrations.Ordered.{
  false-ne-true, none-ne-some, some_injective, le_trans, le_of_lt, AreFrom, IsSorted, has_version,
  has_version-AreFrom,
}

-- The versions rise strictly, from above `v`.
abbrev pub IsRising : ℤ → List Migration → Type 0
IsRising v [] = Unit
IsRising v (m ∷ ms) = (ltb_ℤ v m.version ≡ true) × IsRising m.version ms

module _ {S : Type 0} (exec : Statements S) where
  -- Migrations that are applied whole, one after another: each script has been run to its end, on what
  -- the one before has left, and the version is that of the file.
  pub data Run : List Migration → Database S → Database S → Type 0 where
    nothing : {db : Database S} → Run [] db db
    one :
        {db last : Database S} {ms : List Migration} (m : Migration) (sql : Bytes) (s : S)
        → m.contents ≡ some sql
        → exec.run sql db.content ≡ (s, true)
        → Run ms (record { version = m.version; content = s }) last
        → Run (m ∷ ms) db last

  -- A migration in its transaction has been applied whole, or has left no trace.
  Migrated : Migration → Database S → Type 0
  Migrated m db =
      ((sql : Bytes) × (s : S) × (m.contents ≡ some sql)
        × (exec.run sql db.content ≡ (s, true))
        × (migrate exec m db ≡ (record { version = m.version; content = s }, true)))
      ⊎ (migrate exec m db ≡ (db, false))

  migrate_cases :
      (v : ℤ) (c : Option Bytes) (db : Database S)
      → Migrated (record { version = v; contents = c }) db
  unfolding Migrated migrate try_migration run_script record_version
  migrate_cases v none db = inr (ground arith)
  migrate_cases v (some sql) db = elim (Bool-cases (exec.begins v)) [
    | inr refused ↦ inr (rw refused refl)
    | inl begun ↦ elim (Bool-cases (exec.run sql db.content).1) [
      | inr failed ↦ inr (rw (begun, failed) refl)
      | inl ran ↦ elim (Bool-cases (exec.sets v && exec.commits v)) [
        | inr failed ↦ inr (ground arith)
        | inl ended ↦ inl (
          sql,
          (exec.run sql db.content).0,
          refl,
          (λ i. ((exec.run sql db.content).0, ran i)),
          ground arith,
        )
      ]
    ]
  ]

  skips :
      (m : Migration) (ms : List Migration) (db : Database S)
      → ltb_ℤ db.version m.version ≡ false
      → apply_from exec (m ∷ ms) db.version db ≡ apply_from exec ms db.version db
  unfolding apply_from
  skips m ms db old = rw (old, apply_from) refl

  stops :
      (m : Migration) (ms : List Migration) (db : Database S)
      → ltb_ℤ db.version m.version ≡ true
      → migrate exec m db ≡ (db, false)
      → apply_from exec (m ∷ ms) db.version db ≡ (db, none)
  unfolding apply_from
  stops m ms db later failed = rw (later, failed, apply_from) refl

  goes_on :
      (m : Migration) (ms : List Migration) (db next : Database S)
      → ltb_ℤ db.version m.version ≡ true
      → migrate exec m db ≡ (next, true)
      → apply_from exec (m ∷ ms) db.version db ≡ apply_from exec ms m.version next
  unfolding apply_from
  goes_on m ms db next later ran = rw (later, ran, apply_from) refl

  -- What the loop does over the files that it is given.
  pub record Looped (P : Migration → Type 0) (ms : List Migration) (db : Database S)
      (o : Database S × Option ℤ) : Type 0 where
    pub chosen : List Migration
    pub run : Run chosen db o.0
    pub rising : IsRising db.version chosen
    pub from : All P chosen
    pub above : ltb_ℤ o.0.version db.version ≡ false
    pub gapless :
        (v : ℤ)
        → has_version v ms ≡ true
        → ltb_ℤ db.version v ≡ true
        → ltb_ℤ o.0.version v ≡ false
        → has_version v chosen ≡ true
    pub finished :
        (v : ℤ)
        → o.1 ≡ some v
        → (o.0.version ≡ v) × ((w : ℤ) → has_version w ms ≡ true → ltb_ℤ v w ≡ false)

  unchanged-Looped :
      (P : Migration → Type 0) (ms : List Migration) (db : Database S) → Looped P ms db (db, none)
  unchanged-Looped P ms db = record {
    chosen = [];
    run = nothing;
    rising = tt;
    from = tt;
    above = ground arith;
    gapless = λ v there later low. absurd (false-ne-true (sym low ∙ later));
    finished = λ v e. absurd (none-ne-some v e);
  }

  skipped-Looped :
      (P : Migration → Type 0) (m : Migration) (ms : List Migration) (db : Database S)
      (o : Database S × Option ℤ)
      → ltb_ℤ db.version m.version ≡ false
      → Looped P ms db o
      → Looped P (m ∷ ms) db o
  skipped-Looped P m ms db o old l = record {
    chosen = l.chosen;
    run = l.run;
    rising = l.rising;
    from = l.from;
    above = l.above;
    gapless = λ v there later low. l.gapless v (ground (arith, ==_iff m.version v)) later low;
    finished = λ v e.
        let (same, all) = l.finished v e in
        (
          same,
          λ w there. elim (Bool-cases (m.version == w)) [
            | inl this ↦
                let at_m : m.version ≡ w = (==_iff m.version w).0 this in
                let reached : ltb_ℤ v db.version ≡ false = rw (← same) l.above in
                rw (← at_m) (le_trans m.version db.version v old reached)
            | inr other ↦ all w (ground arith)
          ],
        );
  }

  applied-Looped :
      (P : Migration → Type 0) (m : Migration) (ms : List Migration) (db : Database S) (sql : Bytes)
      (s : S) (o : Database S × Option ℤ)
      → P m
      → AreFrom m.version ms
      → ltb_ℤ db.version m.version ≡ true
      → m.contents ≡ some sql
      → exec.run sql db.content ≡ (s, true)
      → Looped P ms (record { version = m.version; content = s }) o
      → Looped P (m ∷ ms) db o
  applied-Looped P m ms db sql s o good sorted later text ran l = record {
    chosen = m ∷ l.chosen;
    run = one m sql s text ran l.run;
    rising = (later, l.rising);
    from = (good, l.from);
    above = le_trans db.version m.version o.0.version (le_of_lt db.version m.version later) l.above;
    gapless = λ v there above low. elim (Bool-cases (m.version == v)) [
      | inl this ↦ ground arith
      | inr other ↦
          let rest : has_version v ms ≡ true = ground arith in
          let low_m = has_version-AreFrom v m.version ms sorted rest in
          let over : ltb_ℤ m.version v ≡ true = ground (arith, ==_iff m.version v) in
          let found = l.gapless v rest over low in ground arith
    ];
    finished = λ v e.
        let (same, all) = l.finished v e in
        (
          same,
          λ w there. elim (Bool-cases (m.version == w)) [
            | inl this ↦
                let at_m : m.version ≡ w = (==_iff m.version w).0 this in
                rw (← at_m) (rw (← same) l.above)
            | inr other ↦ all w (ground arith)
          ],
        );
  }

  pub apply_from-Looped :
      (P : Migration → Type 0) (ms : List Migration) (db : Database S)
      → IsSorted ms
      → All P ms
      → Looped P ms db (apply_from exec ms db.version db)
  unfolding apply_from Migrated
  apply_from-Looped P [] db sorted good = record {
    chosen = [];
    run = nothing;
    rising = tt;
    from = tt;
    above = ground arith;
    gapless = λ v there later low. cc;
    finished = λ v e. (some_injective e, λ w there. cc);
  }
  apply_from-Looped P (m ∷ ms) db (first, sorted) (g, good) =
      elim (Bool-cases (ltb_ℤ db.version m.version)) [
        | inr old ↦
            rw (skips m ms db old)
              (skipped-Looped P m ms db _ old (apply_from-Looped P ms db sorted good))
        | inl later ↦ elim (migrate_cases m.version m.contents db) [
          | inr failed ↦ rw (stops m ms db later failed) (unchanged-Looped P (m ∷ ms) db)
          | inl (sql, s, text, ran, done) ↦
              let next : Database S = record { version = m.version; content = s } in
              rw (goes_on m ms db next later done) (
                applied-Looped P m ms db sql s _ g first later text ran
                  (apply_from-Looped P ms next sorted good))
        ]
      ]
