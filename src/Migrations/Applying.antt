-- ===== src/Migrations/Applying.antt =====
-- What applying the migrations of a directory guarantees.
use s_size_store.Prelude.{
  ℤ, ltb_ℤ, ◌≡◌, ◌∙◌, ◌⊎◌, inl, inr, refl, arith, true, false, Bool, ◌&&◌, List, [], ◌∷◌, Option,
  none, some, All, any, All-map, list_eq, nat_eq, ==_refl, Option-cases, Bool-cases, ◌==◌, int_eq,
}
use s_size_store.Bytes.{codes}
use s_size_store.Handlers.Files.{extension}
use s_size_store.Migrations.{
  Entry, Migration, Database, Statements, collect, version_of, sort_migrations, discover,
  apply_found, apply_migrations,
}
use s_size_store.Migrations.Ordered.{
  none-ne-some, sort_migrations-IsSorted, has_version, has_version-sort, sort_migrations-All,
}
use s_size_store.Migrations.Loop.{IsRising, Run, nothing, apply_from-Looped}

-- Is a file a migration of a version?
abbrev pub is_version : ℤ → Entry → Bool
is_version v e =
    e.is_regular
    && (extension e.name == codes ".sql"
        && elim (version_of e.name) [ none ↦ false | some w ↦ w == v ])

-- Some file of a directory gives a migration its version and its script.
abbrev pub ComesFrom : List Entry → Migration → Type 0
ComesFrom [] m = ⊥
ComesFrom (e ∷ entries) m =
    ((is_version m.version e ≡ true) × (e.contents ≡ m.contents)) ⊎ ComesFrom entries m

has_version-collect :
    (v : ℤ) (entries : List Entry) → has_version v (collect entries) ≡ any (is_version v) entries
unfolding collect
has_version-collect v [] = refl
has_version-collect v (e ∷ entries) = elim (Option-cases (version_of e.name)) [
  | inl nameless ↦ rw nameless (ground (arith, has_version-collect v entries))
  | inr (w, named) ↦ rw named (ground (arith, has_version-collect v entries))
]

collect-ComesFrom : (entries : List Entry) → All (ComesFrom entries) (collect entries)
unfolding collect
collect-ComesFrom [] = tt
collect-ComesFrom (e ∷ entries) =
    let rest = All-map (collect entries) (λ m h. inr h) (collect-ComesFrom entries) in
    elim (Bool-cases (e.is_regular && extension e.name == codes ".sql")) [
      | inr other ↦ rw other rest
      | inl script ↦ elim (Option-cases (version_of e.name)) [
        | inl nameless ↦ rw (script, nameless) rest
        | inr (w, named) ↦ rw (script, named) ((inl ((ground (arith, ==_refl w)), refl), rest))
      ]
    ]

abbrev pub files : Option (List Entry) → List Entry
files none = []
files (some entries) = entries

module _ {S : Type 0} (exec : Statements S) where
  -- What has been applied: some of the migrations of a directory, each whole.
  pub record AreApplied (entries : List Entry) (db : Database S) (o : Database S × Option ℤ)
      : Type 0 where
    pub chosen : List Migration
    pub run : Run exec chosen db o.0
    pub rising : IsRising db.version chosen
    pub from : All (ComesFrom entries) chosen
    pub gapless :
        (v : ℤ)
        → any (is_version v) entries ≡ true
        → ltb_ℤ db.version v ≡ true
        → ltb_ℤ o.0.version v ≡ false
        → has_version v chosen ≡ true
    pub finished :
        (v : ℤ)
        → o.1 ≡ some v
        → (o.0.version ≡ v) × ((w : ℤ) → any (is_version w) entries ≡ true → ltb_ℤ v w ≡ false)

  apply_found-AreApplied :
      (dir : Option (List Entry)) (db : Database S)
      → AreApplied (files dir) db (apply_found exec (discover dir) db)
  unfolding discover
  apply_found-AreApplied none db = record {
    chosen = [];
    run = nothing;
    rising = tt;
    from = tt;
    gapless = λ v there later low. cc;
    finished = λ v e. absurd (none-ne-some v e);
  }
  apply_found-AreApplied (some entries) db =
      let ms = sort_migrations (collect entries) in
      let known : (v : ℤ) → has_version v ms ≡ any (is_version v) entries =
        λ v. has_version-sort v (collect entries) ∙ has_version-collect v entries in
      let l =
        apply_from-Looped exec (ComesFrom entries) ms db
          (sort_migrations-IsSorted (collect entries))
          (sort_migrations-All (ComesFrom entries) (collect entries) (collect-ComesFrom entries)) in
      record {
        chosen = l.chosen;
        run = l.run;
        rising = l.rising;
        from = l.from;
        gapless = λ v there. l.gapless v (known v ∙ there);
        finished =
            λ v e. let (same, all) = l.finished v e in (same, λ w there. all w (known w ∙ there));
      }

  -- Applying the migrations runs scripts of the directory, each to its end and in a transaction of its
  -- own, by versions that rise from above that of the database, and leaves out no version between that
  -- and the one in which the database is left, also if one of them fails: of a failing one nothing
  -- remains. If a version is returned, it is that of the database, and no file has a later one.
  pub apply_migrations-AreApplied :
      (dir : Option (List Entry)) (db : Database S)
      → AreApplied (files dir) db (apply_migrations exec dir db)
  unfolding apply_migrations
  apply_migrations-AreApplied dir db = apply_found-AreApplied dir db
