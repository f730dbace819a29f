-- ===== src/Migrations/Ordered.antt =====
-- The order in which the migrations are found: by rising versions.
use s_size_store.Prelude.{
  ℤ, ltb_ℤ, ◌≡◌, ◌≢◌, ◌∙◌, inl, inr, refl, arith, true, false, Bool, List, [], ◌∷◌, none, some, All,
  any, list_eq, nat_eq, Bool-cases, ◌==◌, ==_iff, int_eq,
}
use s_size_store.Migrations.{Migration, insert_migration, sort_migrations}

pub false-ne-true : false ≢ true
false-ne-true e = cc

pub none-ne-some {ℓ} : {A : Type ℓ} (a : A) → none ≢ some a
none-ne-some a e = cc

pub some_injective : {a b : ℤ} → some a ≡ some b → a ≡ b
some_injective e = ground arith

pub le_trans : (a b c : ℤ) → ltb_ℤ b a ≡ false → ltb_ℤ c b ≡ false → ltb_ℤ c a ≡ false
le_trans a b c h k = ground arith

pub le_of_lt : (a b : ℤ) → ltb_ℤ a b ≡ true → ltb_ℤ b a ≡ false
le_of_lt a b h = ground arith

-- No version of a list is below `v`.
abbrev pub AreFrom : ℤ → List Migration → Type 0
AreFrom v ms = All (λ m. ltb_ℤ m.version v ≡ false) ms

abbrev pub IsSorted : List Migration → Type 0
IsSorted [] = Unit
IsSorted (m ∷ ms) = AreFrom m.version ms × IsSorted ms

AreFrom-trans : (v w : ℤ) (ms : List Migration) → ltb_ℤ w v ≡ false → AreFrom w ms → AreFrom v ms
AreFrom-trans v w [] h k = tt
AreFrom-trans v w (m ∷ ms) h (k, ks) = (le_trans v w m.version h k, AreFrom-trans v w ms h ks)

insert_migration-AreFrom :
    (v : ℤ) (m : Migration) (ms : List Migration)
    → ltb_ℤ m.version v ≡ false
    → AreFrom v ms
    → AreFrom v (insert_migration m ms)
unfolding insert_migration
insert_migration-AreFrom v m [] h k = (h, tt)
insert_migration-AreFrom v m (n ∷ ms) h (k, ks) =
    ground (arith, insert_migration-AreFrom v m ms h ks)

insert_migration-IsSorted :
    (m : Migration) (ms : List Migration) → IsSorted ms → IsSorted (insert_migration m ms)
unfolding insert_migration
insert_migration-IsSorted m [] h = (tt, tt)
insert_migration-IsSorted m (n ∷ ms) (k, h) = elim (Bool-cases (ltb_ℤ n.version m.version)) [
  | inl later ↦
      rw (later, insert_migration)
        (
          insert_migration-AreFrom n.version m ms (le_of_lt n.version m.version later) k,
          insert_migration-IsSorted m ms h,
        )
  | inr first ↦
      rw (first, insert_migration) ((first, AreFrom-trans m.version n.version ms first k), (k, h))
]

pub sort_migrations-IsSorted : (ms : List Migration) → IsSorted (sort_migrations ms)
unfolding sort_migrations
sort_migrations-IsSorted [] = tt
sort_migrations-IsSorted (m ∷ ms) =
    insert_migration-IsSorted m (sort_migrations ms) (sort_migrations-IsSorted ms)

-- Is there a migration of a version?
abbrev pub has_version : ℤ → List Migration → Bool
has_version v ms = any (λ m. m.version == v) ms

has_version-insert :
    (v : ℤ) (m : Migration) (ms : List Migration)
    → has_version v (insert_migration m ms) ≡ has_version v (m ∷ ms)
unfolding insert_migration
has_version-insert v m [] = refl
has_version-insert v m (n ∷ ms) = ground (arith, has_version-insert v m ms)

pub has_version-sort :
    (v : ℤ) (ms : List Migration) → has_version v (sort_migrations ms) ≡ has_version v ms
unfolding sort_migrations
has_version-sort v [] = refl
has_version-sort v (m ∷ ms) =
    has_version-insert v m (sort_migrations ms) ∙ ground (arith, has_version-sort v ms)

pub has_version-AreFrom :
    (v w : ℤ) (ms : List Migration) → AreFrom w ms → has_version v ms ≡ true → ltb_ℤ v w ≡ false
has_version-AreFrom v w [] h e = cc
has_version-AreFrom v w (m ∷ ms) (h, hs) e =
    ground (arith, has_version-AreFrom v w ms hs, ==_iff m.version v)

insert_migration-All :
    (P : Migration → Type 0) (m : Migration) (ms : List Migration)
    → P m
    → All P ms
    → All P (insert_migration m ms)
unfolding insert_migration
insert_migration-All P m [] h hs = (h, tt)
insert_migration-All P m (n ∷ ms) h (k, hs) = elim (Bool-cases (ltb_ℤ n.version m.version)) [
  | inl later ↦ rw (later, insert_migration) (k, insert_migration-All P m ms h hs)
  | inr first ↦ rw (first, insert_migration) (h, (k, hs))
]

pub sort_migrations-All :
    (P : Migration → Type 0) (ms : List Migration) → All P ms → All P (sort_migrations ms)
unfolding sort_migrations
sort_migrations-All P [] h = tt
sort_migrations-All P (m ∷ ms) (h, hs) =
    insert_migration-All P m (sort_migrations ms) h (sort_migrations-All P ms hs)
