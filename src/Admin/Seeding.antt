-- ===== src/Admin/Seeding.antt =====
-- What a seed leaves in the tables.
use s_size_store.Prelude.{
  ℕ, ℤ, ◌≡◌, ◌≢◌, ◌∙◌, refl, ap, true, false, Bool, List, [], ◌∷◌, ◌++◌, Option, none, some, arith,
  All, any, length, Option-cases, inl, inr, ◌==◌, int_eq, nat_eq, list_eq, ==_iff, if◌then◌else◌,
}
use s_size_store.Bytes.{Bytes, codes}
use s_size_store.Models.{Item, Partner, TsMs}
use s_size_store.Db.Items.{PartnerRow, partner_of_row}
use s_size_store.Db.Admin.{Shelf, find_partner_by_code, partner_with_code}
use s_size_store.Admin.{Draw, Stock, Transaction, commit, seed_from, cmd_seed, rounds_of}
use s_size_store.Admin.Rows.{knows_partner}
use s_size_store.Admin.Rounds.{
  planned, seed_from_ok, AreDistinct, AreNew, IsDrawn, IsPlausible, planned-IsPlausible,
  length-planned,
}

partner_with_code-known :
    (code : Bytes) (ps : List PartnerRow) (r : PartnerRow)
    → partner_with_code code ps ≡ some r
    → any (λ p. p.id == r.id) ps ≡ true
unfolding partner_with_code
partner_with_code-known code [] r e = ground arith
partner_with_code-known code (p ∷ ps) r e =
    ground (arith, partner_with_code-known code ps r, ==_iff p.id r.id)

find_partner_by_code-known :
    (code : Bytes) (s : Shelf) (partner : Partner)
    → find_partner_by_code code s ≡ some partner
    → knows_partner partner.id s ≡ true
unfolding find_partner_by_code partner_of_row
find_partner_by_code-known code s partner e =
    elim (Option-cases (partner_with_code code s.partners)) [
      | inl missing ↦ let e' : none ≡ some partner = rw missing at e in cc
      | inr (r, found) ↦
          let e' : some (partner_of_row r) ≡ some partner = rw found at e in
          let same : r.id ≡ partner.id =
            ap (λ (o : Option Partner). elim o [ none ↦ r.id | some p ↦ p.id ]) e' in
          rw (← same) (partner_with_code-known code s.partners r found)
    ]

commit-kept :
    (commits : Bool) (s : Stock) (o : Option Stock)
    → (commit commits s o).1 ≢ some 0
    → (commit commits s o).0 ≡ s
commit-kept commits s none h = refl
commit-kept true s (some s') h = absurd (h refl)
commit-kept false s (some s') h = refl

begun-kept :
    (begins commits : Bool) (s : Stock) (o : Option Stock)
    → (if begins then commit commits s o else (s, none)).1 ≢ some 0
    → (if begins then commit commits s o else (s, none)).0 ≡ s
begun-kept true commits s o h = commit-kept commits s o h
begun-kept false commits s o h = refl

module _ (now : TsMs) (tr : Transaction) (draws : ℕ → Draw) (count : ℤ) (s : Stock) where
  seed_begun :
      (partner : Partner)
      → find_partner_by_code (codes "direct") s.shelf ≡ some partner
      → cmd_seed now tr draws count s ≡ (
          if tr.begins
          then commit tr.commits s (seed_from now partner draws (rounds_of count) 0 s)
          else (s, none))
  unfolding cmd_seed
  seed_begun partner found = rw (found, cmd_seed) refl

  -- A seed succeeds if there is a partner "direct", the draws are within the bounds of their
  -- distributions, the new items and images get keys that no row has, and sqlite refuses neither BEGIN
  -- nor COMMIT nor a statement between them for reasons of its own: no constraint of the tables refuses
  -- it then. Behind the items that are there it leaves exactly as many published ones as were asked for
  -- (none for a negative number), with plausible prices.
  pub cmd_seed_succeeds :
      (partner : Partner)
      → find_partner_by_code (codes "direct") s.shelf ≡ some partner
      → ((k : ℕ) → IsDrawn (draws k))
      → ((k : ℕ) → (draws k).refused ≡ false)
      → AreDistinct draws
      → AreNew now partner draws 0 s.shelf
      → tr.begins ≡ true
      → tr.commits ≡ true
      → ((cmd_seed now tr draws count s).1 ≡ some 0)
        × ((added : List Item) × ((cmd_seed now tr draws count s).0.shelf.items
              ≡ s.shelf.items ++ added)
            × (length added ≡ rounds_of count)
            × All IsPlausible added)
  cmd_seed_succeeds partner found drawn allowed distinct new begun committed =
      let n = rounds_of count in
      let (s', seeded, items, _) =
        seed_from_ok now partner draws n 0 s
          (find_partner_by_code-known (codes "direct") s.shelf partner found) allowed distinct
          new in
      let done : cmd_seed now tr draws count s ≡ (s', some 0) =
        seed_begun partner found
        ∙ ap
            (λ (b : Bool).
              if b then commit tr.commits s (seed_from now partner draws n 0 s) else (s, none))
            begun
        ∙ ap (commit tr.commits s) seeded
        ∙ ap (λ (b : Bool). commit b s (some s')) committed in
      (
        ap (λ (o : Stock × Option ℕ). o.1) done,
        (
          planned now partner draws n 0,
          (ap (λ (o : Stock × Option ℕ). o.0.shelf.items) done ∙ items),
          length-planned now partner draws n 0,
          planned-IsPlausible now partner draws n 0 drawn,
        ),
      )

  -- A seed that does not end with status 0 leaves all tables as they were, also one that breaks off in
  -- the middle.
  pub cmd_seed_rolls_back :
      (cmd_seed now tr draws count s).1 ≢ some 0 → (cmd_seed now tr draws count s).0 ≡ s
  unfolding cmd_seed
  cmd_seed_rolls_back h = elim (Option-cases (find_partner_by_code (codes "direct") s.shelf)) [
    | inl missing ↦ rw (missing, cmd_seed) refl
    | inr (partner, found) ↦
        let same = seed_begun partner found in
        ap (λ (o : Stock × Option ℕ). o.0) same
        ∙ begun-kept tr.begins tr.commits s _ (λ e. h (ap (λ (o : Stock × Option ℕ). o.1) same ∙ e))
  ]
