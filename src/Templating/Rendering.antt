-- ===== src/Templating/Rendering.antt =====
-- Which templates can be rendered.
use s_size_store.Prelude.{
  ◌≡◌, ◌≢◌, ◌∙◌, ◌↔◌, ◌⊎◌, refl, sym, ap, true, false, Bool, ◌&&◌, List, [], ◌∷◌, Option, none,
  some, any, Bool-cases, Option-cases, inl, inr, if◌then◌else◌, ◌==◌, ==_iff, list_eq, nat_eq,
  lookup, emplace, lookup-emplace,
}
use s_size_store.Bytes.{Bytes}
use s_size_store.Json.{Json}
use s_size_store.Templating.{PageEntry, is_template, parse_all, templating, render}

-- Is there a template of this name in the directory?
abbrev pub has_template : Bytes → List PageEntry → Bool
has_template name entries = any (λ e. is_template e && e.name == name) entries

none-ne-some {ℓ} : {A : Type ℓ} (a : A) → ◌≢◌ {A = Option A} none (some a)
none-ne-some a e = cc

some_injective {ℓ} : {A : Type ℓ} (a b : A) → some a ≡ some b → a ≡ b
some_injective a b e = cc

abbrev pub is_missing {ℓ} : {A : Type ℓ} → Option A → Bool
is_missing none = true
is_missing (some a) = false

module _ {T : Type 0} (parse_template : Bytes → Option T) (draw : T → Json → Option Bytes) where
  -- The three ways in which the loop goes on.
  skip-step :
      (e : PageEntry) (entries : List PageEntry) (cache : List (Bytes × T))
      → is_template e ≡ false
      → parse_all parse_template draw (e ∷ entries) cache
        ≡ parse_all parse_template draw entries cache
  unfolding parse_all
  skip-step e entries cache off = rw (off, parse_all) refl

  parsed-step :
      (e : PageEntry) (entries : List PageEntry) (cache : List (Bytes × T)) (t : T)
      → is_template e ≡ true
      → parse_template e.name ≡ some t
      → parse_all parse_template draw (e ∷ entries) cache
        ≡ parse_all parse_template draw entries (emplace e.name t cache)
  unfolding parse_all
  parsed-step e entries cache t it parsed = rw (it, parsed, parse_all) refl

  failed-step :
      (e : PageEntry) (entries : List PageEntry) (cache : List (Bytes × T))
      → is_template e ≡ true
      → parse_template e.name ≡ none
      → parse_all parse_template draw (e ∷ entries) cache ≡ none
  unfolding parse_all
  failed-step e entries cache it broken = rw (it, broken, parse_all) refl

  -- What is in the cache for a name is kept, if it is what the name parses to.
  kept :
      (name : Bytes) (e : PageEntry) (cache : List (Bytes × T)) (t : T)
      → parse_template e.name ≡ some t
      → lookup name cache ≡ parse_template name
      → lookup name (emplace e.name t cache) ≡ parse_template name
  kept name e cache t parsed h = elim (Bool-cases (e.name == name)) [
    | inl same ↦
        let eq : e.name ≡ name = (==_iff e.name name).0 same in
        let there : lookup e.name cache ≡ some t =
          ap (λ k. lookup k cache) eq ∙ h ∙ ap parse_template (sym eq) ∙ parsed in
        lookup-emplace e.name name t cache ∙ rw (same, there) (sym parsed ∙ ap parse_template eq)
    | inr other ↦ lookup-emplace e.name name t cache ∙ rw other h
  ]

  parse_all-kept :
      (name : Bytes) (entries : List PageEntry) (cache cache' : List (Bytes × T))
      → parse_all parse_template draw entries cache ≡ some cache'
      → lookup name cache ≡ parse_template name
      → lookup name cache' ≡ parse_template name
  unfolding parse_all
  parse_all-kept name [] cache cache' e h =
      let same : cache ≡ cache' = some_injective cache cache' e in rw (← same) h
  parse_all-kept name (x ∷ entries) cache cache' e h = elim (Bool-cases (is_template x)) [
    | inr off ↦ parse_all-kept name entries cache cache' (sym (skip-step x entries cache off) ∙ e) h
    | inl it ↦ elim (Option-cases (parse_template x.name)) [
      | inl broken ↦ absurd (none-ne-some cache' (sym (failed-step x entries cache it broken) ∙ e))
      | inr (t, parsed) ↦
          parse_all-kept name entries (emplace x.name t cache) cache'
            (sym (parsed-step x entries cache t it parsed) ∙ e) (kept name x cache t parsed h)
    ]
  ]

  parse_all-lookup :
      (name : Bytes) (entries : List PageEntry) (cache cache' : List (Bytes × T))
      → parse_all parse_template draw entries cache ≡ some cache'
      → lookup name cache ≡ none
      → lookup name cache' ≡ (if has_template name entries then parse_template name else none)
  unfolding parse_all
  parse_all-lookup name [] cache cache' e h =
      let same : cache ≡ cache' = some_injective cache cache' e in rw (← same) h
  parse_all-lookup name (x ∷ entries) cache cache' e h = elim (Bool-cases (is_template x)) [
    | inr off ↦
        parse_all-lookup name entries cache cache' (sym (skip-step x entries cache off) ∙ e) h
        ∙ rw (off, has_template) refl
    | inl it ↦ elim (Option-cases (parse_template x.name)) [
      | inl broken ↦ absurd (none-ne-some cache' (sym (failed-step x entries cache it broken) ∙ e))
      | inr (t, parsed) ↦
          let e' = sym (parsed-step x entries cache t it parsed) ∙ e in
          elim (Bool-cases (x.name == name)) [
            | inl same ↦
                let eq : x.name ≡ name = (==_iff x.name name).0 same in
                let first : lookup name (emplace x.name t cache) ≡ parse_template name =
                  lookup-emplace x.name name t cache
                  ∙ rw (same, ap (λ k. lookup k cache) eq ∙ h)
                      (sym parsed ∙ ap parse_template eq) in
                parse_all-kept name entries (emplace x.name t cache) cache' e' first
                ∙ rw (it, same, has_template) refl
            | inr other ↦
                parse_all-lookup name entries (emplace x.name t cache) cache' e'
                  (lookup-emplace x.name name t cache ∙ rw other h)
                ∙ rw (it, other, has_template) refl
          ]
    ]
  ]

  abbrev pub drawn : Option T → Json → Option Bytes
  drawn none value = none
  drawn (some t) value = draw t value

  render-drawn :
      (cache : List (Bytes × T)) (name : Bytes) (value : Json)
      → render parse_template draw cache name value ≡ drawn (lookup name cache) value
  unfolding render
  render-drawn cache name value = elim (Option-cases (lookup name cache)) [
    | inl missing ↦ rw (missing, render) refl
    | inr (t, there) ↦ rw (there, render) refl
  ]

  -- Once the templates are loaded, rendering a name is rendering what the file of that name parses to,
  -- if it is one of the regular .html files of the directory, and an exception otherwise; so the cache
  -- shows nothing but what parsing at each request would show.
  pub render_lem :
      (entries : List PageEntry) (cache : List (Bytes × T)) (name : Bytes) (value : Json)
      → templating parse_template draw (some entries) ≡ some cache
      → render parse_template draw cache name value
        ≡ drawn (if has_template name entries then parse_template name else none) value
  unfolding templating
  render_lem entries cache name value loaded =
      render-drawn cache name value
      ∙ ap (λ (o : Option T). drawn o value) (parse_all-lookup name entries [] cache loaded refl)

  -- Does the entry stand in the way of a start?
  abbrev pub is_broken : PageEntry → Bool
  is_broken e = is_template e && is_missing (parse_template e.name)

  nil-step : (cache : List (Bytes × T)) → parse_all parse_template draw [] cache ≡ some cache
  unfolding parse_all
  nil-step cache = refl

  parse_all-broken :
      (entries : List PageEntry) (cache : List (Bytes × T))
      → (parse_all parse_template draw entries cache ≡ none) ↔ (any is_broken entries ≡ true)
  parse_all-broken [] cache = (λ e. absurd (none-ne-some cache (sym e ∙ nil-step cache)), λ h. cc)
  parse_all-broken (x ∷ entries) cache = elim (Bool-cases (is_template x)) [
    | inr off ↦ rw (skip-step x entries cache off, is_broken, off) (parse_all-broken entries cache)
    | inl it ↦ elim (Option-cases (parse_template x.name)) [
      | inl broken ↦
          rw (failed-step x entries cache it broken, is_broken, it, broken) (λ e. refl, λ h. refl)
      | inr (t, parsed) ↦
          rw (parsed-step x entries cache t it parsed, is_broken, it, parsed)
            (parse_all-broken entries (emplace x.name t cache))
    ]
  ]

  -- The server is not made exactly if the directory is missing or one of its templates does not parse.
  pub templating_iff :
      (dir : Option (List PageEntry))
      → (templating parse_template draw dir ≡ none) ↔ (
          (dir ≡ none)
          ⊎ ((entries : List PageEntry) × (dir ≡ some entries) × (any is_broken entries ≡ true)))
  unfolding templating
  templating_iff none = (λ e. inl refl, λ h. refl)
  templating_iff (some entries) = (
    λ e. inr (entries, refl, (parse_all-broken entries []).0 e),
    λ h. elim h [
      | inl missing ↦ absurd (none-ne-some entries (sym missing))
      | inr (es, same, broken) ↦
          (parse_all-broken entries []).1
            (ap (λ l. any is_broken l) (some_injective entries es same) ∙ broken)
    ],
  )
