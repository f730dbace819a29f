-- ===== src/Events/UserAgents.antt =====
-- The class of a client.
use mathlib.Core.List.{cons-ne-nil}
use s_size_store.Prelude.{
  ℕ, ◌≡◌, ◌⊎◌, inl, inr, refl, ap, Bool, true, false, List, [], ◌∷◌, map, arith, any, if◌then◌else◌,
  ◌↔◌,
}
use s_size_store.Bytes.{Bytes, codes, contains}
use s_size_store.Events.{to_lower, classify_ua, classify_lower, bot_markers, mobile_markers}

to_lower_idem : (c : ℕ) → to_lower (to_lower c) ≡ to_lower c
unfolding to_lower
to_lower_idem c = ground arith

map-to_lower_idem : (s : Bytes) → map to_lower (map to_lower s) ≡ map to_lower s
map-to_lower_idem [] = refl
map-to_lower_idem (c ∷ s) = cc (to_lower_idem c, map-to_lower_idem s)

-- The case of the letters does not matter.
pub classify_ua-to_lower : (ua : Bytes) → classify_ua (map to_lower ua) ≡ classify_ua ua
unfolding classify_ua
classify_ua-to_lower ua = ap classify_lower (map-to_lower_idem ua)

abbrev pub holds : List Bytes → Bytes → Bool
holds markers ua = any (contains (map to_lower ua)) markers

abbrev choose : Bool → Bool → Bytes
choose bot mobile = if bot then codes "bot" else if mobile then codes "mobile" else codes "desktop"

choose-bot : {P : Type 0} (b m : Bool) → ¬ P → (choose b m ≡ codes "bot") ↔ ((b ≡ true) ⊎ P)
choose-bot true m h = (λ e. inl refl, λ e. refl)
choose-bot false true h = (λ e. cc, λ e. elim e [ inl t ↦ cc | inr p ↦ absurd (h p) ])
choose-bot false false h = (λ e. cc, λ e. elim e [ inl t ↦ cc | inr p ↦ absurd (h p) ])

choose-mobile : (b m : Bool) → (choose b m ≡ codes "mobile") ↔ ((b ≡ false) × (m ≡ true))
choose-mobile true m = (λ e. cc, λ (e, _). cc)
choose-mobile false true = (λ e. (refl, refl), λ e. refl)
choose-mobile false false = (λ e. cc, λ (_, e). cc)

classify-choose :
    (c : ℕ) (s : Bytes)
    → classify_ua (c ∷ s) ≡ choose (holds bot_markers (c ∷ s)) (holds mobile_markers (c ∷ s))
unfolding classify_ua classify_lower
classify-choose c s = refl

-- A client is a bot exactly when its lower-case text holds a bot marker or is empty, and mobile
-- exactly when it holds a mobile marker and no bot marker; any other is a desktop.
pub classify_ua_cases :
    (ua : Bytes)
    → ((classify_ua ua ≡ codes "bot") ↔ ((holds bot_markers ua ≡ true) ⊎ (ua ≡ [])))
      × ((classify_ua ua ≡ codes "mobile")
          ↔ ((holds bot_markers ua ≡ false) × (holds mobile_markers ua ≡ true)))
classify_ua_cases [] =
    unfold classify_ua classify_lower contains in
    ((λ e. inr refl, λ e. refl), (λ e. cc, λ (_, e). cc))
classify_ua_cases (c ∷ s) =
    let bot = holds bot_markers (c ∷ s) in
    let mobile = holds mobile_markers (c ∷ s) in
    rw (classify-choose c s) (choose-bot bot mobile (cons-ne-nil c s), choose-mobile bot mobile)
