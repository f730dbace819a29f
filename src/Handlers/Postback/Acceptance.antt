-- ===== src/Handlers/Postback/Acceptance.antt =====
-- Which postbacks are recorded.
use s_size_store.Prelude.{
  ℕ, ◌≡◌, ◌≢◌, ◌∙◌, ◌⊎◌, ◌↔◌, inl, inr, refl, sym, ap, true, false, [], ◌∷◌, Option, none, some,
  arith, Bool-cases, Option-cases, ==_iff, lookup, list_eq, nat_eq, length,
}
use s_size_store.Bytes.{Bytes, codes, is_empty}
use s_size_store.Models.{Kopek}
use s_size_store.Query.{Query}
use s_size_store.Events.{Conversion, push_conversion}
use s_size_store.Http.{HttpResponse, set_header}
use s_size_store.Handlers.{Library, Draws, Context, Outcome, text_response}
use s_size_store.Handlers.Postback.{
  signed, valid_status, amount_of, conversion_of, record_postback, postback_for, some_token,
  handle_postback,
}

signed_iff : (o : Option Bytes) (secret : Bytes) → (signed o secret ≡ true) ↔ (o ≡ some secret)
unfolding signed
signed_iff none secret = ground arith
signed_iff (some sign) secret =
    ground (
      arith,
      ==_iff sign secret,
      ==_iff (length sign) (length secret),
      ap (λ (s : Bytes). length s),
    )

-- The postback carries the shared secret, names a token, its amount is missing or a number, and its
-- status is one of the three words.
pub record IsAccepted (lib : Library) (draws : Draws) (q : Query) (secret : Bytes) : Type 0 where
  pub subid : Bytes
  pub amount : Option Kopek
  pub configured : secret ≢ []
  pub proves : lookup (codes "sign") q ≡ some secret
  pub names : lookup (codes "subid") q ≡ some subid
  pub some_subid : subid ≢ []
  pub readable : amount_of lib (lookup (codes "amount") q) ≡ some amount
  pub known_status : valid_status (conversion_of draws q subid amount).status ≡ true

abbrev pub ok_answer : HttpResponse
ok_answer = text_response 200 (codes "ok")

is_empty-eq-true : (s : Bytes) → is_empty s ≡ true → s ≡ []
is_empty-eq-true [] h = refl
is_empty-eq-true (c ∷ s) h = cc

is_empty-eq-false : (s : Bytes) → s ≢ [] → is_empty s ≡ false
is_empty-eq-false [] h = absurd (h refl)
is_empty-eq-false (c ∷ s) h = refl

ne-nil_of_is_empty : (s : Bytes) → is_empty s ≡ false → s ≢ []
ne-nil_of_is_empty [] h = cc
ne-nil_of_is_empty (c ∷ s) h = cc

some_token_sound : (o : Option Bytes) (s : Bytes) → some_token o ≡ some s → (o ≡ some s) × (s ≢ [])
some_token_sound none s h = cc
some_token_sound (some t) s h = elim (Bool-cases (is_empty t)) [
  | inl nil ↦ let h' : none ≡ some s = rw (nil, some_token) at h in cc
  | inr other ↦
      let same : t ≡ s = ground arith in (rw same refl, rw (← same) (ne-nil_of_is_empty t other))
]

some_token_complete : (s : Bytes) → s ≢ [] → some_token (some s) ≡ some s
some_token_complete s h = rw (is_empty-eq-false s h) refl

module _ (lib : Library) (draws : Draws) (q : Query) (ctx : Context) where
  abbrev secret : Bytes
  secret = ctx.cfg.postback_secret

  authenticated :
      (subid : Bytes)
      → is_empty secret ≡ false
      → signed (lookup (codes "sign") q) secret ≡ true
      → some_token (lookup (codes "subid") q) ≡ some subid
      → handle_postback lib draws q ctx ≡ postback_for lib draws q subid ctx
  unfolding handle_postback
  authenticated subid e f g = rw (e, f, g) refl

  counted :
      (subid : Bytes) (amount : Option Kopek)
      → amount_of lib (lookup (codes "amount") q) ≡ some amount
      → postback_for lib draws q subid ctx
        ≡ record_postback (conversion_of draws q subid amount) ctx
  unfolding postback_for
  counted subid amount e = rw (e, postback_for) refl

  recorded :
      (conv : Conversion)
      → valid_status conv.status ≡ true
      → record_postback conv ctx
        ≡ (record ctx { conversions = (push_conversion conv ctx.conversions).0 }, some ok_answer)
  unfolding record_postback
  recorded conv e = rw e refl

  -- An accepted postback is answered by 200, and its conversion is put behind the pending ones.
  pub handle_postback_accepts :
      (a : IsAccepted lib draws q secret)
      → handle_postback lib draws q ctx ≡ (
        record ctx {
          conversions =
              (push_conversion (conversion_of draws q a.subid a.amount) ctx.conversions).0;
        },
        some ok_answer,
      )
  handle_postback_accepts a =
      authenticated a.subid (is_empty-eq-false secret a.configured)
        ((signed_iff _ secret).1 a.proves) (rw a.names (some_token_complete a.subid a.some_subid))
      ∙ counted a.subid a.amount a.readable
      ∙ recorded (conversion_of draws q a.subid a.amount) a.known_status

  -- One of the error responses, and a context that is left alone.
  abbrev pub IsRefusal : Type 0
  IsRefusal =
      (status : ℕ) × (body : Bytes) × (status ≢ 200)
      × (handle_postback lib draws q ctx ≡ (ctx, some (text_response status body)))

  amount_cases :
      (subid : Bytes)
      → is_empty secret ≡ false
      → signed (lookup (codes "sign") q) secret ≡ true
      → some_token (lookup (codes "subid") q) ≡ some subid
      → IsAccepted lib draws q secret ⊎ IsRefusal
  amount_cases subid e f g = elim (Option-cases (amount_of lib (lookup (codes "amount") q))) [
    | inl unreadable ↦ inr (
      400,
      codes "bad amount",
      (omega arith),
      (authenticated subid e f g ∙ unfold postback_for in rw (unreadable, postback_for) refl),
    )
    | inr (amount, readable) ↦
        elim (Bool-cases (valid_status (conversion_of draws q subid amount).status)) [
          | inl known ↦
              let (names, some_subid) = some_token_sound _ subid g in
              inl (record {
                subid = subid;
                amount = amount;
                configured = ne-nil_of_is_empty secret e;
                proves = (signed_iff _ secret).0 f;
                names = names;
                some_subid = some_subid;
                readable = readable;
                known_status = known;
              })
          | inr unknown ↦ inr (
            400,
            codes "bad status",
            (omega arith),
            (authenticated subid e f g
                ∙ counted subid amount readable
                ∙ unfold record_postback in rw unknown refl),
          )
        ]
  ]

  pub handle_postback_cases : IsAccepted lib draws q secret ⊎ IsRefusal
  handle_postback_cases = elim (Bool-cases (is_empty secret)) [
    | inl nil ↦
        inr (503, codes "not configured", (omega arith), (unfold handle_postback in rw nil refl))
    | inr e ↦ elim (Bool-cases (signed (lookup (codes "sign") q) secret)) [
      | inr bad ↦
          inr (
            403,
            codes "bad signature",
            (omega arith),
            (unfold handle_postback in rw (e, bad) refl),
          )
      | inl f ↦ elim (Option-cases (some_token (lookup (codes "subid") q))) [
        | inl missing ↦ inr (
          400,
          codes "missing subid",
          (omega arith),
          (unfold handle_postback in rw (e, f, missing) refl),
        )
        | inr (subid, g) ↦ amount_cases subid e f g
      ]
    ]
  ]

  text_response-status :
      (status : ℕ) (body : Bytes) → text_response status body ≡ ok_answer → status ≡ 200
  unfolding text_response set_header
  text_response-status status body e = ap (λ (r : HttpResponse). r.status) e

  refusal-ne-ok_answer : IsRefusal → (handle_postback lib draws q ctx).1 ≢ some ok_answer
  refusal-ne-ok_answer (status, body, other, e) h =
      let same : some (text_response status body) ≡ some ok_answer =
        sym (ap (λ (o : Outcome). o.1) e) ∙ h in
      other (text_response-status status body (cc))

  -- A postback is answered by 200 exactly when it carries the configured secret, names a token, and
  -- its amount and status can be read.
  pub handle_postback_iff :
      ((handle_postback lib draws q ctx).1 ≡ some ok_answer) ↔ IsAccepted lib draws q secret
  handle_postback_iff = (
    λ h. elim handle_postback_cases [ inl a ↦ a | inr r ↦ absurd (refusal-ne-ok_answer r h) ],
    λ a. ap (λ (o : Outcome). o.1) (handle_postback_accepts a),
  )

  -- A postback that is not answered by 200 leaves the context as it was.
  pub handle_postback_refuses :
      (handle_postback lib draws q ctx).1 ≢ some ok_answer
      → (handle_postback lib draws q ctx).0 ≡ ctx
  handle_postback_refuses h = elim handle_postback_cases [
    | inl a ↦ absurd (h (ap (λ (o : Outcome). o.1) (handle_postback_accepts a)))
    | inr (_, _, _, e) ↦ ap (λ (o : Outcome). o.0) e
  ]
