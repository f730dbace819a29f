-- ===== src/System/Requests.antt =====
-- What any number of requests leaves of the context.
use s_size_store.Prelude.{
  length, ◌≡◌, ◌∙◌, refl, ap, List, [], ◌∷◌, ◌++◌, append_assoc, append-nil, true, All, All-append,
  Bool-cases, inl, inr, leb,
}
use s_size_store.Bytes.{Bytes}
use s_size_store.Models.{Event}
use s_size_store.Events.{EventQueue, push_event, push_conversion}
use s_size_store.Http.{HttpRequest}
use s_size_store.Handlers.{Library, Draws, Context}
use s_size_store.Handlers.Files.{FileSystem}
use s_size_store.Handlers.Life.{Reaches, followed_by, request}
use s_size_store.Handlers.Dispatch.{dispatch}
use s_size_store.Handlers.Postback.{valid_status}
use s_size_store.Db.{known_status}
use s_size_store.Handlers.Dispatch.Keeping.{IsStable, dispatch-keeps}
use s_size_store.System.{Visit, serve}

-- A list that starts with another.
abbrev pub Extends {ℓ} : {A : Type ℓ} → List A → List A → Type ℓ
Extends {A} xs ys = (rest : List A) × (ys ≡ xs ++ rest)

pub Extends-refl {ℓ} : {A : Type ℓ} (xs : List A) → Extends xs xs
Extends-refl xs = ([], rw (append-nil xs) refl)

pub Extends-trans {ℓ} :
    {A : Type ℓ} (xs ys zs : List A) → Extends xs ys → Extends ys zs → Extends xs zs
Extends-trans xs ys zs (r, e) (q, f) = (r ++ q, f ∙ ap (λ l. l ++ q) e ∙ append_assoc xs r q)

-- The settings and the snapshot are kept; no pending event or conversion is lost or moved.
pub record IsAfter (start ctx : Context) : Type 0 where
  pub same_cfg : ctx.cfg ≡ start.cfg
  pub same_catalog : ctx.catalog ≡ start.catalog
  pub events : Extends start.events.pending ctx.events.pending
  pub conversions : Extends start.conversions.pending ctx.conversions.pending

IsAfter-refl : (ctx : Context) → IsAfter ctx ctx
IsAfter-refl ctx = record {
  same_cfg = refl;
  same_catalog = refl;
  events = Extends-refl ctx.events.pending;
  conversions = Extends-refl ctx.conversions.pending;
}

Extends-push :
    (xs : List Event) (ev : Event) (q : EventQueue)
    → Extends xs q.pending
    → Extends xs (push_event ev q).0.pending
unfolding push_event
Extends-push xs ev q h = elim (Bool-cases (leb q.max_pending (length q.pending))) [
  | inl full ↦ rw (full, push_event) h
  | inr room ↦
      rw (room, push_event) (Extends-trans xs q.pending (q.pending ++ ev ∷ []) h (ev ∷ [], refl))
]

IsAfter-IsStable : (start : Context) → IsStable (IsAfter start)
unfolding push_conversion
IsAfter-IsStable start = record {
  event = λ ev ctx h. record {
    same_cfg = h.same_cfg;
    same_catalog = h.same_catalog;
    events = Extends-push start.events.pending ev ctx.events h.events;
    conversions = h.conversions;
  };
  conversion = λ conv ctx valid h. record {
    same_cfg = h.same_cfg;
    same_catalog = h.same_catalog;
    events = h.events;
    conversions =
        Extends-trans start.conversions.pending ctx.conversions.pending _ h.conversions
          (conv ∷ [], refl);
  };
}

dispatch-IsAfter :
    (lib : Library) (fs : FileSystem) (draws : Draws) (req : HttpRequest) (client_ip : Bytes)
    (ctx : Context)
    → IsAfter ctx (dispatch lib fs draws req client_ip ctx).0
dispatch-IsAfter lib fs draws req client_ip ctx =
    dispatch-keeps (IsAfter ctx) (IsAfter-IsStable ctx)
      (λ c owner cache h. record {
        same_cfg = h.same_cfg;
        same_catalog = h.same_catalog;
        events = h.events;
        conversions = h.conversions;
      })
      lib fs draws req client_ip ctx (IsAfter-refl ctx)

-- The statuses of the pending conversions are those that the table admits.
abbrev pub AreKnown : Context → Type 0
AreKnown ctx = All (λ c. known_status c.status ≡ true) ctx.conversions.pending

known_of_valid : (status : Bytes) → valid_status status ≡ true → known_status status ≡ true
unfolding valid_status known_status
known_of_valid status h = h

AreKnown-IsStable : IsStable AreKnown
unfolding push_conversion
AreKnown-IsStable = record {
  event = λ ev ctx h. h;
  conversion = λ conv ctx valid h.
      All-append (λ c. known_status c.status ≡ true) ctx.conversions.pending (conv ∷ []) h
        (known_of_valid conv.status valid, tt);
}

pub dispatch-AreKnown :
    (lib : Library) (fs : FileSystem) (draws : Draws) (req : HttpRequest) (client_ip : Bytes)
    (ctx : Context)
    → AreKnown ctx
    → AreKnown (dispatch lib fs draws req client_ip ctx).0
dispatch-AreKnown lib fs draws req client_ip ctx h =
    dispatch-keeps AreKnown AreKnown-IsStable (λ c owner cache k. k) lib fs draws req client_ip ctx
      h

module _ (lib : Library) (fs : FileSystem) where
  pub serve-IsAfter : (vs : List Visit) (ctx : Context) → IsAfter ctx (serve lib fs vs ctx)
  unfolding serve
  serve-IsAfter [] ctx = IsAfter-refl ctx
  serve-IsAfter (v ∷ vs) ctx =
      let ctx' : Context = (dispatch lib fs v.draws v.request v.client_ip ctx).0 in
      let first = dispatch-IsAfter lib fs v.draws v.request v.client_ip ctx in
      let rest = serve-IsAfter vs ctx' in
      record {
        same_cfg = rest.same_cfg ∙ first.same_cfg;
        same_catalog = rest.same_catalog ∙ first.same_catalog;
        events = Extends-trans ctx.events.pending ctx'.events.pending _ first.events rest.events;
        conversions =
            Extends-trans ctx.conversions.pending ctx'.conversions.pending _ first.conversions
              rest.conversions;
      }

  pub serve-Reaches :
      (start : Context) (vs : List Visit) (ctx : Context)
      → Reaches lib start ctx
      → Reaches lib start (serve lib fs vs ctx)
  unfolding serve
  serve-Reaches start [] ctx run = run
  serve-Reaches start (v ∷ vs) ctx run =
      serve-Reaches start vs _ (followed_by run (request fs v.draws v.request v.client_ip ctx))

  -- Every conversion that a postback puts into the buffer has a status that the table admits.
  pub serve-AreKnown :
      (vs : List Visit) (ctx : Context) → AreKnown ctx → AreKnown (serve lib fs vs ctx)
  unfolding serve
  serve-AreKnown [] ctx h = h
  serve-AreKnown (v ∷ vs) ctx h =
      serve-AreKnown vs _ (dispatch-AreKnown lib fs v.draws v.request v.client_ip ctx h)
