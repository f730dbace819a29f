-- ===== src/System/Journey.antt =====
-- From a click to the order that the partner reports.
use s_size_store.Prelude.{
  ℤ, ◌==◌, ◌<◌, ◌≡◌, ◌≢◌, ◌∙◌, refl, subst, sym, ap, true, false, ◌||◌, Bool, List, [], ◌∷◌, ◌++◌,
  Option, some, arith, any, All, All-append_right, length, list_eq, nat_eq, ==_refl,
}
use s_size_store.Bytes.{Bytes, is_empty}
use s_size_store.Models.{Partner, Event, Item, Kopek}
use s_size_store.Query.{Query}
use s_size_store.Links.{make_click_token}
use s_size_store.Catalog
use s_size_store.Events.{EventQueue, Conversion, push_event, push_conversion}
use s_size_store.Http.{HttpRequest, HttpResponse}
use s_size_store.Db.{has_token, ConversionRow}
use s_size_store.Db.Batches.{IsTokenSet}
use s_size_store.Db.Pruning.{any-append}
use s_size_store.Worker.Settling.{none_refused, settled, has_order}
use s_size_store.Config.{Config}
use s_size_store.Handlers.{Library, Draws, Context, Identity, Outcome}
use s_size_store.Handlers.Files.{FileSystem}
use s_size_store.Handlers.Pages.{handle_redirect}
use s_size_store.Handlers.Pages.Clicks.{redirect_found-IsClick, IsClick}
use s_size_store.Handlers.Postback.{handle_postback, conversion_of}
use s_size_store.Handlers.Postback.Acceptance.{IsAccepted, handle_postback_accepts}
use s_size_store.System.{System, Round, Visit, serve, round}
use s_size_store.System.Requests.{Extends, AreKnown, serve-IsAfter}
use s_size_store.System.Delivery.{round-IsDelivered, filled}

settled_order :
    (events : List Event) (rows : List ConversionRow) (c : Conversion)
    → any (has_token c.click_token) events ≡ true
    → is_empty c.order_ref ≡ false
    → settled events rows c ≡ true
    → has_order c.order_ref rows ≡ true
settled_order events rows c known named h = ground arith

-- A click with this token is pending or in the table.
abbrev pub was_clicked : Bytes → System → Bool
was_clicked token s =
    any (has_token token) s.tables.events || any (has_token token) s.ctx.events.pending

any-batch :
    (token : Bytes) (xs ys zs : List Event)
    → (any (has_token token) xs || any (has_token token) ys) ≡ true
    → any (has_token token) (xs ++ (ys ++ zs)) ≡ true
any-batch token xs ys zs h =
    ground (arith, any-append (has_token token) xs (ys ++ zs), any-append (has_token token) ys zs)

-- The token of a click that finds room in the buffer is one of the pending ones from then on.
push-clicked :
    (token : Bytes) (ev : Event) (q : EventQueue)
    → ev.click_token ≡ token
    → is_empty token ≡ false
    → length q.pending < q.max_pending
    → any (has_token token) (push_event ev q).0.pending ≡ true
unfolding push_event has_token
push-clicked token ev q same some_token room = ground (
  arith,
  any-append (has_token token) q.pending (ev ∷ []),
  ==_refl token,
  ap (λ (t : Bytes). is_empty t) same,
  ap (λ (t : Bytes). t == token) same,
)

Extends-clicked :
    (token : Bytes) (xs ys : List Event)
    → Extends xs ys
    → any (has_token token) xs ≡ true
    → any (has_token token) ys ≡ true
Extends-clicked token xs ys (rest, e) h =
    rw e (ground (arith, any-append (has_token token) xs rest))

module _ (lib : Library) (fs : FileSystem) (r : Round) (s : System) where
  -- A postback that is pending when an undisturbed round begins has its row when the round ends, if it
  -- names an order and its click is pending or in the table.
  pub round-has_order :
      (before : List Conversion) (c : Conversion)
      → s.ctx.conversions.pending ≡ before ++ c ∷ []
      → was_clicked c.click_token s ≡ true
      → is_empty c.order_ref ≡ false
      → r.refused ≡ none_refused
      → IsTokenSet (filled lib fs r s).tables.events (filled lib fs r s).ctx.events.pending
      → AreKnown s.ctx
      → has_order c.order_ref (round lib fs r s).tables.conversions ≡ true
  round-has_order before c pending clicked named undisturbed tokens known =
      let done = round-IsDelivered lib fs r s undisturbed tokens known in
      let rows = (round lib fs r s).tables.conversions in
      let evs = s.tables.events ++ (s.ctx.events.pending ++ done.rest) in
      let all = subst (λ cs. All (λ k. settled evs rows k ≡ true) cs) pending done.all_settled in
      settled_order evs rows c
        (any-batch c.click_token s.tables.events s.ctx.events.pending done.rest clicked) named
        (All-append_right _ before (c ∷ []) all).0

is_empty-ne : (s : Bytes) → s ≢ [] → is_empty s ≡ false
is_empty-ne [] h = absurd (h refl)
is_empty-ne (c ∷ s) h = refl

IsClick-clicked :
    (lib : Library) (draws : Draws) (id : Identity) (req : HttpRequest) (client_ip : Bytes)
    (item_id : ℤ) (q : Query) (item : Item) (seller : Option Partner) (ctx ctx' : Context)
    (res : HttpResponse) (token : Bytes)
    → IsClick lib draws id req client_ip item_id q item seller ctx ctx' res
    → token ≡ make_click_token draws.token_raw
    → is_empty token ≡ false
    → length ctx.events.pending < ctx.events.max_pending
    → any (has_token token) ctx'.events.pending ≡ true
IsClick-clicked lib draws id req client_ip item_id q item seller ctx ctx' res token click same
      nonempty room =
    ap (λ (c : Context). any (has_token token) c.events.pending) click.pushed
    ∙ push-clicked token click.event ctx.events (click.token ∙ sym same) nonempty room

-- What an accepted postback leaves in the buffers.
accepted_pending :
    (lib : Library) (draws : Draws) (q : Query) (ctx : Context)
    (a : IsAccepted lib draws q ctx.cfg.postback_secret) (after : Context)
    → after ≡ (handle_postback lib draws q ctx).0
    → (after.conversions.pending
        ≡ ctx.conversions.pending ++ conversion_of draws q a.subid a.amount ∷ [])
      × (after.events ≡ ctx.events)
accepted_pending lib draws q ctx a after at_work =
    let accepted =
      at_work ∙ ap (λ (o : Outcome). o.0) (handle_postback_accepts lib draws q ctx a) in
    (
      ap (λ (c : Context). c.conversions.pending) accepted ∙ unfold push_conversion in refl,
      ap (λ (c : Context). c.events) accepted,
    )

clicked_somewhere :
    (token : Bytes) (s : System)
    → any (has_token token) s.ctx.events.pending ≡ true
    → was_clicked token s ≡ true
clicked_somewhere token s h = ground arith

conversion_clicked :
    (draws : Draws) (q : Query) (subid : Bytes) (amount : Option Kopek) (s : System)
    → any (has_token subid) s.ctx.events.pending ≡ true
    → was_clicked (conversion_of draws q subid amount).click_token s ≡ true
unfolding conversion_of
conversion_clicked draws q subid amount s h = clicked_somewhere subid s h

-- A sale is credited: a visitor clicks on an item while there is room for the event, other requests
-- follow, and then comes an accepted postback that names the token of the click and an order. The next
-- round of the database thread, if sqlite does not disturb it and the tokens of the pending events are
-- new, ends with a row for that order, whatever else is pending and is requested meanwhile.
pub click_is_credited :
    (lib : Library) (fs : FileSystem) (id : Identity) (click_draws : Draws) (click : HttpRequest)
    (client_ip : Bytes) (item_id : ℤ) (q : Query) (item : Item) (ctx : Context)
    (meanwhile : List Visit) (draws : Draws) (report : Query) (r : Round) (s : System)
    → Catalog.find ctx.catalog.snapshot item_id ≡ some item
    → length ctx.events.pending < ctx.events.max_pending
    → let clicked = (handle_redirect lib click_draws id click client_ip item_id q ctx).0 in
      let later = serve lib fs meanwhile clicked in
      (a : IsAccepted lib draws report ctx.cfg.postback_secret)
      → a.subid ≡ make_click_token click_draws.token_raw
      → (conversion_of draws report a.subid a.amount).order_ref ≢ []
      → s.ctx ≡ (handle_postback lib draws report later).0
      → r.refused ≡ none_refused
      → IsTokenSet (filled lib fs r s).tables.events (filled lib fs r s).ctx.events.pending
      → AreKnown s.ctx
      → has_order
          (conversion_of draws report a.subid a.amount).order_ref
          (round lib fs r s).tables.conversions
        ≡ true
click_is_credited lib fs id click_draws click client_ip item_id q item ctx meanwhile draws report r
      s found room a same_token named at_work undisturbed tokens known =
    let clicked : Context = (handle_redirect lib click_draws id click client_ip item_id q ctx).0 in
    let later : Context = serve lib fs meanwhile clicked in
    let (res, _, done) =
      redirect_found-IsClick lib click_draws id click client_ip item_id q item ctx found in
    let nonempty = is_empty-ne a.subid a.some_subid in
    let seen =
      IsClick-clicked lib click_draws id click client_ip item_id q item
        (Catalog.partner ctx.catalog.snapshot item.partner_id) ctx clicked res a.subid done
        same_token nonempty room in
    let same_secret : later.cfg.postback_secret ≡ ctx.cfg.postback_secret =
      ap (λ (c : Config). c.postback_secret)
        ((serve-IsAfter lib fs meanwhile clicked).same_cfg
          ∙ ap (λ (c : Context). c.cfg) done.pushed) in
    let a' : IsAccepted lib draws report later.cfg.postback_secret = record {
      subid = a.subid;
      amount = a.amount;
      configured = rw same_secret a.configured;
      proves = rw same_secret a.proves;
      names = a.names;
      some_subid = a.some_subid;
      readable = a.readable;
      known_status = a.known_status;
    } in
    let (pending, same_events) = accepted_pending lib draws report later a' s.ctx at_work in
    let still =
      Extends-clicked a.subid clicked.events.pending later.events.pending
        (serve-IsAfter lib fs meanwhile clicked).events seen in
    round-has_order lib fs r s later.conversions.pending
      (conversion_of draws report a.subid a.amount) pending
      (conversion_clicked draws report a.subid a.amount s
        (ap (λ (e : EventQueue). any (has_token a.subid) e.pending) same_events ∙ still))
      (is_empty-ne _ named) undisturbed tokens known
