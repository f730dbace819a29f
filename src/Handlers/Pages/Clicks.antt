-- ===== src/Handlers/Pages/Clicks.antt =====
-- What a click on an item leaves behind, and where it leads.
use s_size_store.Prelude.{
  ℤ, ◌≡◌, ◌∙◌, refl, ap, subst, Bool-cases, Option-cases, inl, inr, true, false, List, [], ◌∷◌,
  Option, none, some, ◌==◌, int_eq,
}
use s_size_store.Bytes.{Bytes, codes}
use s_size_store.Models.{Item, Partner, Event, TsMs, outbound}
use s_size_store.Links.{make_click_token, outbound_url}
use s_size_store.Query.{Query, visit_source}
use s_size_store.Catalog
use s_size_store.Catalog.Lookups.{build-lookups, first}
use s_size_store.Events.{push_event}
use s_size_store.Http.{
  HttpRequest, HttpResponse, values, location, cache_control, referrer_policy, field_beq,
  set_header, without,
}
use s_size_store.Handlers.{
  Library, Draws, Context, Identity, Outcome, param, position_param, log_event, text_response,
}
use s_size_store.Handlers.Pages.{handle_redirect, redirect_item, redirect_response, target_url}

redirect_response_fields :
    (target : Bytes)
    → ((redirect_response target).status ≡ 302)
      × (values location (redirect_response target).headers ≡ target ∷ [])
      × (values cache_control (redirect_response target).headers ≡ codes "no-store" ∷ [])
      × (values referrer_policy (redirect_response target).headers ≡ codes "no-referrer" ∷ [])
unfolding redirect_response
redirect_response_fields target =
    unfold values set_header without field_beq in (refl, refl, refl, refl)

-- Where a click leads: to the link of an enabled partner, or else to the product's own address.
abbrev pub destination : Item → Option Partner → Bytes → Bytes
destination item seller token = elim seller [
  | none ↦ item.product_url
  | some p ↦ elim p.enabled [ true ↦ outbound_url item p token | false ↦ item.product_url ]
]

target_url-destination :
    (item : Item) (seller : Option Partner) (token : Bytes)
    → target_url item seller token ≡ destination item seller token
unfolding outbound_url
target_url-destination item none token = refl
target_url-destination item (some p) token = elim (Bool-cases p.enabled) [
  | inl enabled ↦ rw enabled refl
  | inr disabled ↦ rw disabled refl
]

module _ (lib : Library) (draws : Draws) (id : Identity) (req : HttpRequest)
    (client_ip : Bytes) where
  -- One outbound click, as the queue and the visitor see it.
  pub record IsClick (item_id : ℤ) (q : Query) (item : Item) (seller : Option Partner)
      (ctx ctx' : Context) (res : HttpResponse) : Type 0 where
    pub event : Event
    pub pushed : ctx' ≡ record ctx { events = (push_event event ctx.events).0 }
    pub of_kind : event.type ≡ outbound
    pub of_item : event.item_id ≡ some item_id
    pub at_position : event.position ≡ position_param q
    pub on_surface : event.surface ≡ param q (codes "s") (codes "feed")
    pub from_source : event.source ≡ visit_source q req.referer
    pub at_time : event.ts ≡ draws.clock 0
    pub of_visitor : (event.anon_id ≡ id.anon_id) × (event.session_id ≡ id.session_id)
    pub token : event.click_token ≡ make_click_token draws.token_raw
    pub temporary : res.status ≡ 302
    pub leads : values location res.headers ≡ destination item seller event.click_token ∷ []
    pub uncached : values cache_control res.headers ≡ codes "no-store" ∷ []

  handle_redirect_found :
      (item_id : ℤ) (q : Query) (item : Item) (ctx : Context)
      → Catalog.find ctx.catalog.snapshot item_id ≡ some item
      → handle_redirect lib draws id req client_ip item_id q ctx
        ≡ redirect_item lib draws id req client_ip item_id q item ctx
  unfolding handle_redirect
  handle_redirect_found item_id q item ctx found = rw (found, handle_redirect) refl

  redirect_item-IsClick :
      (item_id : ℤ) (q : Query) (item : Item) (ctx : Context)
      → (res : HttpResponse) × ((redirect_item lib draws id req client_ip item_id q item ctx).1
          ≡ some res)
        × IsClick item_id q item
            (Catalog.partner ctx.catalog.snapshot item.partner_id)
            ctx
            (redirect_item lib draws id req client_ip item_id q item ctx).0
            res
  unfolding redirect_item log_event
  redirect_item-IsClick item_id q item ctx =
      let target =
        target_url item (Catalog.partner ctx.catalog.snapshot item.partner_id)
          (make_click_token draws.token_raw) in
      let (status, leads, cache, _) = redirect_response_fields target in
      (
        redirect_response target,
        refl,
        record {
          event = _;
          pushed = refl;
          of_kind = refl;
          of_item = refl;
          at_position = refl;
          on_surface = refl;
          from_source = refl;
          at_time = refl;
          of_visitor = (refl, refl);
          token = refl;
          temporary = status;
          leads =
              leads
              ∙ ap (λ (url : Bytes). url ∷ [])
                  (target_url-destination item
                    (Catalog.partner ctx.catalog.snapshot item.partner_id)
                    (make_click_token draws.token_raw));
          uncached = cache;
        },
      )

  pub redirect_found-IsClick :
      (item_id : ℤ) (q : Query) (item : Item) (ctx : Context)
      → Catalog.find ctx.catalog.snapshot item_id ≡ some item
      → (res : HttpResponse) × ((handle_redirect lib draws id req client_ip item_id q ctx).1
          ≡ some res)
        × IsClick item_id q item
            (Catalog.partner ctx.catalog.snapshot item.partner_id)
            ctx
            (handle_redirect lib draws id req client_ip item_id q ctx).0
            res
  redirect_found-IsClick item_id q item ctx found =
      rw (handle_redirect_found item_id q item ctx found) (redirect_item-IsClick item_id q item ctx)

  redirect_missing :
      (item_id : ℤ) (q : Query) (ctx : Context)
      → Catalog.find ctx.catalog.snapshot item_id ≡ none
      → handle_redirect lib draws id req client_ip item_id q ctx
        ≡ (ctx, some (text_response 404 (codes "not found")))
  unfolding handle_redirect
  redirect_missing item_id q ctx missing = rw (missing, handle_redirect) refl

  -- What a click on an id does, from the item of the feed with that id, if there is one.
  abbrev pub IsVisit :
      List Partner → ℤ → Query → Option Item → Context → Context → HttpResponse → Type 0
  IsVisit partners item_id q none ctx ctx' res = (ctx' ≡ ctx) × (res.status ≡ 404)
  IsVisit partners item_id q (some item) ctx ctx' res =
      IsClick item_id q item (first (λ p. p.id == item.partner_id) partners) ctx ctx' res

  -- A click under a snapshot that was built from rows: where no item of the feed has the id, it is
  -- answered by 404 and changes nothing. Otherwise it ends in a temporary redirect that no cache keeps,
  -- and one outbound event is pushed (a full queue drops it), of this item, position and visitor. The
  -- redirect leads to the link of the first partner with the item's partner id, for the token that the
  -- event carries, or to the product's own address if there is no such partner or it is disabled.
  -- Nothing else changes.
  pub handle_redirect-IsVisit :
      (items : List Item) (partners : List Partner) (now : TsMs) (item_id : ℤ) (q : Query)
      (ctx : Context)
      → ctx.catalog.snapshot ≡ Catalog.build items partners now
      → (res : HttpResponse) × ((handle_redirect lib draws id req client_ip item_id q ctx).1
          ≡ some res)
        × IsVisit partners item_id q
            (first (λ it. it.id == item_id) (Catalog.stable_sort items))
            ctx
            (handle_redirect lib draws id req client_ip item_id q ctx).0
            res
  unfolding text_response set_header
  handle_redirect-IsVisit items partners now item_id q ctx built =
      let outcome : Outcome = handle_redirect lib draws id req client_ip item_id q ctx in
      let found =
        ap (λ c. Catalog.find c item_id) built ∙ (build-lookups items partners now item_id).0 in
      elim (Option-cases (first (λ it. it.id == item_id) (Catalog.stable_sort items))) [
        | inl none_there ↦
            let gone = redirect_missing item_id q ctx (found ∙ none_there) in
            rw none_there (
              text_response 404 (codes "not found"),
              ap (λ (o : Outcome). o.1) gone,
              (ap (λ (o : Outcome). o.0) gone, refl),
            )
        | inr (item, there) ↦
            let (res, answered, click) =
              redirect_found-IsClick item_id q item ctx (found ∙ there) in
            let seller =
              ap (λ c. Catalog.partner c item.partner_id) built
              ∙ (build-lookups items partners now item.partner_id).1 in
            rw there (
              res,
              answered,
              subst (λ (o : Option Partner). IsClick item_id q item o ctx outcome.0 res) seller
                  click,
            )
      ]
