-- ===== src/Handlers/Pages.antt =====
-- `handle_item` and `handle_redirect`: an item's page, and the outbound link to its partner.
pub mod Clicks
use s_size_store.Prelude.{
  ℕ, ℤ, pos, negsuc, Bool, true, false, List, [], ◌∷◌, ◌++◌, Option, none, some, if◌then◌else◌,
  lookup, list_eq, nat_eq,
}
use s_size_store.Bytes.{Bytes, codes, utf8}
use s_size_store.Models.{Item, Image, Partner, Event, blank_event, card_click, outbound}
use s_size_store.Links.{make_click_token, outbound_url}
use s_size_store.Query.{Query, visit_source}
use s_size_store.Catalog
use s_size_store.Json.{
  Json, integer, string, array, object, Elements, nil, cons, Members, end, member, set_member,
}
use s_size_store.Config.{Config}
use s_size_store.Http.{
  HttpRequest, HttpResponse, response, set_header, location, cache_control, referrer_policy,
}
use s_size_store.Handlers.{
  Library, Draws, Context, Outcome, Identity, html_type, make_response, text_response, param,
  position_param, log_event, item_members,
}

abbrev position_or_minus_one : Option ℤ → ℤ
position_or_minus_one none = negsuc 0
position_or_minus_one (some p) = p

unfoldable pub image_paths : Config → List Image → Elements
image_paths cfg [] = nil
image_paths cfg (img ∷ imgs) =
    cons (string (cfg.base_path ++ (codes "/media/" ++ img.path))) (image_paths cfg imgs)

-- The value that the template `item.html` is rendered with.
unfoldable pub item_data : Config → Item → Option ℤ → Json
unfolding image_paths
item_data cfg item position =
    let card = item_members item cfg (position_or_minus_one position) in
    let described = set_member (codes "description") (string item.description) card in
    let complete = set_member (codes "images") (array (image_paths cfg item.images)) described in
    object (
      member (codes "base") (string cfg.base_path) (
        member (codes "page_title") (string (item.title ++ utf8 " — s-size")) (
          member (codes "query") (string []) (
            member (codes "metrica_counter") (integer (pos cfg.metrica_counter))
              (member (codes "item") (object complete) end)))))

abbrev pub page_or_throw : Option Bytes → Option HttpResponse
page_or_throw none = none
page_or_throw (some html) = some (make_response 200 html html_type)

-- The event of a click on an item, before `log_event` completes it.
unfoldable pub click_event : HttpRequest → Query → ℤ → Event → Event
click_event req q item_id ev = record ev {
  item_id = some item_id;
  position = position_param q;
  surface = param q (codes "s") (codes "feed");
  source = visit_source q req.referer;
}

-- The partner's link, or the plain address of the product with no usable partner.
abbrev pub target_url : Item → Option Partner → Bytes → Bytes
target_url item none token = item.product_url
target_url item (some partner) token =
    if partner.enabled then outbound_url item partner token else item.product_url

unfoldable pub redirect_response : Bytes → HttpResponse
redirect_response target =
    set_header referrer_policy (codes "no-referrer")
      (set_header cache_control (codes "no-store") (set_header location target (response 302)))

module _ (lib : Library) (draws : Draws) (id : Identity) (req : HttpRequest)
    (client_ip : Bytes) where
  unfoldable pub show_item : ℤ → Query → Item → Context → Outcome
  unfolding item_data click_event
  show_item item_id q item ctx =
      let logged =
        log_event lib draws 0 id req client_ip (click_event req q item_id (blank_event card_click))
          ctx in
      (
        logged,
        page_or_throw (lib.render (codes "item.html") (item_data ctx.cfg item (position_param q))),
      )

  unfoldable pub handle_item : ℤ → Query → Context → Outcome
  unfolding show_item
  handle_item item_id q ctx = elim (Catalog.find ctx.catalog.snapshot item_id) [
    | none ↦ (ctx, some (text_response 404 (codes "not found")))
    | some item ↦ show_item item_id q item ctx
  ]

  unfoldable pub redirect_item : ℤ → Query → Item → Context → Outcome
  unfolding redirect_response click_event
  redirect_item item_id q item ctx =
      let token = make_click_token draws.token_raw in
      let ev = record (click_event req q item_id (blank_event outbound)) { click_token = token } in
      let logged = log_event lib draws 0 id req client_ip ev ctx in
      let target = target_url item (Catalog.partner ctx.catalog.snapshot item.partner_id) token in
      (logged, some (redirect_response target))

  unfoldable pub handle_redirect : ℤ → Query → Context → Outcome
  unfolding redirect_item
  handle_redirect item_id q ctx = elim (Catalog.find ctx.catalog.snapshot item_id) [
    | none ↦ (ctx, some (text_response 404 (codes "not found")))
    | some item ↦ redirect_item item_id q item ctx
  ]
