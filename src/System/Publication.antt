-- ===== src/System/Publication.antt =====
-- When a change of status reaches the visitors.
use s_size_store.Prelude.{
  ℕ, ℤ, pos, ◌+ℤ◌, ◌≤ℤ◌, ◌<ℤ◌, ◌≡◌, ◌∙◌, refl, ap, Bool, ◌&&◌, List, ◌∷◌, none, some, Option-cases,
  inl, inr, if◌then◌else◌, ◌==◌, ==_refl, int_eq, nat_eq, list_eq,
}
use s_size_store.Bytes.{Bytes, codes}
use s_size_store.Models.{ItemStatus, status_to_string, TsMs}
use s_size_store.Query.{Query}
use s_size_store.Catalog.{find}
use s_size_store.Http.{HttpRequest, HttpResponse, set_header}
use s_size_store.Config.{Config}
use s_size_store.Db.{Tables}
use s_size_store.Db.Admin.{Shelf, has_item, set_item_status}
use s_size_store.Db.Admin.Publishing.{IsSelected, is_there, set_item_status-is_on_sale}
use s_size_store.Handlers.{Library, Draws, Context, CatalogPtr, Identity, text_response}
use s_size_store.Handlers.Files.{FileSystem}
use s_size_store.Handlers.Pages.{handle_redirect}
use s_size_store.Handlers.Pages.Clicks.{redirect_found-IsClick}
use s_size_store.System.{Round, Loaded, round, rounds, launched}
use s_size_store.System.Timers.{IsClocked, last_start, period_of, renewed_in_time}

if_same : (id : ℤ) (a b : Bool) → (if id == id then a else b) ≡ a
if_same id a b = rw (==_refl id) refl

text_response-status : (status : ℕ) (body : Bytes) → (text_response status body).status ≡ status
unfolding text_response set_header
text_response-status status body = refl

module _ (lib : Library) (draws : Draws) (id : Identity) (req : HttpRequest)
    (client_ip : Bytes) where
  not_found :
      (item_id : ℤ) (q : Query) (ctx : Context)
      → find ctx.catalog.snapshot item_id ≡ none
      → (handle_redirect lib draws id req client_ip item_id q ctx).1
        ≡ some (text_response 404 (codes "not found"))
  unfolding handle_redirect
  not_found item_id q ctx missing = rw (missing, handle_redirect) refl

  -- How a click on an item is answered.
  abbrev pub IsAnswered : ℤ → Query → Context → ℕ → Type 0
  IsAnswered item_id q ctx status =
      (res : HttpResponse) × ((handle_redirect lib draws id req client_ip item_id q ctx).1
        ≡ some res)
      × (res.status ≡ status)

  handle_redirect-IsAnswered :
      (item_id : ℤ) (q : Query) (ctx : Context)
      → IsAnswered item_id q ctx (if is_there (find ctx.catalog.snapshot item_id) then 302 else 404)
  handle_redirect-IsAnswered item_id q ctx =
      elim (Option-cases (find ctx.catalog.snapshot item_id)) [
        | inl missing ↦ (
          text_response 404 (codes "not found"),
          not_found item_id q ctx missing,
          text_response-status 404 (codes "not found") ∙ rw missing refl,
        )
        | inr (item, found) ↦
            let (res, answered, click) =
              redirect_found-IsClick lib draws id req client_ip item_id q item ctx found in
            (res, answered, (click.temporary ∙ rw found refl))
      ]

-- A change of status reaches every visitor in time: after any rounds of the database thread, a round
-- that begins a refresh interval after the one before it, and whose statements return the rows as the
-- change leaves them, ends in a context where any click on the item is answered by a redirect if the
-- new status is `published` and the item exists, and by 404 otherwise.
pub status_takes_effect :
    (lib : Library) (fs : FileSystem) (cfg : Config) (p : CatalogPtr) (t : Tables) (clock : ℤ)
    (r : Round) (rs : List Round) (next : Round) (l : Loaded) (shelf : Shelf) (item_id : ℤ)
    (status : ItemStatus) (at : TsMs) (draws : Draws) (id : Identity) (req : HttpRequest)
    (client_ip : Bytes) (q : Query)
    → pos 0 <ℤ cfg.refresh_interval
    → IsClocked clock (r ∷ rs)
    → last_start r.loop_start rs +ℤ period_of cfg ≤ℤ next.loop_start
    → next.loaded ≡ some l
    → IsSelected (set_item_status item_id status at shelf) l.rows.items
    → IsAnswered lib draws id req client_ip item_id q
        (round lib fs next (rounds lib fs (r ∷ rs) (launched cfg p t clock))).ctx
        (if (status_to_string status == codes "published") && has_item item_id shelf
          then 302
          else 404)
status_takes_effect lib fs cfg p t clock r rs next l shelf item_id status at draws id req client_ip
      q positive order passed loads selected =
    let ctx : Context = (round lib fs next (rounds lib fs (r ∷ rs) (launched cfg p t clock))).ctx in
    let renewed = renewed_in_time lib fs cfg positive p t clock r rs next l order passed loads in
    let shown : is_there (find ctx.catalog.snapshot item_id)
        ≡ ((status_to_string status == codes "published") && has_item item_id shelf) =
      ap (λ (c : CatalogPtr). is_there (find c.snapshot item_id)) renewed
      ∙ set_item_status-is_on_sale item_id status at shelf l.rows l.partners l.now item_id selected
      ∙ if_same item_id _ _ in
    let (res, answered, answer) =
      handle_redirect-IsAnswered lib draws id req client_ip item_id q ctx in
    (res, answered, (answer ∙ ap (λ (b : Bool). if b then 302 else 404) shown))
