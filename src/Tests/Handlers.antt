-- ===== src/Tests/Handlers.antt =====
-- The theorems on the handlers, at concrete inputs.
use s_size_store.Prelude.{
  ◌==◌, int_eq, ◌≡◌, ◌≢◌, ◌↔◌, refl, pos, List, [], ◌∷◌, some, arith, false, take, nat_eq, list_eq,
}
use s_size_store.Bytes.{Bytes, codes, is_empty}
use s_size_store.Catalog
use s_size_store.Query.{Query}
use s_size_store.Decimal.{to_string, print_ℕ, digits}
use s_size_store.Json.{object, cons, nil, member, end, integer, string, Elements}
use s_size_store.Http.{Field, values, server, set_cookie, cache_control, HttpRequest, HttpResponse}
use s_size_store.Handlers.{Context, CatalogPtr, text_response, out_link, position_param}
use s_size_store.Handlers.Cookies.{identify}
use s_size_store.Handlers.Feed.{handle_feed, render_feed}
use s_size_store.Handlers.Feed.Coherence.{IsCoherent, publish}
use s_size_store.Handlers.Feed.Fresh.{fresh_page}
use s_size_store.Handlers.Pages.{handle_redirect}
use s_size_store.Catalog.Lookups.{first}
use s_size_store.Handlers.Pages.Clicks.{handle_redirect-IsVisit, IsVisit}
use s_size_store.Handlers.Postback.{handle_postback, conversion_of, valid_status}
use s_size_store.Handlers.Postback.Acceptance.{IsAccepted, handle_postback_iff, ok_answer}
use s_size_store.Handlers.Beacon.{handle_beacon, max_batch}
use s_size_store.Handlers.Beacon.Batches.{handle_beacon-log_all, log_all, reported}
use s_size_store.Handlers.Dispatch.{dispatch, handled}
use s_size_store.Handlers.Dispatch.Links.{handled-out_link, position_query}
use s_size_store.Handlers.Dispatch.Outgoing.{dispatch-outgoing, cookies_for}
use s_size_store.Handlers.Life.{
  started, Reaches, new_snapshot, here, followed_by, reachable_feed_fresh,
}
use s_size_store.Tests.Sample.{
  cap_item, sock_item, shop, sample_library, sample_draws, sample_request, sample_identity,
  sample_context, sample_files, sample_ptr, sample_config, sample_catalog,
}

-- The feed of one tag has been asked for, and then a snapshot without items published.
abbrev feed_request : HttpRequest
feed_request = record sample_request { target = codes "/s/?tag=new" }

abbrev next_ptr : CatalogPtr
next_ptr = record { address = 2; snapshot = Catalog.empty_catalog }

abbrev start : Context
start = started sample_config sample_ptr

abbrev later : Context
later = publish next_ptr start

visited : Reaches sample_library start later
visited = followed_by here (new_snapshot next_ptr start tt)

abbrev tag_query : Query
tag_query = (codes "tag", codes "new") ∷ []

sample-IsCoherent : IsCoherent sample_library sample_context
sample-IsCoherent = record { fits = refl; consistent = tt; bounded = omega arith }

reachable_feed_fresh_example :
    (handle_feed sample_library tag_query later).1
    ≡ fresh_page
        (render_feed sample_library sample_config Catalog.empty_catalog (codes "new") [] [])
reachable_feed_fresh_example =
    reachable_feed_fresh sample_library sample_config sample_ptr later tag_query visited
      (ground arith) tt

dispatch-outgoing_example :
    let headers : List (Field × Bytes) =
      (dispatch sample_library sample_files sample_draws feed_request
        (codes "10.0.0.1")
        sample_context).1.headers in
    (values server headers ≡ codes "ssize" ∷ [])
    × (is_empty (values cache_control headers) ≡ false)
    × (values set_cookie headers ≡ cookies_for (identify feed_request sample_draws) sample_config)
dispatch-outgoing_example =
    dispatch-outgoing sample_library sample_files sample_draws feed_request (codes "10.0.0.1")
      sample_context

found : Catalog.find sample_catalog (pos 7) ≡ some cap_item
unfolding Catalog.find Catalog.build Catalog.stable_sort Catalog.insert_sorted Catalog.before
    Catalog.index_items
found = refl

abbrev click_query : Query
click_query = (codes "p", codes "3") ∷ []

handle_redirect-IsVisit_example :
    (res : HttpResponse) × ((handle_redirect sample_library sample_draws sample_identity
        sample_request
        (codes "10.0.0.1")
        (pos 7)
        click_query
        sample_context).1
      ≡ some res)
    × IsVisit sample_library sample_draws sample_identity sample_request
        (codes "10.0.0.1")
        (shop ∷ [])
        (pos 7)
        click_query
        (first (λ it. it.id == pos 7) (Catalog.stable_sort (cap_item ∷ sock_item ∷ [])))
        sample_context
        (handle_redirect sample_library sample_draws sample_identity sample_request
          (codes "10.0.0.1")
          (pos 7)
          click_query
          sample_context).0
        res
handle_redirect-IsVisit_example =
    handle_redirect-IsVisit sample_library sample_draws sample_identity sample_request
      (codes "10.0.0.1") (cap_item ∷ sock_item ∷ []) (shop ∷ []) (pos 10) (pos 7) click_query
      sample_context refl

abbrev paid_query : Query
paid_query =
    (codes "sign", codes "key") ∷ (codes "subid", codes "0Z7") ∷ (codes "amount", codes "10") ∷ []

paid-IsAccepted : IsAccepted sample_library sample_draws paid_query (codes "key")
unfolding conversion_of valid_status
paid-IsAccepted = record {
  subid = codes "0Z7";
  amount = some (pos 1000);
  configured = λ e. ground arith;
  proves = refl;
  names = refl;
  some_subid = λ e. ground arith;
  readable = refl;
  known_status = refl;
}

handle_postback_iff_example :
    ((handle_postback sample_library sample_draws paid_query sample_context).1 ≡ some ok_answer)
    ↔ IsAccepted sample_library sample_draws paid_query (codes "key")
handle_postback_iff_example =
    handle_postback_iff sample_library sample_draws paid_query sample_context

abbrev forged_query : Query
forged_query = (codes "sign", codes "yek") ∷ (codes "subid", codes "0Z7") ∷ []

forged-refused :
    (handle_postback sample_library sample_draws forged_query sample_context).1 ≢ some ok_answer
forged-refused e =
    let accepted =
      (handle_postback_iff sample_library sample_draws forged_query sample_context).0 e in
    let wrong : some (codes "yek") ≡ some (codes "key") = accepted.proves in ground arith

abbrev batch : Elements
batch =
    cons
      (object (member (codes "item") (integer (pos 7)) (member (codes "p") (integer (pos 3)) end)))
      (cons (string []) nil)

handle_beacon-log_all_example :
    handle_beacon sample_library sample_draws sample_identity sample_request
      (codes "10.0.0.1")
      sample_context
    ≡ (
      log_all sample_library sample_draws sample_identity sample_request
          (codes "10.0.0.1")
          (take max_batch (reported batch))
          0
          sample_context,
      some (text_response 204 []),
    )
handle_beacon-log_all_example =
    handle_beacon-log_all sample_library sample_draws sample_identity sample_request
      (codes "10.0.0.1") batch sample_context refl

abbrev click_request : HttpRequest
click_request = record sample_request { target = codes "/s/r/7?p=3" }

asked : click_request.target ≡ out_link sample_config cap_item (pos 3)
unfolding out_link to_string print_ℕ digits
asked = refl

handled-out_link_example :
    (handled sample_library sample_files sample_draws click_request
        (codes "10.0.0.1")
        sample_identity
        sample_context
      ≡ handle_redirect sample_library sample_draws sample_identity click_request
          (codes "10.0.0.1")
          (pos 7)
          (position_query (pos 3))
          sample_context)
    × (position_param (position_query (pos 3)) ≡ some (pos 3))
handled-out_link_example =
    handled-out_link sample_library sample_files sample_draws click_request (codes "10.0.0.1")
      sample_identity sample_context cap_item (pos 3) (ground arith) (omega arith) (omega arith)
      (refl, asked)
