-- ===== src/Tests/Journey.antt =====
-- The theorems on the way from a click to its order, at a concrete round.
use s_size_store.Prelude.{list_eq, nat_eq, ◌≡◌, refl, pos, true, [], ◌∷◌, none, some, arith}
use s_size_store.Bytes.{codes}
use s_size_store.Models.{Event, blank_event, outbound}
use s_size_store.Query.{Query}
use s_size_store.Links.{make_click_token, token_char}
use s_size_store.Events.{Conversion}
use s_size_store.Db.{has_token, known_status}
use s_size_store.Db.Batches.{IsTokenSet}
use s_size_store.Worker.Settling.{has_order}
use s_size_store.Handlers.{Context}
use s_size_store.Catalog
use s_size_store.System.Requests.{AreKnown}
use s_size_store.Handlers.Pages.{handle_redirect, redirect_item}
use s_size_store.Handlers.{log_event}
use s_size_store.Events.{push_event, push_conversion}
use s_size_store.Handlers.Postback.{
  handle_postback, conversion_of, valid_status, postback_for, record_postback, signed,
}
use s_size_store.Handlers.Postback.Acceptance.{IsAccepted}
use s_size_store.System.{System, round, refresh, visits, serve}
use s_size_store.System.Delivery.{IsDelivered, round-IsDelivered, filled}
use s_size_store.System.Journey.{click_is_credited}
use s_size_store.Tests.Sample.{
  sample_library, sample_draws, sample_request, sample_files, sample_context, sample_identity,
  cap_item,
}
use s_size_store.Tests.System.{no_rows, first_round}

abbrev click : Event
click = record (blank_event outbound) {
  item_id = some (pos 7);
  ts = pos 99;
  ua_class = codes "mobile";
  click_token = codes "0Z7";
}

abbrev order : Conversion
order = record {
  click_token = codes "0Z7";
  ts = pos 9;
  order_ref = codes "A1";
  amount = some (pos 1000);
  status = codes "pending";
  raw = [];
}

-- A click and its order are pending.
abbrev busy : System
busy = record {
  ctx = record sample_context {
    events = record { pending = click ∷ []; max_pending = 2; dropped = 0 };
    conversions = record { pending = order ∷ [] };
  };
  tables = no_rows;
  next_refresh = pos 5;
  next_maintenance = pos 5;
}

round-IsDelivered_example :
    IsDelivered first_round busy (round sample_library sample_files first_round busy)
unfolding refresh visits serve has_token known_status
round-IsDelivered_example =
    round-IsDelivered sample_library sample_files first_round busy refl (refl, tt) (refl, tt)

abbrev report : Query
report =
    (codes "sign", codes "key") ∷ (codes "subid", codes "0Z7") ∷ (codes "order", codes "A1") ∷ []

abbrev click_query : Query
click_query = (codes "p", codes "3") ∷ []

-- The context after the click, and after the postback.
abbrev clicked : Context
clicked =
    (handle_redirect sample_library sample_draws sample_identity sample_request (codes "10.0.0.1")
      (pos 7) click_query sample_context).0

abbrev sold : System
sold = record {
  ctx =
      (handle_postback sample_library sample_draws report
        (serve sample_library sample_files [] clicked)).0;
  tables = no_rows;
  next_refresh = pos 50;
  next_maintenance = pos 5;
}

report-IsAccepted : IsAccepted sample_library sample_draws report (codes "key")
unfolding conversion_of valid_status
report-IsAccepted = record {
  subid = codes "0Z7";
  amount = none;
  configured = λ e. ground arith;
  proves = refl;
  names = refl;
  some_subid = λ e. ground arith;
  readable = refl;
  known_status = refl;
}

quiet_round-tokens :
    IsTokenSet
      (filled sample_library sample_files first_round sold).tables.events
      (filled sample_library sample_files first_round sold).ctx.events.pending
unfolding refresh visits serve handle_postback postback_for record_postback push_conversion
    handle_redirect redirect_item log_event push_event has_token Catalog.find Catalog.build
    Catalog.stable_sort Catalog.insert_sorted Catalog.before Catalog.index_items signed valid_status
    conversion_of
quiet_round-tokens = (ground arith, tt)

sold-AreKnown : AreKnown sold.ctx
unfolding refresh visits serve handle_postback postback_for record_postback push_conversion
    handle_redirect redirect_item log_event push_event known_status Catalog.find Catalog.build
    Catalog.stable_sort Catalog.insert_sorted Catalog.before Catalog.index_items signed valid_status
    conversion_of
sold-AreKnown = (refl, tt)

found : Catalog.find sample_context.catalog.snapshot (pos 7) ≡ some cap_item
unfolding Catalog.find Catalog.build Catalog.stable_sort Catalog.insert_sorted Catalog.before
    Catalog.index_items
found = refl

same_token : report-IsAccepted.subid ≡ make_click_token sample_draws.token_raw
unfolding report-IsAccepted make_click_token token_char
same_token = refl

click_is_credited_example :
    has_order
      (conversion_of sample_draws report report-IsAccepted.subid report-IsAccepted.amount).order_ref
      (round sample_library sample_files first_round sold).tables.conversions
    ≡ true
unfolding conversion_of
click_is_credited_example =
    click_is_credited sample_library sample_files sample_identity sample_draws sample_request
      (codes "10.0.0.1") (pos 7) click_query cap_item sample_context [] sample_draws report
      first_round sold found (omega arith) report-IsAccepted same_token (λ e. ground arith) refl
      refl quiet_round-tokens sold-AreKnown
