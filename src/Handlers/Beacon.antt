-- ===== src/Handlers/Beacon.antt =====
-- `handle_beacon`: a page reports which cards were seen.
pub mod Batches
use s_size_store.Prelude.{
  ℕ, suc, ◌+◌, ℤ, cast_signed, Bool, true, false, List, [], ◌∷◌, Option, none, some, leb,
  if◌then◌else◌,
}
use s_size_store.Bytes.{Bytes, codes}
use s_size_store.Models.{Event, blank_event, impression}
use s_size_store.Json.{
  Json, integer, string, array, object, Elements, nil, cons, Members, find_member,
}
use s_size_store.Http.{HttpRequest, HttpResponse}
use s_size_store.Handlers.{Library, Draws, Context, Outcome, Identity, text_response, log_event}

abbrev integer_of : Option Json → Option ℤ
integer_of (some (integer n)) = some n
integer_of _ = none

abbrev int64_of : Option ℤ → Option ℤ
int64_of none = none
int64_of (some n) = some (cast_signed 64 n)

abbrev int_of : Option ℤ → Option ℤ
int_of none = none
int_of (some n) = some (cast_signed 32 n)

abbrev string_of : Option Json → Bytes
string_of (some (string s)) = s
string_of _ = []

abbrev impression_of : Members → Option ℤ → Option Event
impression_of e none = none
impression_of e (some item) = some (record (blank_event impression) {
  item_id = some item;
  position = int_of (integer_of (find_member (codes "p") e));
  surface = string_of (find_member (codes "s") e);
})

-- The event of one element of the array, or none where the loop goes on with the next.
unfoldable pub read_impression : Json → Option Event
read_impression (object e) = impression_of e (int64_of (integer_of (find_member (codes "item") e)))
read_impression _ = none

abbrev pub max_batch : ℕ
max_batch = 200

module _ (lib : Library) (draws : Draws) (id : Identity) (req : HttpRequest)
    (client_ip : Bytes) where
  -- The loop, when `accepted` events have been logged.
  unfoldable pub log_batch : Elements → ℕ → Context → Context
  unfolding read_impression
  log_batch nil accepted ctx = ctx
  log_batch (cons e es) accepted ctx =
      let skip = log_batch es accepted ctx in
      let take : Context = elim (read_impression e) [
        | none ↦ skip
        | some ev ↦
            log_batch es (suc accepted) (log_event lib draws accepted id req client_ip ev ctx)
      ] in
      if leb max_batch accepted then ctx else take

  unfoldable pub beacon_body : Option Json → Context → Outcome
  unfolding log_batch
  beacon_body none ctx = (ctx, some (text_response 400 (codes "bad json")))
  beacon_body (some (array es)) ctx = (log_batch es 0 ctx, some (text_response 204 []))
  beacon_body (some _) ctx = (ctx, some (text_response 400 (codes "expected array")))

  unfoldable pub handle_beacon : Context → Outcome
  unfolding beacon_body
  handle_beacon ctx = beacon_body (lib.parse_json req.body) ctx
