-- ===== src/Handlers/Beacon/Batches.antt =====
-- Which impressions a batch logs.
use s_size_store.Prelude.{
  ℕ, zero, suc, ◌-◌, ◌≡◌, refl, ap, List, [], ◌∷◌, Option, none, some, arith, take, leb, Bool-cases,
  Option-cases, inl, inr,
}
use s_size_store.Bytes.{Bytes}
use s_size_store.Models.{Event}
use s_size_store.Json.{array, Elements, nil, cons}
use s_size_store.Http.{HttpRequest}
use s_size_store.Handlers.{Library, Draws, Context, Identity, text_response, log_event}
use s_size_store.Handlers.Beacon.{read_impression, max_batch, log_batch, handle_beacon}

abbrev or_skip : Option Event → List Event → List Event
or_skip none evs = evs
or_skip (some ev) evs = ev ∷ evs

-- The impressions that the elements of an array report, in order.
unfoldable pub reported : Elements → List Event
reported nil = []
reported (cons e es) = or_skip (read_impression e) (reported es)

module _ (lib : Library) (draws : Draws) (id : Identity) (req : HttpRequest)
    (client_ip : Bytes) where
  -- Events logged one after another, with the clock read for each.
  unfoldable pub log_all : List Event → ℕ → Context → Context
  log_all [] i ctx = ctx
  log_all (ev ∷ evs) i ctx = log_all evs (suc i) (log_event lib draws i id req client_ip ev ctx)

  take_none : (n i : ℕ) (ctx : Context) → ctx ≡ log_all (take n []) i ctx
  unfolding log_all
  take_none zero i ctx = refl
  take_none (suc n) i ctx = refl

  -- The loop, when `i` events have been logged.
  log_batch-log_all :
      (es : Elements) (i : ℕ) (ctx : Context)
      → log_batch lib draws id req client_ip es i ctx
        ≡ log_all (take (max_batch - i) (reported es)) i ctx
  unfolding log_batch log_all reported
  log_batch-log_all nil i ctx = take_none (max_batch - i) i ctx
  log_batch-log_all (cons e es) i ctx = elim (Bool-cases (leb max_batch i)) [
    | inl full ↦ let none_left : max_batch - i ≡ 0 = ground arith in rw (none_left, full) refl
    | inr room ↦
        let one_left : max_batch - i ≡ suc (max_batch - suc i) = ground arith in
        elim (Option-cases (read_impression e)) [
          | inl other ↦ rw (room, other) (log_batch-log_all es i ctx)
          | inr (ev, seen) ↦
              rw (room, seen, one_left)
                (log_batch-log_all es (suc i) (log_event lib draws i id req client_ip ev ctx))
        ]
  ]

  -- A beacon that is an array logs the impressions that its elements report, in order, up to the
  -- first 200, skips the elements that report none, and is answered by 204.
  pub handle_beacon-log_all :
      (es : Elements) (ctx : Context)
      → lib.parse_json req.body ≡ some (array es)
      → handle_beacon lib draws id req client_ip ctx
        ≡ (log_all (take max_batch (reported es)) 0 ctx, some (text_response 204 []))
  unfolding handle_beacon
  handle_beacon-log_all es ctx read =
      rw read (ap (λ c. (c, some (text_response 204 []))) (log_batch-log_all es 0 ctx))
