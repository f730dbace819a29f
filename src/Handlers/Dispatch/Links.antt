-- ===== src/Handlers/Dispatch/Links.antt =====
-- The links of a card lead back to the item that they were made for.
use s_size_store.Prelude.{
  ℕ, suc, ℤ, pos, negsuc, InRange, cast_signed-32, ◌-◌, ◌^◌, ◌≡◌, ◌≢◌, ◌∙◌, refl, sym, ap, true, [],
  ◌∷◌, ◌++◌, some, arith, All, All-append, All-map, append_assoc, list_eq, nat_eq, ==_refl,
}
use s_size_store.Bytes.{Bytes, codes, Lacks, IsByte}
use s_size_store.Bytes.Find.{strip_prefix-append}
use s_size_store.Models.{Item}
use s_size_store.Links.{is_unreserved, url_encode, encode_byte}
use s_size_store.Links.Encode.{url_encode_of_unreserved}
use s_size_store.Decimal.{to_string, int64_max}
use s_size_store.Decimal.Parse.{IsDigit}
use s_size_store.Decimal.RoundTrip.{parse_int-to_string, print_ℕ-IsDigit}
use s_size_store.Query.{Query, split_target, parse_query}
use s_size_store.Query.Split.{split_target_with}
use s_size_store.Query.Params.{parse_query-encode, join_amp, encode_pairs, assign_all}
use s_size_store.Http.{HttpRequest, get}
use s_size_store.Handlers.{Library, Draws, Context, Identity, position_param, out_link}
use s_size_store.Handlers.Files.{FileSystem}
use s_size_store.Handlers.Pages.{handle_redirect}
use s_size_store.Handlers.Dispatch.{route, Route, redirect, item, local_path, run_route, handled}

-- A character of a decimal print.
abbrev IsNumeral : ℕ → Type 0
IsNumeral c = (is_unreserved c ≡ true) × (c ≢ b'?') × IsByte c

digit-IsNumeral : (c : ℕ) → IsDigit c → IsNumeral c
unfolding is_unreserved
digit-IsNumeral c h = ground arith

minus-IsNumeral : IsNumeral b'-'
unfolding is_unreserved
minus-IsNumeral = ground arith

to_string-IsNumeral : (v : ℤ) → All IsNumeral (to_string v)
unfolding to_string
to_string-IsNumeral (pos n) = All-map _ digit-IsNumeral (print_ℕ-IsDigit n)
to_string-IsNumeral (negsuc n) =
    (minus-IsNumeral, All-map _ digit-IsNumeral (print_ℕ-IsDigit (suc n)))

-- The query that a card's link carries.
abbrev pub position_query : ℤ → Query
position_query position = (codes "p", to_string position) ∷ []

parse_query_position :
    (position : ℤ) → parse_query (codes "p=" ++ to_string position) ≡ position_query position
parse_query_position position =
    let numeral = to_string-IsNumeral position in
    let plain = url_encode_of_unreserved (to_string position) (All-map _ (λ c k. k.0) numeral) in
    let encoded : join_amp (encode_pairs (position_query position))
        ≡ codes "p=" ++ to_string position =
      unfold join_amp encode_pairs url_encode encode_byte is_unreserved in
      ap (λ (s : Bytes). codes "p=" ++ s) plain in
    ap parse_query (sym encoded)
    ∙ parse_query-encode (position_query position)
        (((omega arith, tt), All-map _ (λ c k. k.2) numeral), tt)
    ∙ unfold assign_all in refl

widen : (v : ℤ) → InRange (2 ^ 31 - 1) v → InRange int64_max v
widen (pos n) h = omega arith
widen (negsuc n) h = omega arith

position_param_position :
    (position : ℤ)
    → InRange (2 ^ 31 - 1) position
    → position_param (position_query position) ≡ some position
unfolding position_param
position_param_position position h =
    rw (parse_int-to_string position (widen position h)) (ap some (cast_signed-32 position h))

local_path_base : (base s : Bytes) (c : ℕ) → local_path base (base ++ c ∷ s) ≡ c ∷ s
unfolding local_path
local_path_base [] s c = refl
local_path_base (b ∷ base) s c = ground (arith, strip_prefix-append base (c ∷ s), ==_refl b)

route-redirect : (s : Bytes) → route get (codes "/r/" ++ s) ≡ redirect s
unfolding route
route-redirect s = refl

route-item : (s : Bytes) → route get (codes "/item/" ++ s) ≡ item s
unfolding route
route-item s = refl

-- What a browser Asks for when the button of a card is pressed.
abbrev pub Asks : HttpRequest → Bytes → Type 0
Asks req target = (req.method ≡ get) × (req.target ≡ target)

split-out_link :
    (base : Bytes) (id position : ℤ)
    → Lacks b'?' base
    → split_target (base ++ (codes "/r/" ++ (to_string id ++ (codes "?p=" ++ to_string position))))
      ≡ record {
        path = base ++ (codes "/r/" ++ to_string id);
        query = codes "p=" ++ to_string position;
      }
split-out_link base id position h =
    let path = base ++ (codes "/r/" ++ to_string id) in
    let lacks : Lacks b'?' path =
      All-append (λ c. c ≢ b'?') base (codes "/r/" ++ to_string id) h
        (
          omega arith,
          (omega arith, (omega arith, All-map _ (λ c k. k.1) (to_string-IsNumeral id))),
        ) in
    ap split_target
      (sym (append_assoc base (codes "/r/" ++ to_string id) (codes "?p=" ++ to_string position)))
    ∙ split_target_with path (codes "p=" ++ to_string position) lacks

module _ (lib : Library) (fs : FileSystem) (draws : Draws) (req : HttpRequest)
    (client_ip : Bytes) where
  handled_target :
      (id : Identity) (ctx : Context) (path query : Bytes)
      → req.method ≡ get
      → split_target req.target ≡ record { path = path; query = query }
      → handled lib fs draws req client_ip id ctx
        ≡ run_route lib fs draws req client_ip
            (route get (local_path ctx.cfg.base_path path))
            id
            (parse_query query)
            ctx
  unfolding handled
  handled_target id ctx path query e f = rw (e, f, handled) refl

  run_redirect :
      (n : ℤ) (id : Identity) (ctx : Context) (q : Query)
      → InRange int64_max n
      → run_route lib fs draws req client_ip (redirect (to_string n)) id q ctx
        ≡ handle_redirect lib draws id req client_ip n q ctx
  unfolding run_route
  run_redirect n id ctx q h = rw (parse_int-to_string n h) refl

  -- Pressing the button of a card is a click on that card's item, at that card's position: a GET of
  -- the link that `item_to_json` writes is routed to `handle_redirect` with the item's id, and the
  -- position is read back from it, if the base path holds no question mark, the id fits 64 bits and
  -- the position 32.
  pub handled-out_link :
      (id : Identity) (ctx : Context) (it : Item) (position : ℤ)
      → Lacks b'?' ctx.cfg.base_path
      → InRange int64_max it.id
      → InRange (2 ^ 31 - 1) position
      → Asks req (out_link ctx.cfg it position)
      → (handled lib fs draws req client_ip id ctx
          ≡ handle_redirect lib draws id req client_ip it.id (position_query position) ctx)
        × (position_param (position_query position) ≡ some position)
  unfolding out_link
  handled-out_link id ctx it position base_ok id_ok position_ok (method, target) =
      let run = λ (r : Route) (q : Query). run_route lib fs draws req client_ip r id q ctx in
      (
        handled_target id ctx (ctx.cfg.base_path ++ (codes "/r/" ++ to_string it.id))
              (codes "p=" ++ to_string position) method
              (ap split_target target ∙ split-out_link ctx.cfg.base_path it.id position base_ok)
            ∙ ap (λ (p : Bytes). run (route get p) (parse_query (codes "p=" ++ to_string position)))
                (local_path_base ctx.cfg.base_path (codes "r/" ++ to_string it.id) b'/')
            ∙ ap (λ (r : Route). run r (parse_query (codes "p=" ++ to_string position)))
                (route-redirect (to_string it.id))
            ∙ ap (run (redirect (to_string it.id))) (parse_query_position position)
            ∙ run_redirect it.id id ctx (position_query position) id_ok,
        position_param_position position position_ok,
      )
