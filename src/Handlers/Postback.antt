-- ===== src/Handlers/Postback.antt =====
-- `handle_postback`: an affiliate network reports that a click became an order.
pub mod Acceptance
use s_size_store.Prelude.{
  ℕ, Bool, true, false, not, ◌&&◌, ◌||◌, List, [], ◌∷◌, Option, none, some, ◌==◌, if◌then◌else◌,
  length, lookup, list_eq, nat_eq,
}
use s_size_store.Bytes.{Bytes, codes, is_empty}
use s_size_store.Models.{TsMs, Kopek}
use s_size_store.Query.{Query}
use s_size_store.Events.{Conversion, push_conversion}
use s_size_store.Http.{HttpResponse}
use s_size_store.Handlers.{Library, Draws, Context, Outcome, text_response, param}

-- The comparison with the shared secret; `sodium_memcmp` compares as many bytes as the secret has,
-- and only runs on a signature of that length.
unfoldable pub signed : Option Bytes → Bytes → Bool
signed none secret = false
signed (some sign) secret = length sign == length secret && sign == secret

unfoldable pub valid_status : Bytes → Bool
valid_status status =
    status == codes "pending" || status == codes "approved" || status == codes "rejected"

abbrev pub refuse : ℕ → Bytes → Context → Outcome
refuse status body ctx = (ctx, some (text_response status body))

-- The amount: none inside `some` is a postback that names none; none is one that is no number.
abbrev pub amount_of : Library → Option Bytes → Option (Option Kopek)
amount_of lib none = some none
amount_of lib (some text) = elim (lib.rubles text) [ none ↦ none | some k ↦ some (some k) ]

unfoldable pub conversion_of : Draws → Query → Bytes → Option Kopek → Conversion
conversion_of draws q subid amount = record {
  click_token = subid;
  ts = draws.clock 0;
  order_ref = param q (codes "order") [];
  amount = amount;
  status = param q (codes "status") (codes "pending");
  raw = [];
}

unfoldable pub record_postback : Conversion → Context → Outcome
record_postback conv ctx =
    if not (valid_status conv.status) then refuse 400 (codes "bad status") ctx else (
      record ctx { conversions = (push_conversion conv ctx.conversions).0 },
      some (text_response 200 (codes "ok")),
    )

-- The part of `handle_postback` behind the check of the token.
unfoldable pub postback_for : Library → Draws → Query → Bytes → Context → Outcome
postback_for lib draws q subid ctx = elim (amount_of lib (lookup (codes "amount") q)) [
  | none ↦ refuse 400 (codes "bad amount") ctx
  | some amount ↦ record_postback (conversion_of draws q subid amount) ctx
]

abbrev pub some_token : Option Bytes → Option Bytes
some_token none = none
some_token (some subid) = if is_empty subid then none else some subid

unfoldable pub handle_postback : Library → Draws → Query → Context → Outcome
handle_postback lib draws q ctx =
    if is_empty ctx.cfg.postback_secret
    then refuse 503 (codes "not configured") ctx
    else if not (signed (lookup (codes "sign") q) ctx.cfg.postback_secret)
    then refuse 403 (codes "bad signature") ctx
    else elim (some_token (lookup (codes "subid") q)) [
      | none ↦ refuse 400 (codes "missing subid") ctx
      | some subid ↦ postback_for lib draws q subid ctx
    ]
