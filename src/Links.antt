-- ===== src/Links.antt =====
-- src/links.cpp: percent-encoding, click tokens and the partner's link template.
pub mod Encode
pub mod Token
pub mod Template
use s_size_store.Prelude.{
  ℕ, zero, suc, ◌+◌, ◌-◌, ◌/◌, ◌%◌, Bool, ◌&&◌, ◌||◌, List, [], ◌∷◌, ◌++◌, map, Option, none, some,
  ltb, leb, ◌==◌, if◌then◌else◌, length, get_elem?, nat_eq, list_eq,
}
use s_size_store.Bytes.{Bytes, codes, cut}
use s_size_store.Models.{Item, Partner}

unfoldable pub is_unreserved : ℕ → Bool
is_unreserved c =
    leb b'A' c && leb c b'Z'
    || leb b'a' c && leb c b'z'
    || leb b'0' c && leb c b'9'
    || c == b'-'
    || c == b'_'
    || c == b'.'
    || c == b'~'

unfoldable pub hex_digit : ℕ → ℕ
hex_digit v = if ltb v 10 then b'0' + v else b'A' + (v - 10)

-- what one round of the loop of `url_encode` appends
unfoldable pub encode_byte : ℕ → Bytes
unfolding is_unreserved hex_digit
encode_byte c =
    if is_unreserved c then c ∷ [] else b'%' ∷ hex_digit (c / 16) ∷ hex_digit (c % 16) ∷ []

unfoldable pub url_encode : Bytes → Bytes
url_encode [] = []
url_encode (c ∷ s) = encode_byte c ++ url_encode s

abbrev pub base62 : Bytes
base62 = codes "0123456789abcdefghijklmnopqrstuvwxyzABCDEFGHIJKLMNOPQRSTUVWXYZ"

abbrev byte_at : Option ℕ → ℕ
byte_at none = 0
byte_at (some c) = c

unfoldable pub token_char : ℕ → ℕ
token_char b = byte_at (get_elem? base62 (b % 62))

-- `make_click_token` on the twelve bytes that `randombytes_buf` leaves in `raw`.
unfoldable pub make_click_token : Bytes → Bytes
make_click_token raw = map token_char raw

pub record LinkVars : Type 0 where
  pub url : Bytes
  pub subid : Bytes
  pub campaign : Bytes

-- what the placeholder `{name}` is replaced by
unfoldable pub substitute : LinkVars → Bytes → Bytes
substitute vars name =
    if name == codes "url"
    then vars.url
    else if name == codes "url_enc"
    then url_encode vars.url
    else if name == codes "subid"
    then vars.subid
    else if name == codes "campaign"
    then vars.campaign
    else b'{' ∷ (name ++ b'}' ∷ [])

-- The loop of `render_link` on what is left of the template. Each round removes a byte at least,
-- so the length of the template is fuel enough.
unfoldable pub render_from : ℕ → LinkVars → Bytes → Bytes
render_from zero vars tmpl = []
render_from (suc fuel) vars [] = []
render_from (suc fuel) vars (c ∷ tmpl) =
    let copied = c ∷ render_from fuel vars tmpl in
    let (name, after) = cut b'}' tmpl in
    let replaced : Bytes = elim after [
      | none ↦ c ∷ tmpl
      | some rest ↦ substitute vars name ++ render_from fuel vars rest
    ] in
    if c == b'{' then replaced else copied

unfoldable pub render_link : Bytes → LinkVars → Bytes
render_link tmpl vars = render_from (length tmpl) vars tmpl

unfoldable pub outbound_url : Item → Partner → Bytes → Bytes
outbound_url item partner click_token =
    render_link partner.link_template
      (record { url = item.product_url; subid = click_token; campaign = item.campaign })
