-- ===== src/Query.antt =====
-- The helpers of src/handlers.cpp that read a request: targets, query strings, cookies, sources.
pub mod Decode
pub mod Params
pub mod Cookies
pub mod Split
use s_size_store.Prelude.{
  ℕ, zero, suc, ◌+◌, ◌-◌, ◌*◌, ◌/◌, ◌%◌, Bool, true, false, ◌&&◌, ◌||◌, List, [], ◌∷◌, Option, none,
  some, ltb, leb, ◌==◌, if◌then◌else◌, length, lookup, emplace, insert_or_assign, nat_eq, list_eq,
}
use s_size_store.Bytes.{Bytes, codes, cut, is_empty, after_pattern}

-- The lambda `hex`, whose -1 is none.
unfoldable pub hex : ℕ → Option ℕ
hex c =
    if leb b'0' c && leb c b'9'
    then some (c - b'0')
    else if leb b'a' c && leb c b'f'
    then some (c - b'a' + 10)
    else if leb b'A' c && leb c b'F'
    then some (c - b'A' + 10)
    else none

unfoldable pub hex_pair : Option ℕ → Option ℕ → Option ℕ
hex_pair (some hi) (some lo) = some (hi * 16 + lo)
hex_pair _ _ = none

-- A `%` with two bytes behind it may be an escape; with fewer it stands for itself.
unfoldable pub url_decode : Bytes → Bytes
unfolding hex hex_pair
url_decode [] = []
url_decode (c ∷ []) = (if c == b'+' then b' ' else c) ∷ []
url_decode (c ∷ d ∷ []) = (if c == b'+' then b' ' else c) ∷ url_decode (d ∷ [])
url_decode (c ∷ h ∷ l ∷ s) =
    let one = url_decode (h ∷ l ∷ s) in
    let three = url_decode s in
    if c == b'+'
    then b' ' ∷ one
    else if c == b'%'
    then elim (hex_pair (hex h) (hex l)) [ none ↦ c ∷ one | some b ↦ b ∷ three ]
    else c ∷ one

-- `std::unordered_map<std::string, std::string>`
abbrev pub Query : Type 0
Query = List (Bytes × Bytes)

abbrev split_pair : Bytes → Bytes → Option Bytes → Query → Query
split_pair pair key none out = emplace (url_decode pair) [] out
split_pair pair key (some value) out = insert_or_assign (url_decode key) (url_decode value) out

-- what one round of `parse_query` does with the text before the ampersand
unfoldable pub add_pair : Bytes → Query → Query
add_pair [] out = out
add_pair (c ∷ pair) out =
    let (key, value) = cut b'=' (c ∷ pair) in split_pair (c ∷ pair) key value out

-- The loop of `parse_query`: each round removes a byte at least.
unfoldable pub parse_from : ℕ → Bytes → Query → Query
parse_from zero qs out = out
parse_from (suc fuel) [] out = out
parse_from (suc fuel) (c ∷ qs) out =
    let (pair, after) = cut b'&' (c ∷ qs) in
    elim after [ none ↦ add_pair pair out | some rest ↦ parse_from fuel rest (add_pair pair out) ]

unfoldable pub parse_query : Bytes → Query
parse_query qs = parse_from (length qs) qs []

-- the inner loop of `cookie_value`
unfoldable pub skip_blanks : Bytes → Bytes
skip_blanks [] = []
skip_blanks (c ∷ header) =
    let more = skip_blanks header in if c == b' ' || c == b';' then more else c ∷ header

abbrev value_of : Bytes → Bytes → Option Bytes → Option Bytes
value_of name key none = none
value_of name key (some value) = if key == name then some value else none

-- The cookie that one pair of the header sets, if it has the name.
unfoldable pub cookie_in : Bytes → Bytes → Option Bytes
cookie_in name pair = let (key, value) = cut b'=' pair in value_of name key value

-- The loop of `cookie_value`: a round that goes on removes a byte at least.
unfoldable pub cookie_from : ℕ → Bytes → Bytes → Bytes
cookie_from zero header name = []
cookie_from (suc fuel) [] name = []
cookie_from (suc fuel) (c ∷ header) name =
    let (pair, after) = cut b';' (skip_blanks (c ∷ header)) in
    elim (cookie_in name pair) [
      | some value ↦ value
      | none ↦ elim after [ none ↦ [] | some rest ↦ cookie_from fuel rest name ]
    ]

unfoldable pub cookie_value : Bytes → Bytes → Bytes
cookie_value header name = cookie_from (length header) header name

pub record Target : Type 0 where
  pub path : Bytes
  pub query : Bytes

abbrev or_empty : Option Bytes → Bytes
or_empty none = []
or_empty (some s) = s

unfoldable pub split_target : Bytes → Target
split_target target =
    let (path, query) = cut b'?' target in record { path = path; query = or_empty query }

abbrev or_whole : Bytes → Option Bytes → Bytes
or_whole s none = s
or_whole s (some rest) = rest

-- The referrer's host: what stands between the scheme, if there is one, and the next slash.
unfoldable pub referrer_source : Bytes → Bytes
referrer_source referer =
    if is_empty referer
    then codes "direct"
    else (cut b'/' (or_whole referer (after_pattern (codes "://") referer))).0

abbrev utm_or : Option Bytes → Bytes → Bytes
utm_or none other = other
utm_or (some value) other = if is_empty value then other else value

unfoldable pub visit_source : Query → Bytes → Bytes
visit_source q referer = utm_or (lookup (codes "utm_source") q) (referrer_source referer)
