-- ===== src/Tests/Query.antt =====
-- The theorems on queries and cookies, at concrete inputs.
use s_size_store.Prelude.{◌≡◌, refl, List, [], ◌∷◌, arith, lookup, nat_eq, list_eq}
use s_size_store.Bytes.{Bytes, codes, cut}
use s_size_store.Query.{
  parse_from, add_pair, cookie_from, cookie_in, skip_blanks, url_decode, parse_query, cookie_value,
}
use s_size_store.Query.Params.{parse_query-encode, join_amp, encode_pairs, assign_all}
use s_size_store.Query.Cookies.{cookie_value-print_cookies, print_cookies, or_nothing}

abbrev params : List (Bytes × Bytes)
params = (codes "q", codes "a b") ∷ (codes "p", codes "3") ∷ (codes "q", codes "&=") ∷ []

parse_query-encode_example : parse_query (join_amp (encode_pairs params)) ≡ assign_all params []
parse_query-encode_example = parse_query-encode params (ground arith)

abbrev parts : List Bytes
parts = codes "a=1" ∷ [] ∷ codes "flag" ∷ codes "b=2=3" ∷ []

abbrev jar : List (Bytes × Bytes)
jar = (codes "xsid", codes "no") ∷ (codes "sid", codes "ab=c") ∷ (codes "aid", codes "z") ∷ []

cookie_value-print_cookies_example :
    cookie_value (print_cookies jar) (codes "sid") ≡ or_nothing (lookup (codes "sid") jar)
cookie_value-print_cookies_example = cookie_value-print_cookies jar (codes "sid") (ground arith)

-- tests/test_handlers.cpp
decode_test : url_decode (codes "a%20b+c%zz%4") ≡ codes "a b c%zz%4"
unfolding url_decode
decode_test = refl

parse_test : parse_query (codes "a=1&b&a=2") ≡ (codes "a", codes "2") ∷ (codes "b", []) ∷ []
unfolding parse_query parse_from cut add_pair url_decode
parse_test = refl

cookie_test : cookie_value (codes "xaid=1; aid=42") (codes "aid") ≡ codes "42"
unfolding cookie_value cookie_from cookie_in cut skip_blanks
cookie_test = refl
