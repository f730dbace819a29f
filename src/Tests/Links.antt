-- ===== src/Tests/Links.antt =====
-- The theorems on links and on decimals, at concrete inputs.
use s_size_store.Prelude.{◌≡◌, refl, arith, negsuc, some, none}
use s_size_store.Bytes.{Bytes, codes, cut}
use s_size_store.Decimal.{from_chars, magnitude, scan, is_digit, to_string, parse_int}
use s_size_store.Decimal.RoundTrip.{parse_int-to_string}
use s_size_store.Links.{LinkVars, url_encode, encode_byte, render_from, substitute, render_link}
use s_size_store.Links.Template.{render_link-Reading, Reading, expand}

abbrev vars : LinkVars
vars = record {
  url = codes "https://shop.example/p?id=1";
  subid = codes "aB3";
  campaign = codes "77";
}

abbrev template : Bytes
template = codes "https://ad.example/{campaign}?u={url_enc}&s={subid}{x}{"

render_link-Reading_example :
    (r : Reading template) × (render_link template vars ≡ expand vars r.pieces r.tail)
render_link-Reading_example = render_link-Reading template vars

parse_int-to_string_example : parse_int (to_string (negsuc 41)) ≡ some (negsuc 41)
parse_int-to_string_example = parse_int-to_string (negsuc 41) (omega arith)

-- tests/test_links.cpp
url_encode_test : url_encode (codes "a b&c") ≡ codes "a%20b%26c"
unfolding url_encode encode_byte
url_encode_test = refl

render_test : render_link (codes "{subid}{no}{") vars ≡ codes "aB3{no}{"
unfolding render_link render_from substitute cut
render_test = refl

parse_test : parse_int (codes "12x") ≡ none
unfolding parse_int from_chars magnitude scan is_digit
parse_test = refl
