-- ===== src/Query/Params.antt =====
-- `parse_query` on the parts between the ampersands, and on what an encoder writes.
use s_size_store.Prelude.{
  ℕ, zero, suc, ◌≤◌, ◌≡◌, ◌≢◌, ◌∙◌, refl, ap, List, [], ◌∷◌, ◌++◌, some, arith, All, All-append,
  All-map, length, length-append, inl, inr, nat_eq, list_eq, insert_or_assign,
}
use s_size_store.Bytes.{Bytes, IsByte, Lacks, cut}
use s_size_store.Bytes.Cut.{cut_of_Lacks, cut-append}
use s_size_store.Links.{is_unreserved, url_encode}
use s_size_store.Links.Encode.{IsQuerySafe, url_encode-IsQuerySafe}
use s_size_store.Query.{Query, url_decode, add_pair, parse_from, parse_query}
use s_size_store.Query.Decode.{url_decode-url_encode}

-- The parts with an ampersand between each two.
unfoldable pub join_amp : List Bytes → Bytes
join_amp [] = []
join_amp (p ∷ []) = p
join_amp (p ∷ q ∷ ps) = p ++ b'&' ∷ join_amp (q ∷ ps)

-- The effect of the parts, one after another.
unfoldable pub add_pairs : List Bytes → Query → Query
add_pairs [] out = out
add_pairs (p ∷ ps) out = add_pairs ps (add_pair p out)

-- one round, at a text that is not empty
parse_from_last :
    (f : ℕ) (p : Bytes) (out : Query)
    → Lacks b'&' p
    → length p ≤ f
    → parse_from f p out ≡ add_pair p out
unfolding parse_from add_pair
parse_from_last zero [] out h fits = refl
parse_from_last (suc f) [] out h fits = refl
parse_from_last zero (c ∷ p) out h fits = absurd (omega arith)
parse_from_last (suc f) (c ∷ p) out h fits = ground (arith, cut_of_Lacks b'&' (c ∷ p) h)

parse_from_more :
    (f : ℕ) (p s : Bytes) (out : Query)
    → Lacks b'&' p
    → parse_from (suc f) (p ++ b'&' ∷ s) out ≡ parse_from f s (add_pair p out)
unfolding parse_from
parse_from_more f [] s out h = ground (arith, cut-append b'&' [] s h)
parse_from_more f (c ∷ p) s out h = ground (arith, cut-append b'&' (c ∷ p) s h)

parse_from-join :
    (ps : List Bytes) (f : ℕ) (out : Query)
    → All (Lacks b'&') ps
    → length (join_amp ps) ≤ f
    → parse_from f (join_amp ps) out ≡ add_pairs ps out
unfolding join_amp add_pairs
parse_from-join [] zero out h fits = unfold parse_from in refl
parse_from-join [] (suc f) out h fits = unfold parse_from in refl
parse_from-join (p ∷ []) f out (hp, _) fits = parse_from_last f p out hp fits
parse_from-join (p ∷ q ∷ ps) zero out h fits =
    absurd (omega (arith, length-append p (b'&' ∷ join_amp (q ∷ ps))))
parse_from-join (p ∷ q ∷ ps) (suc f) out (hp, hps) fits =
    parse_from_more f p (join_amp (q ∷ ps)) out hp
    ∙ parse_from-join (q ∷ ps) f (add_pair p out) hps
        (omega (arith, length-append p (b'&' ∷ join_amp (q ∷ ps))))

-- The loop treats the parts between the ampersands one after another, whatever they hold: the fuel
-- is enough, and no part is skipped.
pub parse_query-join_amp :
    (ps : List Bytes) → All (Lacks b'&') ps → parse_query (join_amp ps) ≡ add_pairs ps []
unfolding parse_query
parse_query-join_amp ps h = parse_from-join ps (length (join_amp ps)) [] h (omega arith)

-- One parameter as a form encoder writes it.
abbrev pub encode_pair : Bytes × Bytes → Bytes
encode_pair (k, v) = url_encode k ++ b'=' ∷ url_encode v

unfoldable pub encode_pairs : List (Bytes × Bytes) → List Bytes
encode_pairs [] = []
encode_pairs (p ∷ ps) = encode_pair p ∷ encode_pairs ps

abbrev pub IsPair : Bytes × Bytes → Type 0
IsPair p = All IsByte p.0 × All IsByte p.1

-- The map that the assignments leave, the last one to a key counting.
unfoldable pub assign_all : List (Bytes × Bytes) → Query → Query
assign_all [] out = out
assign_all ((k, v) ∷ ps) out = assign_all ps (insert_or_assign k v out)

safe-ne : (c : ℕ) → IsQuerySafe c → (c ≢ b'&') × (c ≢ b'=')
unfolding is_unreserved
safe-ne c (inl h) = ground arith
safe-ne c (inr h) = ground arith

safe-Lacks_amp : (s : Bytes) → All IsQuerySafe s → Lacks b'&' s
safe-Lacks_amp s h = All-map s (λ c k. (safe-ne c k).0) h

safe-Lacks_eq : (s : Bytes) → All IsQuerySafe s → Lacks b'=' s
safe-Lacks_eq s h = All-map s (λ c k. (safe-ne c k).1) h

encode_pair-Lacks : (p : Bytes × Bytes) → IsPair p → Lacks b'&' (encode_pair p)
encode_pair-Lacks (k, v) (hk, hv) =
    All-append (λ c. c ≢ b'&') (url_encode k) (b'=' ∷ url_encode v)
      (safe-Lacks_amp _ (url_encode-IsQuerySafe k hk))
      ((ground arith), safe-Lacks_amp _ (url_encode-IsQuerySafe v hv))

encode_pairs-Lacks :
    (ps : List (Bytes × Bytes)) → All IsPair ps → All (Lacks b'&') (encode_pairs ps)
unfolding encode_pairs
encode_pairs-Lacks [] h = tt
encode_pairs-Lacks (p ∷ ps) (hp, hps) = (encode_pair-Lacks p hp, encode_pairs-Lacks ps hps)

add_pair_of_cut :
    (pair k v : Bytes) (out : Query)
    → cut b'=' pair ≡ (k, some v)
    → add_pair pair out ≡ insert_or_assign (url_decode k) (url_decode v) out
unfolding add_pair
add_pair_of_cut [] k v out e = unfold cut in ground arith
add_pair_of_cut (c ∷ pair) k v out e = ground arith

add_pair-encode_pair :
    (k v : Bytes) (out : Query)
    → All IsByte k
    → All IsByte v
    → add_pair (encode_pair (k, v)) out ≡ insert_or_assign k v out
add_pair-encode_pair k v out hk hv =
    add_pair_of_cut (encode_pair (k, v)) (url_encode k) (url_encode v) out (
      cut-append b'=' (url_encode k) (url_encode v) (safe-Lacks_eq _ (url_encode-IsQuerySafe k hk)))
    ∙ cc (url_decode-url_encode k hk, url_decode-url_encode v hv)

add_pairs-encode :
    (ps : List (Bytes × Bytes)) (out : Query)
    → All IsPair ps
    → add_pairs (encode_pairs ps) out ≡ assign_all ps out
unfolding add_pairs encode_pairs assign_all
add_pairs-encode [] out h = refl
add_pairs-encode ((k, v) ∷ ps) out ((hk, hv), hps) =
    ap (add_pairs (encode_pairs ps)) (add_pair-encode_pair k v out hk hv)
    ∙ add_pairs-encode ps (insert_or_assign k v out) hps

-- Parameters that an encoder writes are read back: the map holds exactly their assignments, the
-- last one to a key counting.
pub parse_query-encode :
    (ps : List (Bytes × Bytes))
    → All IsPair ps
    → parse_query (join_amp (encode_pairs ps)) ≡ assign_all ps []
parse_query-encode ps h =
    parse_query-join_amp (encode_pairs ps) (encode_pairs-Lacks ps h) ∙ add_pairs-encode ps [] h
