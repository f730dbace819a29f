-- ===== src/Handlers/Files/Validators.antt =====
-- The validators of a file: what a client that has a copy is told.
use s_size_store.Prelude.{
  ℕ, Bool, true, false, not, ◌&&◌, List, [], ◌∷◌, ◌++◌, Option, none, some, ◌≡◌, ◌≢◌, ◌∙◌, refl,
  sym, ap, arith, ◌==◌, ==_refl, suc, ◌≤◌, if◌then◌else◌, list_eq, nat_eq, ℤ, pos, negsuc, InRange,
  All-map,
}
use s_size_store.Bytes.{Bytes, codes, contains, starts_with, is_empty, Lacks}
use s_size_store.Decimal.{to_string, parse_int, print_ℕ, int64_max}
use s_size_store.Decimal.RoundTrip.{parse_int-to_string, print_ℕ-IsDigit, print_ℕ-ne-nil}
use s_size_store.Http.{HttpRequest, HttpResponse, set_header, etag, values, without, field_beq}
use s_size_store.Handlers.{make_response, text_response}
use s_size_store.Handlers.Files.{
  FileSystem, relative_path, join_path, or_empty_path, make_etag, serve_file, confine, handle_file,
  file_response, not_modified,
}

nil-ne-cons : (v : Bytes) → ◌≢◌ {A = List Bytes} [] (v ∷ [])
nil-ne-cons v e = cc

first_same : (v w : Bytes) → ◌≡◌ {A = List Bytes} (v ∷ []) (w ∷ []) → v ≡ w
first_same v w e = ground arith

file_response_tag :
    (path tag tag' : Bytes) (o : Option Bytes)
    → (file_response path tag o).status ≡ 200
    → values etag (file_response path tag o).headers ≡ tag' ∷ []
    → (tag ≡ tag') × (is_empty tag ≡ false)
unfolding file_response make_response text_response set_header values without field_beq
file_response_tag path tag tag' none e v = absurd (omega (arith, e))
file_response_tag path [] tag' (some body) e v = absurd (nil-ne-cons tag' v)
file_response_tag path (c ∷ tag) tag' (some body) e v = (first_same (c ∷ tag) tag' v, refl)

answer_tag :
    (same : Bool) (path tag tag' : Bytes) (o : Option Bytes)
    → (if same then not_modified tag else file_response path tag o).status ≡ 200
    → values etag (if same then not_modified tag else file_response path tag o).headers ≡ tag' ∷ []
    → (tag ≡ tag') × (is_empty tag ≡ false)
unfolding not_modified set_header
answer_tag true path tag tag' o e v = absurd (omega (arith, e))
answer_tag false path tag tag' o e v = file_response_tag path tag tag' o e v

answer_again :
    (path held tag : Bytes) (o : Option Bytes)
    → tag ≡ held
    → is_empty tag ≡ false
    → (if not (is_empty tag) && held == tag then not_modified tag else file_response path tag o)
      ≡ not_modified held
answer_again path held tag o same nonempty = rw (← same, nonempty, ==_refl tag) refl

-- The same request from a client that holds a copy with the tag.
abbrev pub holding : Bytes → HttpRequest → HttpRequest
holding tag req = record req { if_none_match = tag }

serve_file_again :
    (fs : FileSystem) (req : HttpRequest) (path tag : Bytes)
    → (serve_file fs req path).status ≡ 200
    → values etag (serve_file fs req path).headers ≡ tag ∷ []
    → serve_file fs (holding tag req) path ≡ not_modified tag
unfolding serve_file
serve_file_again fs req path tag e v =
    let (same, nonempty) = answer_tag _ path _ tag (fs.contents path) e v in
    answer_again path tag _ (fs.contents path) same nonempty

abbrev below : FileSystem → HttpRequest → Bytes → Bool → HttpResponse
below fs req path inside =
    if inside then serve_file fs req path else text_response 403 (codes "forbidden")

below_again :
    (fs : FileSystem) (req : HttpRequest) (path tag : Bytes) (inside : Bool)
    → (below fs req path inside).status ≡ 200
    → values etag (below fs req path inside).headers ≡ tag ∷ []
    → below fs (holding tag req) path inside ≡ not_modified tag
unfolding text_response make_response set_header
below_again fs req path tag true e v = serve_file_again fs req path tag e v
below_again fs req path tag false e v = absurd (omega (arith, e))

confine_again :
    (fs : FileSystem) (req : HttpRequest) (root tag : Bytes) (o : Option Bytes)
    → (confine fs req root o).status ≡ 200
    → values etag (confine fs req root o).headers ≡ tag ∷ []
    → confine fs (holding tag req) root o ≡ not_modified tag
unfolding text_response make_response set_header
confine_again fs req root tag none e v = absurd (omega (arith, e))
confine_again fs req root tag (some path) e v =
    below_again fs req path tag (starts_with path root) e v

abbrev checked : FileSystem → HttpRequest → Bytes → Bytes → Bool → HttpResponse
checked fs req root rel dots =
    if dots
    then text_response 403 (codes "forbidden")
    else confine fs req (or_empty_path (fs.canonical root))
        (fs.canonical (join_path root (relative_path rel)))

checked_again :
    (fs : FileSystem) (req : HttpRequest) (root rel tag : Bytes) (dots : Bool)
    → (checked fs req root rel dots).status ≡ 200
    → values etag (checked fs req root rel dots).headers ≡ tag ∷ []
    → checked fs (holding tag req) root rel dots ≡ not_modified tag
unfolding text_response make_response set_header
checked_again fs req root rel tag true e v = absurd (omega (arith, e))
checked_again fs req root rel tag false e v =
    confine_again fs req (or_empty_path (fs.canonical root)) tag
      (fs.canonical (join_path root (relative_path rel))) e v

-- A client that was sent a file with a validator, and Asks for it again with that validator while
-- the file is as it was, is told that its copy is still good.
pub handle_file_again :
    (fs : FileSystem) (req : HttpRequest) (root rel tag : Bytes)
    → (handle_file fs req root rel).status ≡ 200
    → values etag (handle_file fs req root rel).headers ≡ tag ∷ []
    → handle_file fs (holding tag req) root rel ≡ not_modified tag
unfolding handle_file
handle_file_again fs req root rel tag e v =
    checked_again fs req root rel tag (contains rel (codes "..")) e v

-- Two texts that are free of a byte are determined by what stands before that byte.
cut_unique :
    (b : ℕ) (s t s' t' : Bytes)
    → Lacks b s
    → Lacks b s'
    → s ++ b ∷ t ≡ s' ++ b ∷ t'
    → (s ≡ s') × (t ≡ t')
cut_unique b [] t [] t' h h' e = ground arith
cut_unique b [] t (c ∷ s') t' h (hc, h') e = ground arith
cut_unique b (c ∷ s) t [] t' (hc, h) h' e = ground arith
cut_unique b (c ∷ s) t (d ∷ s') t' (hc, h) (hd, h') e = ground (arith, cut_unique b s t s' t' h h')

some_injective : (a b : ℤ) → some a ≡ some b → a ≡ b
some_injective a b e = ground arith

to_string_injective :
    (a b : ℤ) → InRange int64_max a → InRange int64_max b → to_string a ≡ to_string b → a ≡ b
to_string_injective a b ha hb e =
    some_injective a b (sym (parse_int-to_string a ha) ∙ ap parse_int e ∙ parse_int-to_string b hb)

print_ℕ-Lacks_quote : (n : ℕ) → Lacks b'"' (print_ℕ n)
print_ℕ-Lacks_quote n = All-map _ (λ c k. ground arith) (print_ℕ-IsDigit n)

-- The tails of two equal texts.
tails : {c d : ℕ} {s t : Bytes} → c ∷ s ≡ d ∷ t → s ≡ t
tails e = ground arith

print_ℕ-Lacks_dash : (n : ℕ) → Lacks b'-' (print_ℕ n)
print_ℕ-Lacks_dash n = All-map _ (λ c k. ground arith) (print_ℕ-IsDigit n)

no_dash_first : (s t u : Bytes) → s ≢ [] → Lacks b'-' s → s ++ t ≡ b'-' ∷ u → ⊥
no_dash_first [] t u nonempty h e = nonempty refl
no_dash_first (c ∷ s) t u nonempty (hc, h) e = ground arith

stamps_unique :
    (t t' : ℤ) (s s' : Bytes)
    → to_string t ++ b'-' ∷ s ≡ to_string t' ++ b'-' ∷ s'
    → (to_string t ≡ to_string t') × (s ≡ s')
unfolding to_string
stamps_unique (pos m) (pos n) s s' e =
    cut_unique b'-' (print_ℕ m) s (print_ℕ n) s' (print_ℕ-Lacks_dash m) (print_ℕ-Lacks_dash n) e
stamps_unique (pos m) (negsuc n) s s' e =
    absurd (no_dash_first (print_ℕ m) _ _ (print_ℕ-ne-nil m) (print_ℕ-Lacks_dash m) e)
stamps_unique (negsuc m) (pos n) s s' e =
    absurd (no_dash_first (print_ℕ n) _ _ (print_ℕ-ne-nil n) (print_ℕ-Lacks_dash n) (sym e))
stamps_unique (negsuc m) (negsuc n) s s' e =
    let (same, rest) =
      cut_unique b'-' (print_ℕ (suc m)) s (print_ℕ (suc n)) s' (print_ℕ-Lacks_dash (suc m))
        (print_ℕ-Lacks_dash (suc n)) (tails e) in
    (ap (λ (x : Bytes). b'-' ∷ x) same, rest)

-- Two files have the same validator only if they were last written at the same time and have the
-- same size, so a validator of a file is good until one of the two changes.
pub make_etag_injective :
    (t t' : ℤ) (n n' : ℕ)
    → InRange int64_max t
    → InRange int64_max t'
    → n ≤ int64_max
    → n' ≤ int64_max
    → make_etag t (some n) ≡ make_etag t' (some n')
    → (t ≡ t') × (n ≡ n')
unfolding make_etag
make_etag_injective t t' n n' ht ht' hn hn' e =
    let (times, rest) = stamps_unique t t' _ _ (tails e) in
    let (sizes, _) =
      cut_unique b'"' (print_ℕ n) [] (print_ℕ n') [] (print_ℕ-Lacks_quote n)
        (print_ℕ-Lacks_quote n') (unfold to_string in rest) in
    (
      to_string_injective t t' ht ht' times,
      ground (arith, to_string_injective (pos n) (pos n') hn hn' (unfold to_string in sizes)),
    )
