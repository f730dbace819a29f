-- ===== src/Links/Template.antt =====
-- `render_link` against a reading of the template as pieces.
use s_size_store.Prelude.{
  ℕ, zero, suc, ◌≤◌, ◌<◌, ◌≡◌, ◌≢◌, ◌∙◌, refl, ap, List, [], ◌∷◌, ◌++◌, Option, none, some, arith,
  All, length, length-append, ==_iff, nat_eq, Bool-cases, inl, inr, ◌==◌,
}
use s_size_store.Bytes.{Bytes, cut, Lacks}
use s_size_store.Bytes.Cut.{
  cut_of_Lacks, cut-append, cut-Lacks, append_of_cut, eq_of_cut-none, cut-length-lt,
}
use s_size_store.Links.{LinkVars, substitute, render_from, render_link}

-- A template is literal text and placeholders, and perhaps a brace that is never closed.
pub data Piece : Type 0 where
  text : Bytes → Piece
  placeholder : Bytes → Piece

abbrev pub IsPiece : Piece → Type 0
IsPiece (text t) = Lacks b'{' t
IsPiece (placeholder name) = Lacks b'}' name

abbrev pub IsTail : Option Bytes → Type 0
IsTail none = Unit
IsTail (some rest) = Lacks b'}' rest

abbrev pub print_tail : Option Bytes → Bytes
print_tail none = []
print_tail (some rest) = b'{' ∷ rest

unfoldable pub print : List Piece → Option Bytes → Bytes
print [] tail = print_tail tail
print (text t ∷ ps) tail = t ++ print ps tail
print (placeholder name ∷ ps) tail = b'{' ∷ (name ++ b'}' ∷ print ps tail)

-- Each placeholder replaced, all else copied.
unfoldable pub expand : LinkVars → List Piece → Option Bytes → Bytes
expand vars [] tail = print_tail tail
expand vars (text t ∷ ps) tail = t ++ expand vars ps tail
expand vars (placeholder name ∷ ps) tail = substitute vars name ++ expand vars ps tail

module _ (vars : LinkVars) where
  render_from-plain :
      (f c : ℕ) (s : Bytes) → c ≢ b'{' → render_from (suc f) vars (c ∷ s) ≡ c ∷ render_from f vars s
  unfolding render_from
  render_from-plain f c s h = ground (arith, ==_iff c b'{')

  render_from-placeholder :
      (f : ℕ) (name s : Bytes)
      → Lacks b'}' name
      → render_from (suc f) vars (b'{' ∷ (name ++ b'}' ∷ s))
        ≡ substitute vars name ++ render_from f vars s
  unfolding render_from
  render_from-placeholder f name s h = ground (arith, cut-append b'}' name s h)

  render_from-tail :
      (f : ℕ) (rest : Bytes)
      → Lacks b'}' rest
      → render_from (suc f) vars (b'{' ∷ rest) ≡ b'{' ∷ rest
  unfolding render_from
  render_from-tail f rest h = rw (cut_of_Lacks b'}' rest h) refl

  render_from-text :
      (t s e : Bytes) (f : ℕ)
      → Lacks b'{' t
      → length (t ++ s) ≤ f
      → ((g : ℕ) → length s ≤ g → render_from g vars s ≡ e)
      → render_from f vars (t ++ s) ≡ t ++ e
  render_from-text [] s e f h fits next = next f fits
  render_from-text (c ∷ t) s e zero h fits next = absurd (omega arith)
  render_from-text (c ∷ t) s e (suc f) (hc, ht) fits next =
      render_from-plain f c (t ++ s) hc
      ∙ ap (λ r. c ∷ r) (render_from-text t s e f ht (omega arith) next)

  render_from-print :
      (ps : List Piece) (tail : Option Bytes) (f : ℕ)
      → All IsPiece ps
      → IsTail tail
      → length (print ps tail) ≤ f
      → render_from f vars (print ps tail) ≡ expand vars ps tail
  unfolding print expand
  render_from-print [] none zero h k fits = unfold render_from in refl
  render_from-print [] none (suc f) h k fits = unfold render_from in refl
  render_from-print [] (some rest) zero h k fits = absurd (omega arith)
  render_from-print [] (some rest) (suc f) h k fits = render_from-tail f rest k
  render_from-print (text t ∷ ps) tail f (hp, hps) k fits =
      render_from-text t (print ps tail) (expand vars ps tail) f hp fits
        (λ g room. render_from-print ps tail g hps k room)
  render_from-print (placeholder name ∷ ps) tail zero (hp, hps) k fits = absurd (omega arith)
  render_from-print (placeholder name ∷ ps) tail (suc f) (hp, hps) k fits =
      render_from-placeholder f name (print ps tail) hp
      ∙ ap (λ r. substitute vars name ++ r)
          (render_from-print ps tail f hps k
            (omega (arith, length-append name (b'}' ∷ print ps tail))))

  -- The text of pieces is rendered piece by piece.
  pub render_link-print :
      (ps : List Piece) (tail : Option Bytes)
      → All IsPiece ps
      → IsTail tail
      → render_link (print ps tail) vars ≡ expand vars ps tail
  unfolding render_link
  render_link-print ps tail h k =
      render_from-print ps tail (length (print ps tail)) h k (omega arith)

-- The pieces of a text, with what shows that they are its pieces.
pub record Reading (s : Bytes) : Type 0 where
  pub pieces : List Piece
  pub tail : Option Bytes
  pub pieces_ok : All IsPiece pieces
  pub tail_ok : IsTail tail
  pub spells : s ≡ print pieces tail

read_plain : (c : ℕ) (s : Bytes) → c ≢ b'{' → Reading s → Reading (c ∷ s)
unfolding print
read_plain c s h r = record {
  pieces = text (c ∷ []) ∷ r.pieces;
  tail = r.tail;
  pieces_ok = ((h, tt), r.pieces_ok);
  tail_ok = r.tail_ok;
  spells = ap (λ t. c ∷ t) r.spells;
}

read_placeholder :
    (name s : Bytes) → Lacks b'}' name → Reading s → Reading (b'{' ∷ (name ++ b'}' ∷ s))
unfolding print
read_placeholder name s h r = record {
  pieces = placeholder name ∷ r.pieces;
  tail = r.tail;
  pieces_ok = (h, r.pieces_ok);
  tail_ok = r.tail_ok;
  spells = ap (λ t. b'{' ∷ (name ++ b'}' ∷ t)) r.spells;
}

read_tail : (s : Bytes) → Lacks b'}' s → Reading (b'{' ∷ s)
unfolding print
read_tail s h = record { pieces = []; tail = some s; pieces_ok = tt; tail_ok = h; spells = refl }

read_brace :
    (s name : Bytes) (after : Option Bytes)
    → cut b'}' s ≡ (name, after)
    → ((rest : Bytes) → length rest < length s → Reading rest)
    → Reading (b'{' ∷ s)
read_brace s name none e more =
    rw (eq_of_cut-none b'}' s name e) (read_tail name (let h = cut-Lacks b'}' s in rw e at h))
read_brace s name (some rest) e more = rw (append_of_cut b'}' s name rest e) (
    read_placeholder name rest (let h = cut-Lacks b'}' s in rw e at h)
      (more rest (cut-length-lt b'}' s name rest e)))

read_on : (f : ℕ) (s : Bytes) → length s ≤ f → Reading s
read_on f [] h =
    unfold print in record { pieces = []; tail = none; pieces_ok = tt; tail_ok = tt; spells = refl }
read_on zero (c ∷ s) h = absurd (omega arith)
read_on (suc f) (c ∷ s) h = elim (Bool-cases (c == b'{')) [
  | inl brace ↦ rw ((==_iff c b'{').0 brace) (
      read_brace s (cut b'}' s).0 (cut b'}' s).1 refl
        (λ rest shorter. read_on f rest (omega arith)))
  | inr other ↦ read_plain c s (ground (arith, ==_iff c b'{')) (read_on f s (omega arith))
]

-- Every template is such a sequence of pieces.
pub read : (s : Bytes) → Reading s
read s = read_on (length s) s (omega arith)

-- Every template can be read as literal text, placeholders and perhaps an unclosed brace, and
-- `render_link` is that reading with each placeholder replaced and all else copied.
pub render_link-Reading :
    (tmpl : Bytes) (vars : LinkVars)
    → (r : Reading tmpl) × (render_link tmpl vars ≡ expand vars r.pieces r.tail)
render_link-Reading tmpl vars =
    let r = read tmpl in
    (
      r,
      ap (λ t. render_link t vars) r.spells
          ∙ render_link-print vars r.pieces r.tail r.pieces_ok r.tail_ok,
    )
