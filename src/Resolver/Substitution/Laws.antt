-- ===== src/Resolver/Substitution/Laws.antt =====
-- Texts and their references: what is not resolved stays as it is written.
use dokkimi.Prelude.{
  ℕ, zero, suc, ◌+◌, ◌-◌, ◌<◌, ◌≡◌, refl, inl, inr, sym, ap, ◌∙◌, String, Bool, false, ◌&&◌, Option,
  none, some, List, [], ◌∷◌, ◌++◌, arith, eqb, Option-cases, Bool-cases, All,
}
use dokkimi.Prelude.Text.{strip_prefix, is_empty}
use dokkimi.Prelude.Text.Prefix.{strip_prefix_sound}
use dokkimi.Json.{Value, string, array, object, Items, nil, cons, Fields, end, field}
use dokkimi.Resolver.Substitution.{
  Syntax, take_word, size, skip, written, reference_at, Token, literal, reference, next_tokens,
  tokens_from, tokens, token_text, token_missing, join, missing, interpolate, interpolate_items,
  interpolate_fields,
}
use Prim.Native.Char.{Char, code}
use Prim.Native.String
use text.Mathlib.TextLemmas.{nil-append, cons-append, append_assoc}

-- The beginning that is a word, and the rest.
take_word-skip :
    (p : ℕ → Bool) (s : String) → String.◌++◌ (take_word p s) (skip (size (take_word p s)) s) ≡ s
unfolding take_word size skip
take_word-skip p String.[] = refl
take_word-skip p (String.◌∷◌ c s) = elim (Bool-cases (p (code c))) [
  | inl e ↦ rw (e, cons-append) (ap (λ x. String.◌∷◌ c x) (take_word-skip p s))
  | inr e ↦ rw (e, nil-append) refl
]

skip-append : (a b : String) → skip (size a) (String.◌++◌ a b) ≡ b
unfolding size skip
skip-append String.[] b = rw nil-append refl
skip-append (String.◌∷◌ c a) b = rw cons-append (skip-append a b)

written_append :
    (syn : Syntax) (name rest : String)
    → String.◌++◌ (written syn name) rest
      ≡ String.◌++◌ syn.opening (String.◌++◌ name (String.◌++◌ "}}" rest))
written_append syn name rest =
    rw (append_assoc syn.opening (String.◌++◌ name "}}") rest, append_assoc name "}}" rest) refl

All-append : (P : String → Type 0) (xs ys : List String) → All P (xs ++ ys) → All P xs × All P ys
All-append P [] ys h = (tt, h)
All-append P (x ∷ xs) ys (p, h) = let (a, b) = All-append P xs ys h in ((p, a), b)

-- A text that begins with a reference is the reference and a rest.
reference_at_sound :
    (syn : Syntax) (after_dollar : Bool) (s name : String)
    → reference_at syn after_dollar s ≡ some name
    → (rest : String) × (s ≡ String.◌++◌ (written syn name) rest)
unfolding reference_at
reference_at_sound syn after_dollar s name h = elim (Bool-cases (syn.no_dollar && after_dollar)) [
  | inl d ↦ absurd (ground arith)
  | inr d ↦ elim (Option-cases (strip_prefix syn.opening s)) [
    | inl e ↦ absurd (ground arith)
    | inr (t, e) ↦
        let word = take_word syn.is_name t in
        elim (Bool-cases (is_empty word)) [
          | inl f ↦ absurd (ground arith)
          | inr f ↦ elim (Option-cases (strip_prefix "}}" (skip (size word) t))) [
            | inl g ↦ absurd (ground arith)
            | inr (rest, g) ↦
                let whole = strip_prefix_sound syn.opening s e in
                let parts = take_word-skip syn.is_name t in
                let close = strip_prefix_sound "}}" (skip (size word) t) g in
                let same : word ≡ name = ground arith in
                (rest, cc (whole, parts, close, same, written_append syn name rest))
          ]
        ]
  ]
]

abbrev render : Syntax → List Token → String
render syn ts = join syn (λ name. none) ts

size-append : (a b : String) → size (String.◌++◌ a b) ≡ size a + size b
unfolding size
size-append String.[] b = rw nil-append (omega arith)
size-append (String.◌∷◌ c a) b = rw cons-append (omega (arith, size-append a b))

size-written : (syn : Syntax) (name : String) → 0 < size (written syn name)
unfolding size
size-written syn name =
    omega (arith, size-append syn.opening (String.◌++◌ name "}}"), size-append name "}}")

-- What a text's characters leave behind the first of them.
skip-rest :
    (p : String) (c : Char) (s rest : String)
    → 0 < size p
    → String.◌∷◌ c s ≡ String.◌++◌ p rest
    → skip (size p - 1) s ≡ rest
unfolding size skip
skip-rest String.[] c s rest h e = absurd (omega arith)
skip-rest (String.◌∷◌ d p) c s rest h e =
    let tail : s ≡ String.◌++◌ p rest =
      ap (λ x. skip 1 x) e ∙ ap (λ x. skip 1 x) (cons-append d p rest) in
    let less : size (String.◌∷◌ d p) - 1 ≡ size p = omega arith in
    rw (less, tail, skip-append p rest) refl

size-opening :
    (syn : Syntax) (name : String) (c : Char) (s rest : String)
    → String.◌∷◌ c s ≡ String.◌++◌ (written syn name) rest
    → skip (size (written syn name) - 1) s ≡ rest
size-opening syn name c s rest e = skip-rest (written syn name) c s rest (size-written syn name) e

render-next :
    (syn : Syntax) (c : Char) (s : String) (o : Option String) (next : ℕ → List Token)
    → ((name : String)
        → o ≡ some name
        → (rest : String) × (String.◌∷◌ c s ≡ String.◌++◌ (written syn name) rest))
    → ((n : ℕ) → render syn (next n) ≡ skip n s)
    → render syn (next_tokens syn c o next) ≡ String.◌∷◌ c s
unfolding next_tokens join token_text skip
render-next syn c s none next found h = rw (h zero, cons-append, nil-append) refl
render-next syn c s (some name) next found h =
    let (rest, e) = found name refl in
    rw (h (size (written syn name) - 1), size-opening syn name c s rest e) (sym e)

-- What the tokens of a text are when the first characters are passed over.
render-tokens_from :
    (syn : Syntax) (after_dollar : Bool) (n : ℕ) (s : String)
    → render syn (tokens_from syn after_dollar n s) ≡ skip n s
unfolding tokens_from skip join token_text
render-tokens_from syn after_dollar zero String.[] = refl
render-tokens_from syn after_dollar (suc n) String.[] = refl
render-tokens_from syn after_dollar (suc n) (String.◌∷◌ c s) =
    render-tokens_from syn (eqb (code c) b'$') n s
render-tokens_from syn after_dollar zero (String.◌∷◌ c s) =
    render-next syn c s (reference_at syn after_dollar (String.◌∷◌ c s))
      (λ n. tokens_from syn (eqb (code c) b'$') n s)
      (λ name e. reference_at_sound syn after_dollar (String.◌∷◌ c s) name e)
      (λ n. render-tokens_from syn (eqb (code c) b'$') n s)

-- The characters and references of a text, written one after the other, are the text.
pub render-tokens : (syn : Syntax) (s : String) → render syn (tokens syn s) ≡ s
unfolding tokens skip
render-tokens syn s = render-tokens_from syn false zero s

module _ (syn : Syntax) (find : String → Option String) where
  -- A text none of whose references is found stays as it is.
  render-missing :
      (ts : List Token)
      → All (λ name. find name ≡ none) (missing syn (λ name. none) ts)
      → (join syn find ts ≡ join syn (λ name. none) ts)
        × (missing syn find ts ≡ missing syn (λ name. none) ts)
  unfolding join missing token_text token_missing
  render-missing [] h = (refl, refl)
  render-missing (literal c ∷ ts) h = let (a, b) = render-missing ts h in (rw a refl, b)
  render-missing (reference name ∷ ts) (e, h) =
      let (a, b) = render-missing ts h in (rw (e, a) refl, rw (e, b) refl)

  -- The names of a value's references, in order.
  abbrev pub references : Value → List String
  references v = (interpolate syn (λ name. none) v).1

  mutual
    unfolding interpolate

    unresolved_value :
        (v : Value)
        → All (λ name. find name ≡ none) (interpolate syn (λ name. none) v).1
        → (interpolate syn find v).0 ≡ v
    unresolved_value (string s) h =
        ap string ((render-missing (tokens syn s) h).0 ∙ render-tokens syn s)
    unresolved_value (array vs) h = ap array (unresolved_items vs h)
    unresolved_value (object fs) h = ap object (unresolved_fields fs h)
    unresolved_value _ h = refl

    unresolved_items :
        (vs : Items)
        → All (λ name. find name ≡ none) (interpolate_items syn (λ name. none) vs).1
        → (interpolate_items syn find vs).0 ≡ vs
    unresolved_items nil h = refl
    unresolved_items (cons v vs) h =
        let (a, b) =
          All-append (λ name. find name ≡ none) (interpolate syn (λ name. none) v).1
            (interpolate_items syn (λ name. none) vs).1 h in
        rw (unresolved_value v a, unresolved_items vs b) refl

    unresolved_fields :
        (fs : Fields)
        → All (λ name. find name ≡ none) (interpolate_fields syn (λ name. none) fs).1
        → (interpolate_fields syn find fs).0 ≡ fs
    unresolved_fields end h = refl
    unresolved_fields (field k v fs) h =
        let (a, b) =
          All-append (λ name. find name ≡ none) (interpolate syn (λ name. none) v).1
            (interpolate_fields syn (λ name. none) fs).1 h in
        rw (unresolved_value v a, unresolved_fields fs b) refl

  -- A value whose references are all missing from the environment comes back unchanged: the split of its
  -- texts into references and the characters between them loses nothing.
  pub interpolate-unresolved :
      (v : Value) → All (λ name. find name ≡ none) (references v) → (interpolate syn find v).0 ≡ v
  interpolate-unresolved v h = unresolved_value v h
