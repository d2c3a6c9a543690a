-- ===== src/Validator/Assertions/Source.antt =====
-- Which assertions are accepted.
use dokkimi.Prelude.{
  ℕ, ◌≡◌, ◌↔◌, ◌⊎◌, inl, inr, refl, String, true, ◌++◌, List, [], ◌∷◌, some, none, arith, All,
  Option-cases, Bool-cases, member,
}
use dokkimi.Json.{
  Value, string, object, Unknown, undefined, known, get, truthy, is_defined, as_string, as_text,
}
use dokkimi.Json.Reads.{is_one_of_sound, is_one_of-string, not_defined}
use dokkimi.Report.{Message, says, clean, for_each, only_if, err, text}
use dokkimi.Report.Clean.{
  clean-unknown_then, clean-seq_iff, clean-seq_four_iff, optional_iff, for_each_sound,
  for_each_complete,
}
use dokkimi.Validator.Keys.{valid_transforms, valid_assertion_operators}
use dokkimi.Validator.Paths.Format.{IsPath, validate_path_format_iff}
use dokkimi.Validator.Paths.{validate_path_format}
use dokkimi.Validator.Where.Form.{HasOne}
use dokkimi.Validator.Assertions.{
  validate_assertion, validate_assertion_path, validate_path_text, validate_path_transform,
  validate_source_count, validate_shorthand, validate_operator, source_fields, shorthand_fields,
}

-- A text that is a path.
abbrev pub PathText : Unknown → Type 0
PathText u = (s : String) × (as_text u ≡ some s) × IsPath s

-- The two forms of `path`.
abbrev pub PathForm : Unknown → Type 0
PathForm (known (string s)) = IsPath s
PathForm (known (object fs)) =
    PathText (get (object fs) "from") × HasOne fs "transform" valid_transforms
PathForm _ = ⊥

-- A shorthand source: left out, or a path.
abbrev pub ShorthandForm : Unknown → Type 0
ShorthandForm undefined = Unit
ShorthandForm (known (string s)) = IsPath s
ShorthandForm _ = ⊥

-- An operator of the list; a disabled assertion may have none.
abbrev pub OperatorForm : Value → Type 0
OperatorForm a =
    ((get a "operator" ≡ undefined) × (truthy (get a "disabled") ≡ true))
    ⊎ ((s : String) × (get a "operator" ≡ known (string s))
        × (member s valid_assertion_operators ≡ true))

-- An accepted assertion has one source, whose forms are right, and an operator.
pub record IsAssertion (a : Value) : Type 0 where
  pub source : String
  pub one_source : source_fields a ≡ source ∷ []
  pub path : (get a "path" ≡ undefined) ⊎ PathForm (get a "path")
  pub shorthands : All (λ f. ShorthandForm (get a f)) shorthand_fields
  pub operator : OperatorForm a

pub validate_path_text_iff :
    (u : Unknown) (missing : String) (ctx path_ctx : Message)
    → (clean (validate_path_text u missing ctx path_ctx) ≡ true) ↔ PathText u
unfolding validate_path_text
validate_path_text_iff u missing ctx path_ctx = elim (Option-cases (as_text u)) [
  | inl e ↦ (λ h. absurd (ground arith), λ p. absurd (ground arith))
  | inr (s, e) ↦ (
    λ h. (s, e, (validate_path_format_iff s path_ctx).0 (ground arith)),
    λ p. let ok = (validate_path_format_iff p.0 path_ctx).1 p.2 in ground arith,
  )
]

path_transform_iff :
    (u : Unknown) (ctx : Message)
    → (clean (validate_path_transform u ctx) ≡ true)
      ↔ ((s : String) × (u ≡ known (string s)) × (member s valid_transforms ≡ true))
unfolding validate_path_transform
path_transform_iff u ctx = (
  λ h. is_one_of_sound u valid_transforms (ground arith),
  λ o. let one = is_one_of-string o.0 valid_transforms in ground arith,
)

assertion_path_iff :
    (u : Unknown) (ctx : Message) → (clean (validate_assertion_path u ctx) ≡ true) ↔ PathForm u
unfolding validate_assertion_path
assertion_path_iff (known (string s)) ctx = validate_path_format_iff s ctx
assertion_path_iff (known (object fs)) ctx =
    let from = get (object fs) "from" in
    let from_ok =
      validate_path_text_iff from ".path: \"from\" must be a non-empty string" ctx
        (says ctx ".path.from") in
    let transform_ok = path_transform_iff (get (object fs) "transform") ctx in
    let both =
      clean-seq_iff
        (validate_path_text from ".path: \"from\" must be a non-empty string" ctx
          (says ctx ".path.from"))
        (validate_path_transform (get (object fs) "transform") ctx) in
    (
      λ h. (from_ok.0 (both.0 h).0, transform_ok.0 (both.0 h).1),
      λ p. both.1 (from_ok.1 p.0, transform_ok.1 p.1),
    )
assertion_path_iff _ ctx = (λ h. cc, λ p. elim p [ ])

shorthand_form :
    (u : Unknown) (f : String) (ctx : Message)
    → (clean (
          only_if (is_defined u) (elim (as_string u) [
            | none ↦ err (ctx ++ text ": \"" ∷ text f ∷ text "\" must be a string (path)" ∷ [])
            | some s ↦ validate_path_format s (ctx ++ text "." ∷ text f ∷ [])
          ]))
        ≡ true)
      ↔ ShorthandForm u
shorthand_form undefined f ctx = (λ h. tt, λ p. refl)
shorthand_form (known (string s)) f ctx = validate_path_format_iff s _
shorthand_form _ f ctx = (λ h. cc, λ p. elim p [ ])

shorthand_iff :
    (a : Value) (ctx : Message) (f : String)
    → (clean (validate_shorthand a ctx f) ≡ true) ↔ ShorthandForm (get a f)
unfolding validate_shorthand
shorthand_iff a ctx f = shorthand_form (get a f) f ctx

operator_iff :
    (a : Value) (ctx : Message) → (clean (validate_operator a ctx) ≡ true) ↔ OperatorForm a
unfolding validate_operator
operator_iff a ctx = (
  λ h. elim (Bool-cases (is_defined (get a "operator"))) [
    | inl there ↦ inr (is_one_of_sound (get a "operator") valid_assertion_operators (ground arith))
    | inr missing ↦ inl (not_defined (get a "operator") missing, ground arith)
  ],
  λ o. elim o [
    | inl (missing, disabled) ↦ ground arith
    | inr (s, e, ok) ↦ ground (arith, is_one_of-string s valid_assertion_operators)
  ],
)

source_count_iff :
    (fields : List String) (ctx : Message)
    → (clean (validate_source_count fields ctx) ≡ true) ↔ ((f : String) × (fields ≡ f ∷ []))
unfolding validate_source_count
source_count_iff [] ctx = (λ h. cc, λ p. cc)
source_count_iff (f ∷ []) ctx = (λ h. (f, refl), λ p. refl)
source_count_iff (f ∷ g ∷ rest) ctx = (λ h. cc, λ p. absurd (ground (arith, p.1)))

shorthands_iff :
    (a : Value) (ctx : Message) (i : ℕ) (fields : List String)
    → (clean (for_each (λ i f. validate_shorthand a ctx f) i fields) ≡ true)
      ↔ All (λ f. ShorthandForm (get a f)) fields
shorthands_iff a ctx i fields = (
  for_each_sound (λ i f. validate_shorthand a ctx f) (λ i f. (shorthand_iff a ctx f).0) i fields,
  for_each_complete (λ i f. validate_shorthand a ctx f) (λ i f. (shorthand_iff a ctx f).1) i fields,
)

assertion_parts :
    (a : Value) (ctx : Message)
    → (clean (validate_assertion a ctx) ≡ true) ↔ (
        (clean (validate_source_count (source_fields a) ctx) ≡ true)
        × (clean (only_if (is_defined (get a "path")) (validate_assertion_path (get a "path") ctx))
            ≡ true)
        × (clean (for_each (λ i f. validate_shorthand a ctx f) 0 shorthand_fields) ≡ true)
        × (clean (validate_operator a ctx) ≡ true))
unfolding validate_assertion
assertion_parts a ctx = rw clean-unknown_then (
    clean-seq_four_iff (validate_source_count (source_fields a) ctx)
      (only_if (is_defined (get a "path")) (validate_assertion_path (get a "path") ctx))
      (for_each (λ i f. validate_shorthand a ctx f) 0 shorthand_fields) (validate_operator a ctx))

-- The check of an assertion reports no error exactly for the assertions with one source field, in
-- one of its forms, and an operator of the list, or none if the assertion is disabled.
pub validate_assertion_iff :
    (a : Value) (ctx : Message) → (clean (validate_assertion a ctx) ≡ true) ↔ IsAssertion a
validate_assertion_iff a ctx =
    let parts = assertion_parts a ctx in
    let source_ok = source_count_iff (source_fields a) ctx in
    let path_ok = optional_iff (get a "path") _ (assertion_path_iff (get a "path") ctx) in
    let short_ok = shorthands_iff a ctx 0 shorthand_fields in
    let operator_ok = operator_iff a ctx in
    (
      λ h.
          let (s, p, sh, o) = parts.0 h in
          record {
            source = (source_ok.0 s).0;
            one_source = (source_ok.0 s).1;
            path = path_ok.0 p;
            shorthands = short_ok.0 sh;
            operator = operator_ok.0 o;
          },
      λ w. parts.1 (
        source_ok.1 (w.source, w.one_source),
        path_ok.1 w.path,
        short_ok.1 w.shorthands,
        operator_ok.1 w.operator,
      ),
    )
