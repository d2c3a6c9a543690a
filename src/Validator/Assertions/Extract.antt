-- ===== src/Validator/Assertions/Extract.antt =====
-- Which extract rules are accepted.
use dokkimi.Prelude.{
  ◌≡◌, ◌↔◌, ◌⊎◌, inl, inr, refl, String, Bool, true, false, ◌++◌, List, [], ◌∷◌, some, none, arith,
  All, if◌then◌else◌, Option-cases, member, not, ◌&&◌, ◌||◌,
}
use dokkimi.Prelude.Text.{is_present}
use dokkimi.Json.{
  Value, string, object, Fields, Unknown, undefined, known, method, get, entries, is_defined,
  as_text, as_number, is_one_of,
}
use dokkimi.Json.Numbers.{Number, is_integer, is_less, zero_number}
use dokkimi.Json.Reads.{is_one_of_sound, is_one_of-string}
use dokkimi.Report.{Report, Message, says, clean, only_if, err, text, quoted, listed}
use dokkimi.Report.Clean.{
  clean-append, clean-seq_iff, clean-seq_three_iff, clean-seq_four_iff, optional_iff,
}
use dokkimi.Validator.Keys.{valid_extract_transforms}
use dokkimi.Validator.Paths.Format.{IsPath, validate_path_format_iff}
use dokkimi.Validator.Where.Form.{HasOne}
use dokkimi.Validator.Assertions.Source.{PathText, validate_path_text_iff}
use dokkimi.Validator.Assertions.{
  validate_path_text, warn_unknown_rule_keys, validate_transform_rule, validate_pattern_rule,
  validate_extract_rule, validate_extract_entries, validate_extract_rules,
}

-- The input of a transform rule: a text `from`, or else a path.
abbrev pub TransformInput : Fields → Type 0
TransformInput fs =
    ((s : String) × (as_text (get (object fs) "from") ≡ some s))
    ⊎ ((get (object fs) "from" ≡ undefined) × PathText (get (object fs) "path"))

pub record IsTransformRule (fs : Fields) : Type 0 where
  pub no_pattern : get (object fs) "pattern" ≡ undefined
  pub one_input : (get (object fs) "from" ≡ undefined) ⊎ (get (object fs) "path" ≡ undefined)
  pub transform : HasOne fs "transform" valid_extract_transforms
  pub input : TransformInput fs

-- A natural number.
abbrev pub GroupForm : Unknown → Type 0
GroupForm u =
    (n : Number) × (as_number u ≡ some n) × (is_integer n ≡ true) × (is_less n zero_number ≡ false)

module _ (is_regex : String → Bool) where
  pub record IsPatternRule (fs : Fields) : Type 0 where
    pub path : PathText (get (object fs) "path")
    pub pattern :
        (p : String) × (as_text (get (object fs) "pattern") ≡ some p) × (is_regex p ≡ true)
    pub group : (get (object fs) "group" ≡ undefined) ⊎ GroupForm (get (object fs) "group")

  -- A rule: a path, a transform rule, or else a pattern rule.
  abbrev pub RuleForm : Value → Type 0
  RuleForm (string s) = IsPath s
  RuleForm (object fs) =
      ((is_defined (get (object fs) "transform") ≡ true) × IsTransformRule fs)
      ⊎ ((get (object fs) "transform" ≡ undefined) × IsPatternRule fs)
  RuleForm _ = ⊥

  -- An object whose values are all rules.
  abbrev pub ExtractForm : Unknown → Type 0
  ExtractForm (known (object fs)) = All (λ (e : String × Value). RuleForm e.1) (entries fs)
  ExtractForm _ = ⊥

clean-warn_unknown_rule_keys :
    (valid_keys : List String) (ctx : Message) (ks : List String)
    → clean (warn_unknown_rule_keys valid_keys ctx ks) ≡ true
unfolding warn_unknown_rule_keys
clean-warn_unknown_rule_keys valid_keys ctx [] = refl
clean-warn_unknown_rule_keys valid_keys ctx (k ∷ ks) =
    ground (arith, clean-warn_unknown_rule_keys valid_keys ctx ks)

clean-rule_keys_then :
    (valid_keys : List String) (ctx : Message) (ks : List String) (rest : Report)
    → clean (warn_unknown_rule_keys valid_keys ctx ks ++ rest) ≡ clean rest
clean-rule_keys_then valid_keys ctx ks rest = ground (
  arith,
  clean-append (warn_unknown_rule_keys valid_keys ctx ks) rest,
  clean-warn_unknown_rule_keys valid_keys ctx ks,
)

transform_input_iff :
    (from path : Unknown) (ctx : Message)
    → (clean (
          if is_defined from
          then only_if
              (not (is_present (as_text from)))
              (err (says ctx ": \"from\" must be a non-empty string"))
          else validate_path_text path ": \"path\" must be a non-empty string" ctx ctx)
        ≡ true)
      ↔ (((s : String) × (as_text from ≡ some s)) ⊎ ((from ≡ undefined) × PathText path))
transform_input_iff undefined path ctx =
    let ok = validate_path_text_iff path ": \"path\" must be a non-empty string" ctx ctx in
    (λ h. inr (refl, ok.0 h), λ p. elim p [ inl (s, e) ↦ cc | inr (e, q) ↦ ok.1 q ])
transform_input_iff (known v) path ctx = elim (Option-cases (as_text (known v))) [
  | inl none_there ↦ (λ h. absurd (ground arith), λ p. absurd (ground arith))
  | inr (s, e) ↦ (λ h. inl (s, e), λ p. ground arith)
]
transform_input_iff method path ctx = (λ h. cc, λ p. elim p [ inl (s, e) ↦ cc | inr (e, q) ↦ cc ])

missing_iff :
    (u : Unknown) (m : Message) → (clean (only_if (is_defined u) (err m)) ≡ true) ↔ (u ≡ undefined)
missing_iff undefined m = (λ h. refl, λ p. refl)
missing_iff (known v) m = (λ h. cc, λ p. cc)
missing_iff method m = (λ h. cc, λ p. cc)

pub either_missing_iff :
    (u v : Unknown) (m : Message)
    → (clean (only_if (is_defined u && is_defined v) (err m)) ≡ true)
      ↔ ((u ≡ undefined) ⊎ (v ≡ undefined))
either_missing_iff u v m = let a = missing_iff u m in let b = missing_iff v m in ground arith

pub one_of_iff :
    (u : Unknown) (list : List String) (m : Message)
    → (clean (only_if (not (is_one_of u list)) (err m)) ≡ true)
      ↔ ((s : String) × (u ≡ known (string s)) × (member s list ≡ true))
one_of_iff u list m = (
  λ h. is_one_of_sound u list (ground arith),
  λ o. let one = is_one_of-string o.0 list in ground arith,
)

IsTransformRule-iff :
    (fs : Fields) (ctx : Message)
    → (clean (validate_transform_rule (object fs) ctx) ≡ true) ↔ IsTransformRule fs
unfolding validate_transform_rule
IsTransformRule-iff fs ctx =
    let from = get (object fs) "from" in
    let path = get (object fs) "path" in
    let pattern = get (object fs) "pattern" in
    let transform = get (object fs) "transform" in
    let pattern_ok =
      missing_iff pattern (says ctx ": \"transform\" and \"pattern\" are mutually exclusive") in
    let inputs_ok =
      either_missing_iff from path
        (says ctx ": \"from\" and \"path\" are mutually exclusive in a transform rule") in
    let transform_ok =
      one_of_iff transform valid_extract_transforms
        (says ctx ": \"transform\" must be one of: " ++ listed valid_extract_transforms) in
    let input_ok = transform_input_iff from path ctx in
    let parts =
      clean-seq_four_iff
        (only_if (is_defined pattern)
          (err (says ctx ": \"transform\" and \"pattern\" are mutually exclusive")))
        (only_if (is_defined from && is_defined path)
          (err (says ctx ": \"from\" and \"path\" are mutually exclusive in a transform rule")))
        (only_if (not (is_one_of transform valid_extract_transforms))
          (err (says ctx ": \"transform\" must be one of: " ++ listed valid_extract_transforms)))
        (if is_defined from
          then only_if (not (is_present (as_text from)))
              (err (says ctx ": \"from\" must be a non-empty string"))
          else validate_path_text path ": \"path\" must be a non-empty string" ctx ctx) in
    rw clean-rule_keys_then (
      λ h.
          let (a, b, c, d) = parts.0 h in
          record {
            no_pattern = pattern_ok.0 a;
            one_input = inputs_ok.0 b;
            transform = transform_ok.0 c;
            input = input_ok.0 d;
          },
      λ r. parts.1 (
        pattern_ok.1 r.no_pattern,
        inputs_ok.1 r.one_input,
        transform_ok.1 r.transform,
        input_ok.1 r.input,
      ),
    )

-- A choice by whether a field is given.
choice_iff :
    (u : Unknown) (r s : Report) {P Q : Type 0}
    → (clean r ≡ true) ↔ P
    → (clean s ≡ true) ↔ Q
    → (clean (if is_defined u then r else s) ≡ true)
      ↔ (((is_defined u ≡ true) × P) ⊎ ((u ≡ undefined) × Q))
choice_iff undefined r s p q =
    (λ h. inr (refl, q.0 h), λ o. elim o [ inl (e, x) ↦ cc | inr (e, x) ↦ q.1 x ])
choice_iff (known v) r s p q =
    (λ h. inl (refl, p.0 h), λ o. elim o [ inl (e, x) ↦ p.1 x | inr (e, x) ↦ cc ])
choice_iff method r s p q =
    (λ h. inl (refl, p.0 h), λ o. elim o [ inl (e, x) ↦ p.1 x | inr (e, x) ↦ cc ])

group_iff :
    (u : Unknown) (ctx : Message)
    → (clean (elim (as_number u) [
      | none ↦ err (says ctx ": \"group\" must be a non-negative integer")
      | some n ↦
          only_if
            (not (is_integer n) || is_less n zero_number)
            (err (says ctx ": \"group\" must be a non-negative integer"))
    ])
        ≡ true)
      ↔ GroupForm u
group_iff u ctx = elim (Option-cases (as_number u)) [
  | inl e ↦ (λ h. absurd (ground arith), λ p. absurd (ground arith))
  | inr (n, e) ↦ (λ h. (n, e, ground arith, ground arith), λ p. ground arith)
]

module _ (is_regex : String → Bool) where
  regex_iff :
      (u : Unknown) (ctx : Message)
      → (clean (elim (as_text u) [
        | none ↦ err (says ctx ": \"pattern\" must be a non-empty string")
        | some p ↦ only_if (not (is_regex p)) (err (says ctx ": \"pattern\" is not a valid regex"))
      ])
          ≡ true)
        ↔ ((p : String) × (as_text u ≡ some p) × (is_regex p ≡ true))
  regex_iff u ctx = elim (Option-cases (as_text u)) [
    | inl e ↦ (λ h. absurd (ground arith), λ p. absurd (ground arith))
    | inr (s, e) ↦ (λ h. (s, e, ground arith), λ p. ground arith)
  ]

  IsPatternRule-iff :
      (fs : Fields) (ctx : Message)
      → (clean (validate_pattern_rule is_regex (object fs) ctx) ≡ true) ↔ IsPatternRule is_regex fs
  unfolding validate_pattern_rule
  IsPatternRule-iff fs ctx =
      let path = get (object fs) "path" in
      let pattern = get (object fs) "pattern" in
      let group = get (object fs) "group" in
      let check_group : Report = elim (as_number group) [
        | none ↦ err (says ctx ": \"group\" must be a non-negative integer")
        | some n ↦
            only_if (not (is_integer n) || is_less n zero_number)
              (err (says ctx ": \"group\" must be a non-negative integer"))
      ] in
      let check_pattern : Report = elim (as_text pattern) [
        | none ↦ err (says ctx ": \"pattern\" must be a non-empty string")
        | some p ↦ only_if (not (is_regex p)) (err (says ctx ": \"pattern\" is not a valid regex"))
      ] in
      let path_ok = validate_path_text_iff path ": \"path\" must be a non-empty string" ctx ctx in
      let pattern_ok = regex_iff pattern ctx in
      let group_ok = optional_iff group check_group (group_iff group ctx) in
      let parts =
        clean-seq_three_iff
          (validate_path_text path ": \"path\" must be a non-empty string" ctx ctx) check_pattern
          (only_if (is_defined group) check_group) in
      rw clean-rule_keys_then (
        λ h.
            let (a, b, c) = parts.0 h in
            record { path = path_ok.0 a; pattern = pattern_ok.0 b; group = group_ok.0 c },
        λ r. parts.1 (path_ok.1 r.path, pattern_ok.1 r.pattern, group_ok.1 r.group),
      )

  extract_rule_iff :
      (ctx : Message) (key : String) (v : Value)
      → (clean (validate_extract_rule is_regex ctx key v) ≡ true) ↔ RuleForm is_regex v
  unfolding validate_extract_rule
  extract_rule_iff ctx key (string s) =
      validate_path_format_iff s (ctx ++ text ".extract[\"" ∷ quoted key ∷ text "\"]" ∷ [])
  extract_rule_iff ctx key (object fs) =
      let rule_ctx = ctx ++ text ".extract[\"" ∷ quoted key ∷ text "\"]" ∷ [] in
      let transform_ok = IsTransformRule-iff fs rule_ctx in
      let pattern_ok = IsPatternRule-iff fs rule_ctx in
      choice_iff (get (object fs) "transform") (validate_transform_rule (object fs) rule_ctx)
        (validate_pattern_rule is_regex (object fs) rule_ctx) transform_ok pattern_ok
  extract_rule_iff ctx key _ = (λ h. cc, λ p. elim p [ ])

  entries_iff :
      (ctx : Message) (es : List (String × Value))
      → (clean (validate_extract_entries is_regex ctx es) ≡ true)
        ↔ All (λ (e : String × Value). RuleForm is_regex e.1) es
  unfolding validate_extract_entries
  entries_iff ctx [] = (λ h. tt, λ h. refl)
  entries_iff ctx ((key, v) ∷ es) =
      let first = extract_rule_iff ctx key v in
      let rest = entries_iff ctx es in
      let both =
        clean-seq_iff (validate_extract_rule is_regex ctx key v)
          (validate_extract_entries is_regex ctx es) in
      (λ h. (first.0 (both.0 h).0, rest.0 (both.0 h).1), λ p. both.1 (first.1 p.0, rest.1 p.1))

  -- For every test of what a regular expression is, the check of extract rules reports no error
  -- exactly for an object each of whose values is a path, a transform rule with one input, or a
  -- pattern rule with a path, a regular expression and a group number if any.
  pub validate_extract_rules_iff :
      (u : Unknown) (ctx : Message)
      → (clean (validate_extract_rules is_regex u ctx) ≡ true) ↔ ExtractForm is_regex u
  unfolding validate_extract_rules
  validate_extract_rules_iff (known (object fs)) ctx = entries_iff ctx (entries fs)
  validate_extract_rules_iff _ ctx = (λ h. cc, λ p. elim p [ ])
