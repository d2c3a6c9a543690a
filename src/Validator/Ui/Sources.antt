-- ===== src/Validator/Ui/Sources.antt =====
-- What the check of an `extract` sub-step accepts, in shared/definition-validator/validate-ui-substeps.ts.
use dokkimi.Prelude.{
  ℕ, ◌≡◌, ◌↔◌, ◌⊎◌, refl, String, Bool, true, false, not, none, some, List, [], ◌∷◌, arith, All,
  member, subst, eqb, length, ◌++◌, if◌then◌else◌,
}
use dokkimi.Prelude.Int.{pos, negsuc, ltb_ℤ}
use dokkimi.Prelude.Text.{is_word_text}
use dokkimi.Json.{
  Value, number, string, object, Fields, Unknown, known, get, is_defined, as_string, as_integer,
  entries,
}
use dokkimi.Json.Numbers.{int}
use dokkimi.Report.{Report, Message, text, quoted, says, clean, err, warn, only_if}
use dokkimi.Report.Clean.{clean-seq_iff}
use dokkimi.Report.Accepts.{
  Accepts, ◌and◌, accepts_seq, accepts_warn, accepts_keys, accepts_optional, accepts_choice,
  accepts_pass, accepts_guard, accepts_test,
}
use dokkimi.Validator.Keys.Ui.{valid_ui_extract_from, valid_ui_extract_url_parts}
use dokkimi.Validator.Items.Fields.{Absent, SomeText}
use dokkimi.Validator.Ui.Forms.{PlainWith, plain_ok, SomeText-iff}
use dokkimi.Validator.Ui.Extracts.{
  validate_url_part, needs, validate_required_extract_fields, validate_pattern,
  validate_group_number, validate_extract_from, validate_extract_source, validate_extract_variables,
  validate_extract,
}

-- A text with a property of it.
abbrev pub StringWith : (String → Type 0) → Unknown → Type 0
StringWith P u = (s : String) × (u ≡ known (string s)) × P s

abbrev pub NaturalForm : Unknown → Type 0
NaturalForm u = (n : ℕ) × (u ≡ known (number (int (pos n))))

StringWith-iff :
    (u : Unknown) (m : Message) (check : String → Report) (P : String → Type 0)
    → ((s : String) → Accepts (check s) (P s))
    → (clean (elim (as_string u) [ none ↦ err m | some s ↦ check s ]) ≡ true) ↔ StringWith P u
StringWith-iff (known (string s)) m check P each = (
  λ h. (s, refl, (each s).iff.0 h),
  λ (t, e, p). let same : t ≡ s = ground arith in (each s).iff.1 (subst P same p),
)
StringWith-iff _ m check P each = (λ h. cc, λ (t, e, p). cc)

StringWith-ok :
    (u : Unknown) (m : Message) (check : String → Report) (P : String → Type 0)
    → ((s : String) → Accepts (check s) (P s))
    → Accepts (elim (as_string u) [ none ↦ err m | some s ↦ check s ]) (StringWith P u)
StringWith-ok u m check P each = record { iff = StringWith-iff u m check P each }

needs_ok :
    (u : Unknown) (from name : String) (ctx : Message)
    → Accepts (needs u from name ctx) (SomeText u)
unfolding needs
needs_ok u from name ctx = accepts_test _ _ (SomeText-iff u)

is_true : (b : Bool) → (b ≡ true) ↔ (b ≡ true)
is_true b = (λ h. h, λ h. h)

url_part_ok :
    (u : Unknown) (ctx : Message)
    → Accepts
        (validate_url_part u ctx)
        (Absent u ⊎ StringWith (λ s. member s valid_ui_extract_url_parts ≡ true) u)
unfolding validate_url_part
url_part_ok u ctx = accepts_optional u _ (
    StringWith-ok u _ _ (λ s. member s valid_ui_extract_url_parts ≡ true)
      (λ s. accepts_test (member s valid_ui_extract_url_parts) _ (is_true _)))

-- The fields that a source needs, by where it reads from.
abbrev pub RequiredForm : String → Value → Type 0
RequiredForm from o =
    if member from ("text" ∷ "value" ∷ "count" ∷ "exists" ∷ [])
    then SomeText (get o "selector")
    else if member from ("attribute" ∷ [])
    then SomeText (get o "selector") and SomeText (get o "name")
    else if member from ("url" ∷ [])
    then Absent (get o "part")
      ⊎ StringWith (λ s. member s valid_ui_extract_url_parts ≡ true) (get o "part")
    else if member from ("cookie" ∷ [])
    then SomeText (get o "name")
    else if member from ("localStorage" ∷ "sessionStorage" ∷ [])
    then SomeText (get o "key")
    else Unit

required_ok :
    (o : Value) (from : String) (ctx : Message)
    → Accepts (validate_required_extract_fields o from ctx) (RequiredForm from o)
unfolding validate_required_extract_fields
required_ok o from ctx =
    accepts_choice (member from ("text" ∷ "value" ∷ "count" ∷ "exists" ∷ [])) _ _
      (needs_ok (get o "selector") from "selector" ctx)
      (accepts_choice (member from ("attribute" ∷ [])) _ _
        (accepts_seq _ _ (needs_ok (get o "selector") from "selector" ctx)
          (needs_ok (get o "name") from "name" ctx))
        (accepts_choice (member from ("url" ∷ [])) _ _ (url_part_ok (get o "part") ctx) (
          accepts_choice (member from ("cookie" ∷ [])) _ _ (needs_ok (get o "name") from "name" ctx)
            (accepts_choice (member from ("localStorage" ∷ "sessionStorage" ∷ [])) _ _
              (needs_ok (get o "key") from "key" ctx) accepts_pass))))

then_quiet : (a b : Report) {P : Type 0} → clean b ≡ true → Accepts a P → Accepts (a ++ b) P
then_quiet a b h p =
    let both = clean-seq_iff a b in
    record { iff = (λ k. p.iff.0 (both.0 k).0, λ q. both.1 (p.iff.1 q, h)) }

clean-hint : (b : Bool) (m : Message) → clean (only_if (not b) (warn m)) ≡ true
clean-hint b m = ground arith

accepts_when :
    (b : Bool) (r : Report) (m : Message) {P Q : Type 0}
    → (b ≡ true) ↔ P
    → Accepts r Q
    → Accepts (if b then r else err m) (P × Q)
accepts_when true r m e q = record { iff = (λ h. (e.0 refl, q.iff.0 h), λ p. q.iff.1 p.1) }
accepts_when false r m e q = record { iff = (λ h. cc, λ p. cc (e.1 p.0)) }

natural_iff :
    (u : Unknown) (m : Message)
    → (clean (elim (as_integer u) [ none ↦ err m | some z ↦ only_if (ltb_ℤ z (pos 0)) (err m) ])
        ≡ true)
      ↔ NaturalForm u
natural_iff (known (number (int (pos n)))) m = (λ h. (n, refl), λ p. ground arith)
natural_iff (known (number (int (negsuc n)))) m = (λ h. absurd (ground arith), λ (k, e). cc)
natural_iff _ m = (λ h. cc, λ (k, e). cc)

natural_then :
    (b : Bool) (u : Unknown) (m n : Message)
    → Accepts
        ((elim (as_integer u) [ none ↦ err m | some z ↦ only_if (ltb_ℤ z (pos 0)) (err m) ])
          ++ only_if (not b) (warn n))
        (NaturalForm u)
natural_then b u m n =
    then_quiet (elim (as_integer u) [ none ↦ err m | some z ↦ only_if (ltb_ℤ z (pos 0)) (err m) ])
      (only_if (not b) (warn n)) (clean-hint b n) (record { iff = natural_iff u m })

module _ (is_regex : String → Bool) where
  -- A source: where it reads from, what that needs, a pattern if any, and a group's number if any.
  abbrev pub SourceForm : Value → Type 0
  SourceForm o =
      StringWith
        (λ from.
          (member from valid_ui_extract_from ≡ true)
          and RequiredForm from o
          and (Absent (get o "pattern") ⊎ StringWith (λ s. is_regex s ≡ true) (get o "pattern"))
          and (Absent (get o "group") ⊎ NaturalForm (get o "group")))
        (get o "from")

  pattern_ok :
      (u : Unknown) (ctx : Message)
      → Accepts (validate_pattern is_regex u ctx) (Absent u ⊎ StringWith (λ s. is_regex s ≡ true) u)
  unfolding validate_pattern
  pattern_ok u ctx =
      accepts_optional u _ (
        StringWith-ok u _ _ (λ s. is_regex s ≡ true) (λ s. accepts_test (is_regex s) _ (is_true _)))

  group_ok :
      (group pattern : Unknown) (ctx : Message)
      → Accepts
          (validate_group_number is_regex group pattern ctx)
          (Absent group ⊎ NaturalForm group)
  unfolding validate_group_number
  group_ok group pattern ctx = accepts_optional group _ (
      natural_then (is_defined pattern) group
        (says ctx ": \"group\" must be a non-negative integer when provided")
        (says ctx ": \"group\" has no effect without \"pattern\""))

  from_ok :
      (o : Value) (from : String) (ctx : Message)
      → Accepts (validate_extract_from is_regex o from ctx) (
          (member from valid_ui_extract_from ≡ true)
          and RequiredForm from o
          and (Absent (get o "pattern") ⊎ StringWith (λ s. is_regex s ≡ true) (get o "pattern"))
          and (Absent (get o "group") ⊎ NaturalForm (get o "group")))
  unfolding validate_extract_from
  from_ok o from ctx = accepts_guard (member from valid_ui_extract_from) _ _ (is_true _) (
      accepts_seq _ _ (required_ok o from ctx) (
        accepts_seq _ _ (pattern_ok (get o "pattern") ctx)
          (group_ok (get o "group") (get o "pattern") ctx)))

  source_ok :
      (v : Value) (ctx : Message)
      → Accepts (validate_extract_source is_regex v ctx) (PlainWith SourceForm (known v))
  unfolding validate_extract_source
  source_ok v ctx =
      plain_ok (known v) _ _ SourceForm (λ o.
        accepts_keys o _ _ _ (StringWith-ok (get o "from") _ _ _ (λ from. from_ok o from ctx)))

  -- Variables, each a word with a source.
  abbrev pub VariablesForm : List (String × Value) → Type 0
  VariablesForm es =
      All (λ (e : String × Value). (is_word_text e.0 ≡ true) × PlainWith SourceForm (known e.1)) es

  abbrev pub ExtractForm : Unknown → Type 0
  ExtractForm u = (fs : Fields) × (u ≡ known (object fs)) × VariablesForm (entries fs)

  variables_iff :
      (es : List (String × Value)) (ctx : Message)
      → (clean (validate_extract_variables is_regex ctx es) ≡ true) ↔ VariablesForm es
  unfolding validate_extract_variables
  variables_iff [] ctx = (λ h. tt, λ h. refl)
  variables_iff ((name, source) ∷ es) ctx =
      (accepts_seq _ _
        (accepts_when (is_word_text name) _ _ (is_true (is_word_text name))
          (source_ok source (ctx ++ text ".extract." ∷ quoted name ∷ [])))
        (record { iff = variables_iff es ctx })).iff

  pub extract_ok :
      (u : Unknown) (ctx : Message) → Accepts (validate_extract is_regex u ctx) (ExtractForm u)
  unfolding validate_extract
  extract_ok (known (object fs)) ctx =
      let all =
        (accepts_warn (eqb (length (entries fs)) 0) (says ctx ".extract: has no variables defined")
          _ (record { iff = variables_iff (entries fs) ctx })).iff in
      record {
        iff = (
          λ h. (fs, refl, all.0 h),
          λ (gs, e, p).
              let same : gs ≡ fs = ground arith in
              all.1 (subst (λ (x : Fields). VariablesForm (entries x)) same p),
        );
      }
  extract_ok _ ctx = record { iff = (λ h. cc, λ (gs, e, p). cc) }
