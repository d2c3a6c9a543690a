-- ===== src/Validator/Ui/Extracts.antt =====
-- shared/definition-validator/validate-ui-substeps.ts: `validateExtract`. `is_regex` tells whether
-- `new RegExp(pattern)` succeeds.
use dokkimi.Prelude.{
  String, Bool, not, none, some, List, [], ◌∷◌, ◌++◌, member, eqb, length, if◌then◌else◌,
}
use dokkimi.Prelude.Int.{pos, ltb_ℤ}
use dokkimi.Prelude.Text.{is_present, is_word_text}
use dokkimi.Json.{
  Value, object, Unknown, known, get, as_string, as_text, as_integer, is_defined, entries,
}
use dokkimi.Report.{
  Report, Message, text, quoted, says, listed, err, warn, pass, only_if, ◌>>◌, check_unknown_keys,
}
use dokkimi.Validator.Keys.Ui.{
  valid_ui_extract_source_keys, valid_ui_extract_from, valid_ui_extract_url_parts,
}
use dokkimi.Validator.Ui.SubSteps.{with_plain}

unfoldable pub validate_url_part : Unknown → Message → Report
validate_url_part part ctx = only_if (is_defined part) (elim (as_string part) [
  | none ↦ err (says ctx ": from \"url\" \"part\" must be a string when provided")
  | some s ↦ only_if (not (member s valid_ui_extract_url_parts)) (
      err (
        ctx
        ++ text ": from \"url\" invalid \"part\" \""
          ∷ quoted s
          ∷ text "\" — must be one of: "
          ∷ listed valid_ui_extract_url_parts))
])

unfoldable pub needs : Unknown → String → String → Message → Report
needs u from name ctx = only_if (not (is_present (as_text u))) (
    err (
      ctx
      ++ text ": from \""
        ∷ quoted from
        ∷ text "\" requires non-empty \""
        ∷ text name
        ∷ text "\""
        ∷ []))

unfoldable pub validate_required_extract_fields : Value → String → Message → Report
unfolding validate_url_part needs
validate_required_extract_fields obj from ctx =
    if member from ("text" ∷ "value" ∷ "count" ∷ "exists" ∷ [])
    then needs (get obj "selector") from "selector" ctx
    else if member from ("attribute" ∷ [])
    then (needs (get obj "selector") from "selector" ctx >> needs (get obj "name") from "name" ctx)
    else if member from ("url" ∷ [])
    then validate_url_part (get obj "part") ctx
    else if member from ("cookie" ∷ [])
    then needs (get obj "name") from "name" ctx
    else if member from ("localStorage" ∷ "sessionStorage" ∷ [])
    then needs (get obj "key") from "key" ctx
    else pass

module _ (is_regex : String → Bool) where
  unfoldable pub validate_pattern : Unknown → Message → Report
  validate_pattern u ctx = only_if (is_defined u) (elim (as_string u) [
    | none ↦ err (says ctx ": \"pattern\" must be a string regex when provided")
    | some s ↦ only_if (not (is_regex s)) (err (says ctx ": \"pattern\" is not a valid regex"))
  ])

  unfoldable pub validate_group_number : Unknown → Unknown → Message → Report
  validate_group_number group pattern ctx = only_if (is_defined group) (
      (elim (as_integer group) [
        | none ↦ err (says ctx ": \"group\" must be a non-negative integer when provided")
        | some z ↦
            only_if (ltb_ℤ z (pos 0))
              (err (says ctx ": \"group\" must be a non-negative integer when provided"))
      ])
      >> only_if (not (is_defined pattern))
          (warn (says ctx ": \"group\" has no effect without \"pattern\"")))

  unfoldable pub validate_extract_from : Value → String → Message → Report
  unfolding validate_required_extract_fields validate_pattern validate_group_number
  validate_extract_from obj from ctx =
      if not (member from valid_ui_extract_from)
      then err (
          ctx
          ++ text ": invalid \"from\" value \""
            ∷ quoted from
            ∷ text "\" — must be one of: "
            ∷ listed valid_ui_extract_from)
      else do
        validate_required_extract_fields obj from ctx
        validate_pattern (get obj "pattern") ctx
        validate_group_number (get obj "group") (get obj "pattern") ctx

  unfoldable pub validate_extract_source : Value → Message → Report
  unfolding with_plain validate_extract_from
  validate_extract_source source ctx =
      with_plain (known source) (err (says ctx ": must be an object with a \"from\" field")) (λ obj.
        check_unknown_keys obj valid_ui_extract_source_keys ctx
        >> elim (as_string (get obj "from")) [
          | none ↦ err (says ctx ": missing \"from\" discriminator")
          | some from ↦ validate_extract_from obj from ctx
        ])

  unfoldable pub validate_extract_variables : Message → List (String × Value) → Report
  unfolding validate_extract_source
  validate_extract_variables ctx [] = pass
  validate_extract_variables ctx ((var_name, source) ∷ es) = do
    if is_word_text var_name
        then validate_extract_source source (ctx ++ text ".extract." ∷ quoted var_name ∷ [])
        else err (
            ctx
            ++ text ".extract: variable name \""
              ∷ quoted var_name
              ∷ text "\" must be alphanumeric (letters, digits, underscores)"
              ∷ [])
    validate_extract_variables ctx es

  unfoldable pub validate_extract : Unknown → Message → Report
  unfolding validate_extract_variables
  validate_extract (known (object fs)) ctx =
      only_if (eqb (length (entries fs)) 0) (warn (says ctx ".extract: has no variables defined"))
      >> validate_extract_variables ctx (entries fs)
  validate_extract _ ctx =
      err (says ctx ".extract: must be an object mapping variable names to source specs")
