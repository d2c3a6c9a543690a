-- ===== src/Validator/Refs/Variables.antt =====
-- shared/definition-validator/validate-tests.ts: `resolveVariablesRef` and `validateVariablesField`.
-- `absolute` is `path.resolve`, `resolve` is `path.resolve(path.dirname(from), to)`, `exists` is
-- `fs.existsSync`, and `read` is the parse of a file: `none` if it throws, `undefined` for an empty
-- YAML file. The set of visited paths is the list of them, without repetitions. The recursion along
-- the chain of files is on fuel, one more than `MAX_REF_DEPTH`.
pub mod Laws
pub mod Fuel
use dokkimi.Prelude.{
  ℕ, zero, suc, String, Bool, true, false, not, Option, none, some, List, [], ◌∷◌, ◌++◌, ltb,
  length, member, every, if◌then◌else◌,
}
use dokkimi.Prelude.Text.{is_word_text}
use dokkimi.Json.{
  Value, string, array, object, Fields, end, field, Unknown, undefined, known, method, own, entries,
  elements, is_defined,
}
use dokkimi.Json.Merge.{merge, without}
use dokkimi.Report.{Report, Message, text, quoted, says, err, pass, only_if, ◌>>◌}
use dokkimi.Validator.Keys.{max_ref_depth}

-- What a function that pushes errors returns besides: its result, or `null`.
abbrev pub Outcome : Type 0
Outcome = Report × Option Fields

-- `[ref]` for a text, `ref` for a list.
unfoldable pub ref_list : Unknown → Option (List Value)
ref_list (known (string s)) = some (string s ∷ [])
ref_list (known (array vs)) = some (elements vs)
ref_list _ = none

abbrev pub ref_context : String → Message
ref_context s = text "variables.$ref \"" ∷ quoted s ∷ text "\"" ∷ []

unfoldable pub check_ref_keys : String → List (String × Value) → Report
check_ref_keys s [] = pass
check_ref_keys s ((key, v) ∷ es) = do
  only_if (not (is_word_text key)) (
      err (
        ref_context s
        ++ text ": key \""
          ∷ quoted key
          ∷ text "\" must be alphanumeric (letters, digits, underscores)"
          ∷ []))
  check_ref_keys s es

-- The fields of a file without `$ref`, if every key of it is a word.
unfoldable pub plain_variables : String → Fields → Outcome
unfolding check_ref_keys
plain_variables s fs = (
  check_ref_keys s (entries fs),
  if every (λ (e : String × Value). is_word_text e.0) (entries fs) then some fs else none,
)

-- `Object.assign(merged, new)`, as long as no error was met.
unfoldable pub with_result : Option Fields → Option Fields → Option Fields
with_result none merged = none
with_result (some new) none = none
with_result (some new) (some fs) = some (merge fs new)

module _ (absolute : String → String) (resolve : String → String → String) (exists : String → Bool)
    (read : String → Option Unknown) where
  abbrev pub Resolver : Type 0
  Resolver = List String → String → Fields → Outcome

  -- What a file that a reference names contributes.
  unfoldable pub ref_content : Resolver → List String → String → String → Option Unknown → Outcome
  unfolding plain_variables
  ref_content rec visited s p none = (err (ref_context s ++ text " could not be parsed" ∷ []), none)
  ref_content rec visited s p (some (known (object fs))) =
      if is_defined (own fs "$ref") then rec (p ∷ visited) p fs else plain_variables s fs
  ref_content rec visited s p (some _) =
      (err (ref_context s ++ text " must be a plain object" ∷ []), none)

  unfoldable pub one_ref : Resolver → List String → String → Value → Outcome
  unfolding ref_content
  one_ref rec visited source (string s) =
      let p = resolve source s in
      if member p visited
      then (
        err (
            text "variables.$ref: circular $ref detected — \""
            ∷ quoted s
            ∷ text "\" already in resolution chain"
            ∷ []),
        none,
      )
      else if not (exists p)
      then (err (ref_context s ++ text " not found (resolved to " ∷ quoted p ∷ text ")" ∷ []), none)
      else ref_content rec visited s p (read p)
  one_ref rec visited source _ =
      (err (text "variables.$ref array entries must be strings" ∷ []), none)

  -- The loop over the references, left to right, with what is merged so far. After an error it goes
  -- on for the sake of the other errors.
  unfoldable pub all_refs : Resolver → List String → String → List Value → Option Fields → Outcome
  unfolding one_ref with_result
  all_refs rec visited source [] merged = (pass, merged)
  all_refs rec visited source (ref ∷ refs) merged =
      let o = one_ref rec visited source ref in
      let rest = all_refs rec visited source refs (with_result o.1 merged) in
      (o.0 >> rest.0, rest.1)

  -- Inline keys override those of the files.
  unfoldable pub override : Fields → Outcome → Outcome
  override inline (r, none) = (r, none)
  override inline (r, some fs) = (r, some (merge fs inline))

  unfoldable pub variables_refs : Resolver → List String → String → Unknown → Fields → Outcome
  unfolding ref_list all_refs override
  variables_refs rec visited source undefined inline = (pass, some inline)
  variables_refs rec visited source u inline = elim (ref_list u) [
    | none ↦ (err (text "variables.$ref must be a string or array of strings" ∷ []), none)
    | some refs ↦ override inline (all_refs rec visited source refs (some end))
  ]

  unfoldable pub variables_from : ℕ → List String → String → Fields → Outcome
  unfolding variables_refs
  variables_from zero visited source vars = (pass, none)
  variables_from (suc fuel) visited source vars =
      if ltb max_ref_depth (length visited)
      then (err (text "variables.$ref: $ref chain exceeds maximum depth of 10" ∷ []), none)
      else variables_refs (variables_from fuel) visited source (own vars "$ref")
          (without "$ref" vars)

  unfoldable pub resolve_variables_ref : Fields → String → Outcome
  unfolding variables_from
  resolve_variables_ref vars source =
      variables_from (suc max_ref_depth) (absolute source ∷ []) source vars

  -- The keys of the resolved variables. (No value of a parsed file is undefined.)
  unfoldable pub check_keys : Message → List (String × Value) → Report
  check_keys ctx [] = pass
  check_keys ctx ((key, v) ∷ es) = do
    only_if (not (is_word_text key)) (
        err (
          ctx
          ++ text ".variables: key \""
            ∷ quoted key
            ∷ text "\" must be alphanumeric (letters, digits, underscores)"
            ∷ []))
    check_keys ctx es

  unfoldable pub check_resolved : Message → Outcome → Report
  unfolding check_keys
  check_resolved ctx (r, none) = r
  check_resolved ctx (r, some fs) = r >> check_keys ctx (entries fs)

  unfoldable pub validate_variables_field : Unknown → Message → String → Report
  unfolding resolve_variables_ref check_resolved
  validate_variables_field undefined ctx source = pass
  validate_variables_field (known (object fs)) ctx source =
      check_resolved ctx (resolve_variables_ref fs source)
  validate_variables_field _ ctx source = err (says ctx ": \"variables\" must be a plain object")
