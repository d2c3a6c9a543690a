-- ===== src/Validator/Where.antt =====
-- shared/definition-validator/validate-assertions.ts: counts and where entries.
-- `validateWhereEntry` calls itself on what it finds in the entry: the recursion is on fuel, and the
-- depth of the entry is enough. A value is a finite tree here; on a recursive alias of YAML the
-- recursion of the source does not end.
pub mod Fuel
pub mod Form
pub mod Sound
pub mod Complete
pub mod Counts
use dokkimi.Prelude.{
  ℕ, zero, suc, Bool, true, false, ◌||◌, ◌&&◌, not, Option, none, some, List, [], ◌∷◌, ◌++◌, String,
  count_of, ltb, eqb, if◌then◌else◌,
}
use dokkimi.Prelude.Text.{has_prefix, is_present}
use dokkimi.Json.{
  Value, Unknown, undefined, known, get, truthy, is_defined, as_plain, as_array, as_string,
  as_number, as_integer, is_one_of, depth_unknown,
}
use dokkimi.Json.Numbers.{is_integer, is_less, zero_number}
use dokkimi.Report.{
  Report, Message, text, says, listed, at, err, pass, only_if, for_each, ◌>>◌, check_unknown_keys,
}
use dokkimi.Validator.Keys.{
  valid_count_assertion_keys, valid_count_operators, valid_where_entry_keys,
  valid_assertion_operators,
}

pub validate_count_assertion : Unknown → Message → Report
validate_count_assertion count ctx = elim (as_plain count) [
  | none ↦ err (says ctx ": must be an object")
  | some c ↦ do
    check_unknown_keys c valid_count_assertion_keys ctx
    only_if
        (not (truthy (get c "operator"))
          || not (is_one_of (get c "operator") valid_count_operators))
        (err (says ctx ": operator must be one of: " ++ listed valid_count_operators))
    only_if (not (is_present (as_integer (get c "value"))))
        (err (says ctx ": value must be an integer"))
]

pub validate_match_count : Unknown → Message → Report
unfolding validate_count_assertion
validate_match_count count ctx = elim (as_number count) [
  | some n ↦
      only_if (not (is_integer n) || is_less n zero_number)
        (err (says ctx ": count must be a non-negative integer"))
  | none ↦
      if is_present (as_plain count)
      then validate_count_assertion count ctx
      else err (says ctx ": count must be a number or {operator, value} object")
]

-- The `path` form of an entry.
where_path : Value → Message → Report
where_path e ctx = do
  elim (as_string (get e "path")) [
    | none ↦ err (says ctx ": path must be a string")
    | some path ↦
        only_if (not (has_prefix "$$." path))
          (err (says ctx ": where path must start with \"$$.\" (scoped element)"))
  ]
  if not (is_defined (get e "operator"))
      then err (says ctx ": \"operator\" is required")
      else only_if (not (is_one_of (get e "operator") valid_assertion_operators))
          (err (says ctx ": operator must be one of: " ++ listed valid_assertion_operators))

-- The `or` and `and` forms: every element is an entry.
where_list : (Unknown → Message → Report) → Unknown → String → Message → Report
where_list entry list key ctx = elim (as_array list) [
  | none ↦ err (ctx ++ text key ∷ text ": must be a non-empty array" ∷ [])
  | some vs ↦ elim vs [
    | [] ↦ err (ctx ++ text key ∷ text ": must be a non-empty array" ∷ [])
    | v ∷ rest ↦ for_each (λ i x. entry (known x) (at ctx key i)) 0 (v ∷ rest)
  ]
]

where_forms : (Unknown → Message → Report) → Value → Message → Report
where_forms entry e ctx =
    let has_path = is_defined (get e "path") in
    let has_or = is_defined (get e "or") in
    let has_and = is_defined (get e "and") in
    let has_not = is_defined (get e "not") in
    let form_count = count_of (λ b. b) (has_path ∷ has_or ∷ has_and ∷ has_not ∷ []) in
    if eqb form_count 0
    then err (says ctx ": must have one of: path, or, and, not")
    else if ltb 1 form_count
    then err (says ctx ": only one of path, or, and, not may be specified")
    else do
      only_if has_path (where_path e ctx)
      only_if has_or (where_list entry (get e "or") ".or" ctx)
      only_if has_and (where_list entry (get e "and") ".and" ctx)
      only_if has_not (entry (get e "not") (says ctx ".not"))

-- The body of the recursion.
pub where_entry : ℕ → Unknown → Message → Report
where_entry zero entry ctx = pass
where_entry (suc fuel) entry ctx = elim (as_plain entry) [
  | none ↦ err (says ctx ": must be an object")
  | some e ↦ do
    check_unknown_keys e valid_where_entry_keys ctx
    where_forms (where_entry fuel) e ctx
]

pub validate_where_entry : Unknown → Message → Report
validate_where_entry entry ctx = where_entry (suc (depth_unknown entry)) entry ctx
