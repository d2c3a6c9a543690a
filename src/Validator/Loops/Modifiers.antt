-- ===== src/Validator/Loops/Modifiers.antt =====
-- shared/definition-validator/validate-loops.ts: the modifiers of one object, and what may not stand
-- beside a loop.
pub mod Chosen
pub mod Bodies
mod Examples
use dokkimi.Prelude.{
  ℕ, zero, suc, Bool, true, false, ◌||◌, ◌&&◌, not, Option, none, some, List, [], ◌∷◌, ◌++◌, String,
  keep, length, member, leb, ltb, eqb, if◌then◌else◌,
}
use dokkimi.Prelude.Int.{ℤ, pos, ◌+ℤ◌, ltb_ℤ}
use dokkimi.Prelude.Text.{has_prefix, is_present, is_word_text}
use dokkimi.Json.{
  Value, number, Unknown, known, get, keys, is_defined, as_object, as_plain, as_array, as_string,
  as_text, as_number, as_integer,
}
use dokkimi.Json.Numbers.{Number, int, is_less, is_zero, zero_number, floor_quotient, span}
use dokkimi.Report.{
  Report, Message, text, shown, says, listed, at, err, pass, only_if, for_each, ◌>>◌,
  check_unknown_keys,
}
use dokkimi.Validator.Keys.{valid_for_each_keys, valid_for_keys, valid_repeat_keys}
use dokkimi.Validator.Assertions.{validate_assertion}
use dokkimi.Validator.Loops.Levels.{LoopLevel, loop_modifier_keys, under, validate_loop_body}
use dokkimi.Validator.Loops.Kinds.{validate_for_each_loop, validate_for_loop, validate_repeat_loop}

pub data Modifier : Type 0 where
  for_each_loop for_loop repeat_loop : Modifier

abbrev pub modifier_key : Modifier → String
modifier_key for_each_loop = "forEach"
modifier_key for_loop = "for"
modifier_key repeat_loop = "repeat"

pub present_modifiers : Value → List Modifier
present_modifiers obj =
    keep (λ m. is_defined (get obj (modifier_key m))) (for_each_loop ∷ for_loop ∷ repeat_loop ∷ [])

pub modifier_names : List Modifier → List String
modifier_names [] = []
modifier_names (m ∷ ms) = modifier_key m ∷ modifier_names ms

pub validate_modifier : Modifier → Value → Message → Bool → Report
validate_modifier for_each_loop obj ctx docs =
    validate_for_each_loop (get obj "forEach") (says ctx ".forEach") docs
validate_modifier for_loop obj ctx docs = validate_for_loop (get obj "for") (says ctx ".for")
validate_modifier repeat_loop obj ctx docs =
    validate_repeat_loop (get obj "repeat") (says ctx ".repeat")

pub validate_modifier_body : Modifier → Value → Message → LoopLevel → Report
validate_modifier_body m obj ctx level = elim (as_plain (get obj (modifier_key m))) [
  | none ↦ pass
  | some loop_value ↦ validate_loop_body loop_value (under ctx (modifier_key m)) level
]

-- What `validateLoopModifiers` does with the modifiers that are present: its report and its result.
pub validate_present : List Modifier → Value → Message → Bool → LoopLevel → Report × Option Modifier
unfolding modifier_names
validate_present [] obj ctx docs level = (pass, none)
validate_present (m ∷ []) obj ctx docs level =
    (validate_modifier m obj ctx docs >> validate_modifier_body m obj ctx level, some m)
validate_present (m ∷ n ∷ ms) obj ctx docs level = (
  err (says ctx ": only one loop modifier allowed; found " ++ listed (modifier_names (m ∷ n ∷ ms))),
  none,
)

-- `options` are `allowDocPaths` and `level`.
unfoldable pub validate_loop_modifiers :
    Value → Message → Bool → LoopLevel → Report × Option Modifier
unfolding present_modifiers validate_present
validate_loop_modifiers obj ctx docs level =
    validate_present (present_modifiers obj) obj ctx docs level

-- The three checks that a field does not stand beside a loop.
pub inside : Message → String → String → Report
inside ctx field loop_key = err (
    ctx
    ++ text ": \""
      ∷ text field
      ∷ text "\" must be inside \""
      ∷ text loop_key
      ∷ text "\" body, not a sibling"
      ∷ [])

pub step_sibling : Value → Message → ℕ → String → Report
unfolding inside
step_sibling step ctx i loop_key = only_if (is_present (as_plain (get step loop_key))) (
    only_if (is_defined (get step "assertions")) (inside ctx "assertions" loop_key)
    >> only_if (is_defined (get step "extract")) (inside ctx "extract" loop_key))

unfoldable pub validate_loop_sibling_conflicts : Value → Message → Report
unfolding step_sibling inside
validate_loop_sibling_conflicts step ctx = for_each (step_sibling step ctx) 0 loop_modifier_keys

pub sibling : String → Value → Message → ℕ → String → Report
unfolding inside
sibling field obj ctx i loop_key =
    only_if (is_present (as_plain (get obj loop_key)))
      (only_if (is_defined (get obj field)) (inside ctx field loop_key))

unfoldable pub validate_test_loop_sibling_conflicts : Value → Message → Report
unfolding sibling inside
validate_test_loop_sibling_conflicts test ctx =
    for_each (sibling "steps" test ctx) 0 loop_modifier_keys

pub validate_block_loop_sibling_conflicts : Value → Message → Report
unfolding sibling
validate_block_loop_sibling_conflicts block ctx =
    for_each (sibling "assertions" block ctx) 0 loop_modifier_keys
