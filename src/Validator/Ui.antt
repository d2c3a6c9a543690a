-- ===== src/Validator/Ui.antt =====
-- shared/definition-validator/validate-ui-action.ts: `validateUiAction` and `validateUiSubStep`. The
-- recursion on the steps of a group is on fuel, the depth of the sub-step and one more.
pub mod SubSteps
pub mod Extracts
pub mod Forms
pub mod Kinds
pub mod Sources
pub mod Accepted
mod Fuel
use dokkimi.Prelude.{
  ℕ, zero, suc, String, Bool, true, false, ◌||◌, ◌&&◌, not, Option, none, some, List, [], ◌∷◌, ◌++◌,
  ◌==◌, member, keep, some_of, eqb, length, if◌then◌else◌,
}
use dokkimi.Prelude.Text.{is_present}
use dokkimi.Json.{
  Value, array, object, elements, Fields, Unknown, known, get, keys, as_array, as_text, is_defined,
  depth,
}
use dokkimi.Report.{
  Report, Message, text, quoted, says, at, listed, err, warn, pass, only_if, for_each, ◌>>◌,
}
use dokkimi.Validator.Keys.Ui.{valid_ui_sub_step_keys, valid_ui_sub_step_optional_keys}
use dokkimi.Validator.Loops.Levels.{step_level}
use dokkimi.Validator.Loops.Modifiers.{validate_loop_modifiers}
use SubSteps.{
  need_text, is_positive_integer, validate_visit, validate_click, validate_type, validate_wait_for,
  validate_screenshot, validate_scroll, validate_select, validate_hover, validate_key,
  validate_upload, validate_drag, validate_viewport,
}
use Extracts.{validate_extract}

abbrev pub is_loop_key : String → Bool
is_loop_key k = k == "forEach" || k == "for" || k == "repeat"

abbrev pub is_kind_key : String → Bool
is_kind_key k = member k valid_ui_sub_step_keys

-- The keys of a sub-step that name its kind.
abbrev pub kind_keys : Fields → List String
kind_keys fs = keep is_kind_key (keys (object fs))

unfoldable pub warn_sub_step_keys : Message → List String → Report
warn_sub_step_keys ctx [] = pass
warn_sub_step_keys ctx (k ∷ ks) = do
  only_if (not (is_kind_key k) && not (member k valid_ui_sub_step_optional_keys))
      (warn (ctx ++ text ": unknown sub-step key \"" ∷ quoted k ∷ text "\"" ∷ []))
  warn_sub_step_keys ctx ks

-- The positive integer of milliseconds that a sub-step may have.
unfoldable pub validate_timeout : Unknown → Message → Report
validate_timeout u ctx =
    only_if (is_defined u && not (is_positive_integer u))
      (err (says ctx ".timeoutMs: must be a positive integer (milliseconds)"))

module _ (is_regex : String → Bool) where
  unfoldable pub validate_kind : String → Unknown → Message → Report
  validate_kind kind value ctx =
      if kind == "visit"
      then validate_visit value ctx
      else if kind == "click"
      then validate_click value ctx
      else if kind == "type"
      then validate_type value ctx
      else if kind == "waitFor"
      then validate_wait_for value ctx
      else if kind == "extract"
      then validate_extract is_regex value ctx
      else if kind == "screenshot"
      then validate_screenshot value ctx
      else if kind == "scroll"
      then validate_scroll value ctx
      else if kind == "select"
      then validate_select value ctx
      else if kind == "hover"
      then validate_hover value ctx
      else if kind == "key"
      then validate_key value ctx
      else if kind == "upload"
      then validate_upload value ctx
      else if kind == "drag"
      then validate_drag value ctx
      else if kind == "viewport"
      then validate_viewport value ctx
      else pass

  -- A sub-step with the keys that name its kind.
  unfoldable pub validate_single : Fields → List String → Message → Report
  unfolding warn_sub_step_keys validate_timeout validate_kind
  validate_single fs [] ctx = err (
      says ctx ": missing sub-step kind — expected exactly one of: "
      ++ listed valid_ui_sub_step_keys)
  validate_single fs (kind ∷ []) ctx = do
    warn_sub_step_keys ctx (keys (object fs))
    validate_timeout (get (object fs) "timeoutMs") ctx
    validate_kind kind (get (object fs) kind) ctx
  validate_single fs (kind ∷ other ∷ more) ctx = err (
      ctx
      ++ text ": sub-step has multiple kind keys (" ∷ listed (kind ∷ other ∷ more)
      ++ text "); expected exactly one" ∷ [])

  unfoldable pub validate_group_steps : (Value → Message → Report) → Unknown → Message → Report
  validate_group_steps sub_step (known (array vs)) ctx =
      for_each (λ i v. sub_step v (at ctx ".steps" i)) 0 (elements vs)
  validate_group_steps sub_step _ ctx = err (says ctx ": sub-step group \"steps\" must be an array")

  -- A group of sub-steps, by the keys that name a kind.
  unfoldable pub validate_group :
      (Value → Message → Report) → Fields → List String → Message → Report
  unfolding validate_group_steps
  validate_group sub_step fs [] ctx = do
    (validate_loop_modifiers (object fs) ctx false step_level).0
    validate_group_steps sub_step (get (object fs) "steps") ctx
  validate_group sub_step fs (kind ∷ more) ctx = err (
      ctx
      ++ text ": sub-step group cannot have both a loop modifier and a sub-step kind ("
        ∷ listed (kind ∷ more)
      ++ text ")" ∷ [])

  -- Whether an object is a group: it has a loop modifier and steps.
  abbrev pub is_group : Fields → Bool
  is_group fs = some_of is_loop_key (keys (object fs)) && is_defined (get (object fs) "steps")

  unfoldable pub sub_step_body : ℕ → Value → Message → Report
  unfolding validate_single validate_group
  sub_step_body zero v ctx = pass
  sub_step_body (suc fuel) (object fs) ctx =
      if is_group fs
      then validate_group (sub_step_body fuel) fs (kind_keys fs) ctx
      else validate_single fs (kind_keys fs) ctx
  sub_step_body (suc fuel) _ ctx = err (says ctx ": must be an object")

  unfoldable pub validate_ui_sub_step : Value → Message → Report
  unfolding sub_step_body
  validate_ui_sub_step v ctx = sub_step_body (suc (depth v)) v ctx

  unfoldable pub validate_ui_steps : Unknown → Message → Report
  unfolding validate_ui_sub_step
  validate_ui_steps steps ctx = elim (as_array steps) [
    | none ↦
        if is_defined steps
        then err (says ctx ": ui action \"steps\" must be an array")
        else err (says ctx ": ui action requires \"steps\" array")
    | some vs ↦ do
      only_if (eqb (length vs) 0)
          (warn (says ctx ": ui action \"steps\" is empty — the action will do nothing"))
      for_each (λ i v. validate_ui_sub_step v (at ctx ".steps" i)) 0 vs
  ]

  unfoldable pub validate_ui_action : Value → Message → Report
  unfolding need_text validate_ui_steps
  validate_ui_action action ctx = do
    need_text (get action "target") ": ui action requires non-empty \"target\" (service name)" ctx
    validate_ui_steps (get action "steps") ctx
