-- ===== src/Validator/Screenshots.antt =====
-- shared/definition-validator/validate-tests.ts: the names of a test's screenshots. The two loops
-- gather the captures in order, and the map of the seen names is an association list. As in the source,
-- the sub-steps of groups and the actions of a parallel step are not looked at.
pub mod Distinct
use dokkimi.Prelude.{
  ℕ, suc, Bool, true, false, ◌||◌, ◌&&◌, not, Option, none, some, List, [], ◌∷◌, ◌++◌, String, ◌==◌,
  if◌then◌else◌,
}
use dokkimi.Json.{
  Value, Unknown, undefined, known, method, get, as_object, as_plain, as_array, as_text, is_text,
}
use dokkimi.Report.{Report, Message, text, quoted, index, at, err, pass, ◌>>◌}

-- `u?.key`.
get_from : Unknown → String → Unknown
get_from (known v) key = get v key
get_from _ key = undefined

-- The name of a sub-step's screenshot: the text itself, or the `name` of an object.
pub extract_screenshot_name : Value → Option String
extract_screenshot_name sub = elim (as_text (get sub "screenshot")) [
  | some s ↦ some s
  | none ↦ elim (as_plain (get sub "screenshot")) [
    | none ↦ none
    | some obj ↦ as_text (get obj "name")
  ]
]

-- A capture, its name and where it is, in front of those that follow.
with_capture : Option String → Message → List (String × Message) → List (String × Message)
with_capture none here next = next
with_capture (some name) here next = (name, here) ∷ next

sub_captures : Message → ℕ → List Value → List (String × Message)
unfolding with_capture
sub_captures step_ctx i [] = []
sub_captures step_ctx i (sub ∷ rest) =
    let next = sub_captures step_ctx (suc i) rest in
    elim (as_object (known sub)) [
      | none ↦ next
      | some v ↦ with_capture (extract_screenshot_name v) (at step_ctx ".action.steps" i) next
    ]

ui_captures : Message → Option (List Value) → List (String × Message)
unfolding sub_captures
ui_captures step_ctx none = []
ui_captures step_ctx (some subs) = sub_captures step_ctx 0 subs

step_captures : Message → Value → List (String × Message)
unfolding ui_captures get_from
step_captures step_ctx step =
    let action = get step "action" in
    if is_text (get_from action "type") "ui"
    then ui_captures step_ctx (as_array (get_from action "steps"))
    else []

unfoldable pub captures : Message → ℕ → List Value → List (String × Message)
unfolding step_captures ui_captures sub_captures with_capture extract_screenshot_name get_from
captures ctx i [] = []
captures ctx i (step ∷ rest) = step_captures (at ctx ".steps" i) step ++ captures ctx (suc i) rest

-- `seen.get(name)`.
prior_of : String → List (String × Message) → Option Message
prior_of name [] = none
prior_of name ((key, place) ∷ seen) = if key == name then some place else prior_of name seen

check_names : List (String × Message) → List (String × Message) → Report
check_names seen [] = pass
check_names seen ((name, here) ∷ rest) = elim (prior_of name seen) [
  | some prior ↦
      err (
        here
        ++ text ": duplicate screenshot name \"" ∷ quoted name ∷ text "\" — also used at " ∷ prior)
      >> check_names seen rest
  | none ↦ check_names ((name, here) ∷ seen) rest
]

unfoldable pub validate_screenshot_name_uniqueness : Unknown → Message → Report
unfolding check_names prior_of
validate_screenshot_name_uniqueness steps ctx = elim (as_array steps) [
  | none ↦ pass
  | some vs ↦ check_names [] (captures ctx 0 vs)
]
