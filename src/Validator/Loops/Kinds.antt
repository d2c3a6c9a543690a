-- ===== src/Validator/Loops/Kinds.antt =====
-- shared/definition-validator/validate-loops.ts: the three kinds of loops and their fields.
pub mod Counts
pub mod Iterations
pub mod Plain
mod Examples
use dokkimi.Prelude.{
  ℕ, zero, suc, Bool, true, false, ◌||◌, ◌&&◌, not, Option, none, some, List, [], ◌∷◌, ◌++◌, String,
  keep, length, member, leb, ltb, eqb, if◌then◌else◌,
}
use dokkimi.Prelude.Int.{ℤ, pos, ◌+ℤ◌, ltb_ℤ}
use dokkimi.Prelude.Text.{has_prefix, is_present, is_word_text}
use dokkimi.Json.{
  Value, number, Unknown, known, get, keys, is_defined, as_object, as_plain, as_array, as_string,
  as_text, as_number, as_integer,
}
use dokkimi.Json.Numbers.{Number, int, is_less, is_zero, zero_number, floor_quotient, span}
use dokkimi.Report.{
  Report, Message, text, shown, says, listed, at, err, pass, only_if, for_each, ◌>>◌,
  check_unknown_keys,
}
use dokkimi.Validator.Keys.{valid_for_each_keys, valid_for_keys, valid_repeat_keys}
use dokkimi.Validator.Assertions.{validate_assertion}

validate_as_field : Unknown → Message → Report
validate_as_field value ctx = elim (as_text value) [
  | none ↦ err (says ctx ": \"as\" is required and must be a non-empty string")
  | some s ↦
      only_if (not (is_word_text s))
        (err (says ctx ": \"as\" must be alphanumeric (letters, digits, underscores)"))
]

validate_name_field : Unknown → Message → Report
validate_name_field value ctx = only_if (is_defined value) (elim (as_text value) [
  | none ↦ err (says ctx ": \"name\" must be a non-empty string")
  | some s ↦
      only_if (not (is_word_text s))
        (err (says ctx ": \"name\" must be alphanumeric (letters, digits, underscores)"))
])

abbrev pub max_delay_ms : ℕ
max_delay_ms = 60000

validate_delay_ms : Unknown → Message → Report
validate_delay_ms value ctx = only_if (is_defined value) (elim (as_integer value) [
  | none ↦ err (says ctx ": \"delayMs\" must be a non-negative integer")
  | some n ↦
      if ltb_ℤ n (pos 0)
      then err (says ctx ": \"delayMs\" must be a non-negative integer")
      else only_if (ltb_ℤ (pos max_delay_ms) n)
          (err (says ctx ": \"delayMs\" must not exceed 60000ms (60s)"))
])

-- `as`, `name` and `delayMs`, which every loop may have.
unfoldable pub validate_loop_fields : Value → Message → Report
unfolding validate_as_field validate_name_field validate_delay_ms
validate_loop_fields l ctx = do
  validate_as_field (get l "as") ctx
  validate_name_field (get l "name") ctx
  validate_delay_ms (get l "delayMs") ctx

validate_for_each_items : Unknown → Message → Bool → Report
validate_for_each_items items ctx allow_doc_paths =
    if not (is_defined items)
    then err (says ctx ": \"items\" is required")
    else if not (is_present (as_array items)) && not (is_present (as_string items))
    then err (says ctx ": \"items\" must be an array or a string (variable reference or $ path)")
    else elim (as_string items) [
      | none ↦ pass
      | some s ↦ only_if (has_prefix "$." s && not allow_doc_paths) (
          err (
            says ctx
              ": \"items\" with a $.path is only supported on assertion-block forEach; use a {{variable}} reference instead"))
    ]

pub validate_for_each_loop : Unknown → Message → Bool → Report
validate_for_each_loop value ctx allow_doc_paths = elim (as_plain value) [
  | none ↦ err (says ctx ": must be an object")
  | some fe ↦ do
    check_unknown_keys fe valid_for_each_keys ctx
    validate_for_each_items (get fe "items") ctx allow_doc_paths
    validate_loop_fields fe ctx
]

abbrev pub max_iterations : ℕ
max_iterations = 10000

-- The direction of the range, where both ends are numbers.
pub validate_for_step : Unknown → Unknown → Unknown → Message → Report
validate_for_step step from to ctx = elim (as_integer step) [
  | none ↦ err (says ctx ": \"step\" must be an integer")
  | some s ↦
      if is_zero (int s) then err (says ctx ": \"step\" must not be 0") else elim (as_number from) [
        | none ↦ pass
        | some f ↦ elim (as_number to) [
          | none ↦ pass
          | some t ↦ do
            only_if (is_less zero_number (int s) && is_less t f)
                (err (says ctx ": \"from\" must be <= \"to\" when \"step\" is positive"))
            only_if (is_less (int s) zero_number && is_less f t)
                (err (says ctx ": \"from\" must be >= \"to\" when \"step\" is negative"))
        ]
      ]
]

pub validate_for_direction : Unknown → Unknown → Message → Report
validate_for_direction from to ctx = elim (as_number from) [
  | none ↦ pass
  | some f ↦ elim (as_number to) [
    | none ↦ pass
    | some t ↦ only_if (is_less t f) (
        err (says ctx ": \"from\" must be <= \"to\" (use negative \"step\" for descending ranges)"))
  ]
]

pub validate_for_range : Unknown → Unknown → Unknown → Message → Report
validate_for_range step from to ctx =
    if is_defined step
    then validate_for_step step from to ctx
    else validate_for_direction from to ctx

too_many : Message → Number → Report
too_many ctx count = err (
    ctx
    ++ text ": for loop would produce "
      ∷ shown (number count)
      ∷ text " iterations, which exceeds the 10,000 limit"
      ∷ [])

-- Both branches of `fl.step > 0 ? … : …` take the floor of a non-negative step's quotient.
stepped_count : Number → Number → Number → ℤ
stepped_count f t s =
    if is_less zero_number s then floor_quotient t f s +ℤ pos 1 else floor_quotient f t s +ℤ pos 1

pub validate_for_count : Unknown → Unknown → Unknown → Message → Report
unfolding too_many stepped_count
validate_for_count step from to ctx = elim (as_number from) [
  | none ↦ pass
  | some f ↦ elim (as_number to) [
    | none ↦ pass
    | some t ↦ elim (as_number step) [
      | some s ↦
          if is_zero s
          then pass
          else only_if (ltb_ℤ (pos max_iterations) (stepped_count f t s))
              (too_many ctx (int (stepped_count f t s)))
      | none ↦
          if is_defined step
          then pass
          else only_if (is_less (int (pos max_iterations)) (span t f)) (too_many ctx (span t f))
    ]
  ]
]

pub validate_for_loop : Unknown → Message → Report
validate_for_loop value ctx = elim (as_plain value) [
  | none ↦ err (says ctx ": must be an object")
  | some fl ↦ do
    check_unknown_keys fl valid_for_keys ctx
    only_if (not (is_present (as_integer (get fl "from"))))
        (err (says ctx ": \"from\" must be an integer"))
    only_if (not (is_present (as_integer (get fl "to"))))
        (err (says ctx ": \"to\" must be an integer"))
    validate_for_range (get fl "step") (get fl "from") (get fl "to") ctx
    validate_for_count (get fl "step") (get fl "from") (get fl "to") ctx
    validate_loop_fields fl ctx
]

-- An entry of `until`: an assertion, or an array, which the test lets through.
validate_until_entry : Message → ℕ → Value → Report
validate_until_entry ctx i v = elim (as_object (known v)) [
  | none ↦ err (at ctx ".until" i ++ text ": must be an assertion object" ∷ [])
  | some a ↦ validate_assertion a (at ctx ".until" i)
]

unfoldable pub validate_until : Unknown → Message → Report
unfolding validate_until_entry
validate_until until ctx = elim (as_array until) [
  | none ↦ err (says ctx ": \"until\" must be an array of assertions")
  | some vs ↦ for_each (validate_until_entry ctx) 0 vs
]

unfoldable pub validate_repeat_loop : Unknown → Message → Report
validate_repeat_loop value ctx = elim (as_plain value) [
  | none ↦ err (says ctx ": must be an object")
  | some rl ↦ do
    check_unknown_keys rl valid_repeat_keys ctx
    elim (as_integer (get rl "count")) [
      | none ↦ err (says ctx ": \"count\" must be a positive integer")
      | some n ↦
          only_if (not (ltb_ℤ (pos 0) n)) (err (says ctx ": \"count\" must be a positive integer"))
    ]
    validate_loop_fields rl ctx
    only_if (is_defined (get rl "until")) (validate_until (get rl "until") ctx)
]
