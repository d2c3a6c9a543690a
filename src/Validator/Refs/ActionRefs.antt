-- ===== src/Validator/Refs/ActionRefs.antt =====
-- shared/definition-validator/validate-refs.ts: `resolveActionRefs`, `resolveActionRef` and
-- `expandSubStepRefs`. What the code writes into the definition is the definition that is returned; the
-- parameters and the fuel are those of Refs/Variables.
pub mod Laws
pub mod Fuel
use dokkimi.Prelude.{
  ℕ, zero, suc, String, Bool, true, false, not, ◌||◌, ◌&&◌, Option, none, some, List, [], ◌∷◌, ◌++◌,
  ltb, eqb, length, member, keep, ◌==◌, if◌then◌else◌,
}
use dokkimi.Json.{
  Value, string, array, object, Items, nil, cons, Fields, end, field, Unknown, undefined, known,
  method, own, keys, elements, items_of, as_string, is_text,
}
use dokkimi.Json.Merge.{merge, without, set_field}
use dokkimi.Report.{Report, Message, text, quoted, says, at, listed, err, warn, pass, only_if, ◌>>◌}
use dokkimi.Validator.Keys.{max_ref_depth}

-- The keys of a fragment that are neither its content nor its name or description.
abbrev pub extra_keys : String → Fields → List String
extra_keys content fs =
    keep (λ k. not (k == content || k == "name" || k == "description")) (keys (object fs))

unfoldable pub warn_extra : Message → String → String → Fields → Report
warn_extra ctx s content fs = only_if (not (eqb (length (extra_keys content fs)) 0)) (
    warn (
      ctx
      ++ text ".$ref: \"" ∷ quoted s ∷ text "\" has extra keys (" ∷ listed (extra_keys content fs)
      ++ text ") — only \""
        ∷ text content
        ∷ text "\", \"name\", \"description\" are recognized"
        ∷ []))

abbrev pub refuse : Message → String → String → Report
refuse ctx s why = err (ctx ++ text ".$ref: \"" ∷ quoted s ∷ text "\"" ∷ text why ∷ [])

abbrev pub ActionOutcome : Type 0
ActionOutcome = Report × Option Fields

-- `{ ...resolvedAction, ...overrides }`.
unfoldable pub override_action : Fields → ActionOutcome → ActionOutcome
override_action action (r, none) = (r, none)
override_action action (r, some resolved) = (r, some (merge resolved (without "$ref" action)))

unfoldable pub after_report : Report → ActionOutcome → ActionOutcome
after_report w o = (w >> o.0, o.1)

-- What comes before the reading of the file `p`: the circle and the missing file.
unfoldable pub guard_ref {ℓ} :
    {A : Type ℓ} → Bool → Bool → Message → String → String → A → Report × A → Report × A
guard_ref true found ctx s p nothing next = (
  err (
      ctx
      ++ text ".$ref: circular $ref detected — \""
        ∷ quoted s
        ∷ text "\" already in resolution chain"
        ∷ []),
  nothing,
)
guard_ref false false ctx s p nothing next = (
  err (
      ctx
      ++ text ".$ref: \""
        ∷ quoted s
        ∷ text "\" not found (resolved to "
        ∷ quoted p
        ∷ text ")"
        ∷ []),
  nothing,
)
guard_ref false true ctx s p nothing next = next

module _ (absolute : String → String) (resolve : String → String → String) (exists : String → Bool)
    (read : String → Option Unknown) where
  -- `resolveActionRef`, with the text of the action's `$ref`.
  abbrev pub ActionResolver : Type 0
  ActionResolver = List String → String → Message → String → Fields → ActionOutcome

  -- The action of a fragment, resolved itself if it has a `$ref`.
  unfoldable pub inner_action :
      ActionResolver → List String → String → Message → Fields → Option String → ActionOutcome
  inner_action rec visited p ctx action none = (pass, some action)
  inner_action rec visited p ctx action (some s) = rec (p ∷ visited) p ctx s action

  unfoldable pub fragment_action :
      ActionResolver → List String → String → Message → String → Fields → Unknown → ActionOutcome
  unfolding inner_action after_report warn_extra
  fragment_action rec visited p ctx s obj (known (object action)) =
      after_report (warn_extra ctx s "action" obj)
        (inner_action rec visited p ctx action (as_string (own action "$ref")))
  fragment_action rec visited p ctx s obj _ =
      (refuse ctx s " must contain an \"action\" object", none)

  unfoldable pub action_content :
      ActionResolver → List String → String → Message → String → Option Unknown → ActionOutcome
  unfolding fragment_action
  action_content rec visited p ctx s none = (refuse ctx s " could not be parsed", none)
  action_content rec visited p ctx s (some (known (object obj))) =
      fragment_action rec visited p ctx s obj (own obj "action")
  action_content rec visited p ctx s (some _) =
      (refuse ctx s " must be a plain object with an \"action\" field", none)

  unfoldable pub action_from : ℕ → ActionResolver
  unfolding action_content override_action guard_ref
  action_from zero visited source ctx s action = (pass, none)
  action_from (suc fuel) visited source ctx s action =
      let p = resolve source s in
      if ltb max_ref_depth (length visited)
      then (err (says ctx ".$ref: $ref chain exceeds maximum depth of 10"), none)
      else override_action action (
          guard_ref (member p visited) (exists p) ctx s p none
            (action_content (action_from fuel) visited p ctx s (read p)))

  unfoldable pub resolve_action_ref : String → Message → String → Fields → ActionOutcome
  unfolding action_from
  resolve_action_ref source ctx s action =
      action_from (suc max_ref_depth) (absolute source ∷ []) source ctx s action

  -- `expandSubStepRefs`.
  abbrev pub StepsOutcome : Type 0
  StepsOutcome = Report × List Value

  abbrev pub StepsResolver : Type 0
  StepsResolver = List String → String → Message → List Value → StepsOutcome

  unfoldable pub fragment_steps :
      StepsResolver
      → List String
      → String
      → Message
      → Message
      → String
      → Fields
      → Unknown
      → StepsOutcome
  unfolding warn_extra
  fragment_steps rec visited p ctx here s obj (known (array vs)) =
      let inner = rec (p ∷ visited) p ctx (elements vs) in
      (warn_extra here s "steps" obj >> inner.0, inner.1)
  fragment_steps rec visited p ctx here s obj _ =
      (refuse here s " must contain a \"steps\" array", [])

  unfoldable pub steps_content :
      StepsResolver
      → List String
      → String
      → Message
      → Message
      → String
      → Option Unknown
      → StepsOutcome
  unfolding fragment_steps
  steps_content rec visited p ctx here s none = (refuse here s " could not be parsed", [])
  steps_content rec visited p ctx here s (some (known (object obj))) =
      fragment_steps rec visited p ctx here s obj (own obj "steps")
  steps_content rec visited p ctx here s (some _) =
      (refuse here s " must be a plain object with a \"steps\" array", [])

  -- The sub-steps in the place of one, by its `$ref`.
  unfoldable pub sub_step_steps :
      StepsResolver → List String → String → Message → ℕ → Value → Unknown → StepsOutcome
  unfolding steps_content guard_ref
  sub_step_steps rec visited source ctx i sub undefined = (pass, sub ∷ [])
  sub_step_steps rec visited source ctx i sub (known (string s)) =
      let p = resolve source s in
      guard_ref (member p visited) (exists p) (at ctx ".steps" i) s p []
        (steps_content rec visited p ctx (at ctx ".steps" i) s (read p))
  sub_step_steps rec visited source ctx i sub _ =
      (err (at ctx ".steps" i ++ text ".$ref: must be a string path" ∷ []), [])

  unfoldable pub own_ref : Value → Unknown
  own_ref (object fs) = own fs "$ref"
  own_ref _ = undefined

  unfoldable pub expand_each :
      StepsResolver → List String → String → Message → ℕ → List Value → StepsOutcome
  unfolding sub_step_steps own_ref
  expand_each rec visited source ctx i [] = (pass, [])
  expand_each rec visited source ctx i (sub ∷ rest) =
      let first = sub_step_steps rec visited source ctx i sub (own_ref sub) in
      let next = expand_each rec visited source ctx (suc i) rest in
      (first.0 >> next.0, first.1 ++ next.1)

  unfoldable pub steps_from : ℕ → StepsResolver
  unfolding expand_each
  steps_from zero visited source ctx raw = (pass, [])
  steps_from (suc fuel) visited source ctx raw =
      if ltb max_ref_depth (length visited)
      then (err (says ctx ".steps: $ref chain exceeds maximum depth of 10"), [])
      else expand_each (steps_from fuel) visited source ctx 0 raw

  unfoldable pub expand_sub_step_refs : String → Message → List Value → StepsOutcome
  unfolding steps_from
  expand_sub_step_refs source ctx raw =
      steps_from (suc max_ref_depth) (absolute source ∷ []) source ctx raw

  -- A step with its action resolved.
  unfoldable pub with_action : Fields → ActionOutcome → Report × Value
  with_action fs (r, none) = (r, object fs)
  with_action fs (r, some action) = (r, object (set_field fs "action" (object action)))

  unfoldable pub step_action : String → Message → Fields → Fields → Option String → Report × Value
  unfolding with_action resolve_action_ref expand_sub_step_refs
  step_action source ctx fs action (some s) =
      with_action fs (resolve_action_ref source ctx s action)
  step_action source ctx fs action none = elim (own action "steps") [
    | known steps ↦ elim steps [
      | array vs ↦
          let o = expand_sub_step_refs source ctx (elements vs) in
          if is_text (own action "type") "ui"
          then (
            o.0,
            object
                (set_field fs "action" (object (set_field action "steps" (array (items_of o.1))))),
          )
          else (pass, object fs)
      | _ ↦ (pass, object fs)
    ]
    | undefined ↦ (pass, object fs)
    | method ↦ (pass, object fs)
  ]

  unfoldable pub resolve_step : String → Message → Value → Report × Value
  unfolding step_action
  resolve_step source ctx (object fs) = elim (own fs "action") [
    | known v ↦ elim v [
      | object action ↦
          step_action source (says ctx ".action") fs action (as_string (own action "$ref"))
      | _ ↦ (pass, object fs)
    ]
    | undefined ↦ (pass, object fs)
    | method ↦ (pass, object fs)
  ]
  resolve_step source ctx v = (pass, v)

  -- A loop that writes each element of a list.
  unfoldable pub write_each : (ℕ → Value → Report × Value) → ℕ → Items → Report × Items
  write_each body i nil = (pass, nil)
  write_each body i (cons v vs) =
      let first = body i v in
      let rest = write_each body (suc i) vs in (first.0 >> rest.0, cons first.1 rest.1)

  -- A property that is a list, with its elements written.
  unfoldable pub write_list : String → (ℕ → Value → Report × Value) → Value → Report × Value
  unfolding write_each
  write_list key body (object fs) = elim (own fs key) [
    | known v ↦ elim v [
      | array vs ↦ let o = write_each body 0 vs in (o.0, object (set_field fs key (array o.1)))
      | _ ↦ (pass, object fs)
    ]
    | undefined ↦ (pass, object fs)
    | method ↦ (pass, object fs)
  ]
  write_list key body v = (pass, v)

  unfoldable pub resolve_action_refs : Value → String → Report × Value
  unfolding write_list resolve_step
  resolve_action_refs definition source =
      write_list "tests"
        (λ ti test.
          write_list "steps"
            (λ si step. resolve_step source (at (at [] "tests" ti) ".steps" si) step) test)
        definition
