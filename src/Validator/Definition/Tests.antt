-- ===== src/Validator/Definition/Tests.antt =====
-- What an accepted test of a definition is.
use dokkimi.Prelude.{
  ◌≡◌, ◌⊎◌, inl, inr, refl, ℕ, suc, String, Bool, true, Option, none, some, List, [], ◌∷◌, ◌++◌,
  arith, All, false, sym, ◌∙◌,
}
use dokkimi.Json.{Value, Items, array, object, Unknown, undefined, known, get, elements}
use dokkimi.Report.{Report, Message, clean, at, for_each, check_unknown_keys}
use dokkimi.Report.Written.{written-some}
use dokkimi.Report.Clean.{clean-append, clean-seq_iff, clean-seq_five_iff}
use dokkimi.Validator.Keys.{valid_test_keys}
use dokkimi.Validator.Items.Fields.{SomeText}
use dokkimi.Validator.Loops.Levels.{test_level, loop_modifier_keys}
use dokkimi.Validator.Loops.Modifiers.{
  validate_loop_modifiers, validate_test_loop_sibling_conflicts,
}
use dokkimi.Validator.Loops.Modifiers.Bodies.{LoopForm, validate_loop_modifiers_sound}
use dokkimi.Validator.Loops.Modifiers.Chosen.{Loopless, sibling_conflicts_iff}
use dokkimi.Validator.Refs.Variables.{validate_variables_field}
use dokkimi.Validator.Refs.Variables.Laws.{VariablesForm, validate_variables_field_iff}
use dokkimi.Validator.Screenshots.{validate_screenshot_name_uniqueness}
use dokkimi.Validator.Screenshots.Distinct.{
  Shots, Distinct, validate_screenshot_name_uniqueness_iff,
}
use dokkimi.Validator.Steps.{validate_step}
use dokkimi.Validator.Ui.{validate_ui_action}
use dokkimi.Validator.Ui.SubSteps.{need_text}
use dokkimi.Validator.Ui.Forms.{text_ok}
use dokkimi.Validator.Definition.{
  warn_until, after, both, validate_test_steps, validate_test, validate_each_test, validate_tests,
}
use dokkimi.Validator.Definition.Accepted.{after-some}

-- A list of steps, with different names of screenshots, or no steps.
abbrev pub StepsForm : Unknown → Type 0
StepsForm u =
    (u ≡ undefined)
    ⊎ ((steps : Items) × (u ≡ known (array steps))
        × ((names : List String) → Shots (elements steps) names → Distinct names))

both-some :
    (o p : Option Report) (r : Report)
    → both o p ≡ some r
    → (s : Report) × (t : Report) × (o ≡ some s) × (p ≡ some t) × (r ≡ s ++ t)
unfolding both
both-some none p r h = cc
both-some (some s) none r h = cc
both-some (some s) (some t) r h = (s, t, refl, refl, ground arith)

module _ (is_regex : String → Bool) (absolute : String → String)
    (resolve : String → String → String) (exists : String → Bool)
    (read : String → Option Unknown) where
  steps_sound :
      (repeat u : Unknown) (ctx : Message) (r : Report)
      → validate_test_steps is_regex absolute resolve exists read repeat u ctx ≡ some r
      → clean r ≡ true
      → StepsForm u
  unfolding validate_test_steps
  steps_sound repeat undefined ctx r h c = inl refl
  steps_sound repeat (known (array vs)) ctx r h c =
      let (w, e, shape) = after-some (warn_until repeat (elements vs) ctx) _ r h in
      let each =
        for_each (λ i v. validate_step is_regex (validate_ui_action is_regex) v (at ctx ".steps" i))
          0 (elements vs) in
      let unique = validate_screenshot_name_uniqueness (known (array vs)) ctx in
      let last = clean-append (each ++ w) unique in
      let accepted : clean unique ≡ true = ground arith in
      inr (
        vs,
        refl,
        λ names shots. (validate_screenshot_name_uniqueness_iff vs names ctx shots).0 accepted,
      )
  steps_sound repeat _ ctx r h c = absurd (ground arith)

  -- An accepted test.
  pub record IsTest (source : String) (test : Value) : Type 0 where
    pub name : SomeText (get test "name")
    pub variables : VariablesForm absolute resolve exists read source (get test "variables")
    pub loop : LoopForm test_level test
    pub beside : All (Loopless test) loop_modifier_keys ⊎ (get test "steps" ≡ undefined)
    pub steps : StepsForm (get test "steps")

  IsTest-sound :
      (v : Value) (ctx : Message) (source : String) (o : Option Report) (r : Report)
      → o
        ≡ validate_test_steps is_regex absolute resolve exists read
            (get v "repeat")
            (get v "steps")
            ctx
      → after o (λ steps.
        need_text (get v "name") ": missing or empty \"name\"" ctx
        ++ (check_unknown_keys v valid_test_keys ctx
            ++ (validate_variables_field absolute resolve exists read (get v "variables") ctx source
                ++ ((validate_loop_modifiers v ctx false test_level).0
                    ++ (validate_test_loop_sibling_conflicts v ctx ++ steps)))))
        ≡ some r
      → clean r ≡ true
      → IsTest source v
  IsTest-sound v ctx source o r e h c =
      let (steps, f, shape) = after-some o _ r h in
      let parts =
        clean-seq_five_iff (need_text (get v "name") ": missing or empty \"name\"" ctx)
          (check_unknown_keys v valid_test_keys ctx)
          (validate_variables_field absolute resolve exists read (get v "variables") ctx source)
          (validate_loop_modifiers v ctx false test_level).0
          (validate_test_loop_sibling_conflicts v ctx ++ steps) in
      let (n, k, vars, l, rest) = parts.0 (ground arith) in
      let both = clean-seq_iff (validate_test_loop_sibling_conflicts v ctx) steps in
      record {
        name = (text_ok (get v "name") _ ctx).iff.0 n;
        variables =
            (validate_variables_field_iff absolute resolve exists read (get v "variables") ctx
                source).0
              vars;
        loop = validate_loop_modifiers_sound v ctx false test_level l;
        beside = (sibling_conflicts_iff v ctx).0.0 (both.0 rest).0;
        steps = steps_sound (get v "repeat") (get v "steps") ctx steps (sym e ∙ f) (both.0 rest).1;
      }

  one_sound :
      (v : Value) (ctx : Message) (source : String) (r : Report)
      → validate_test is_regex absolute resolve exists read v ctx source ≡ some r
      → clean r ≡ true
      → IsTest source v
  unfolding validate_test
  one_sound (object fs) ctx source r h c = IsTest-sound (object fs) ctx source _ r refl h c
  one_sound (array vs) ctx source r h c = IsTest-sound (array vs) ctx source _ r refl h c
  one_sound _ ctx source r h c = absurd (ground arith)

  each_sound :
      (i : ℕ) (vs : List Value) (source : String) (r : Report)
      → validate_each_test is_regex absolute resolve exists read i vs source ≡ some r
      → clean r ≡ true
      → All (IsTest source) vs
  unfolding validate_each_test
  each_sound i [] source r h c = tt
  each_sound i (v ∷ vs) source r h c =
      let (s, t, e, f, shape) = both-some _ _ r h in
      let halves = clean-append s t in
      let first : clean s ≡ true = ground arith in
      let rest : clean t ≡ true = ground arith in
      (one_sound v (at [] "tests" i) source s e first, each_sound (suc i) vs source t f rest)

  -- For every test of regular expressions and whatever the files hold, each test of a list whose check
  -- returns a report without errors has a name, variables that resolve to words, at most one loop, an
  -- object that is a loop body of the test level, no steps beside a loop object, and, as steps, nothing
  -- or a list in which no two of the screenshots that are read have the same name.
  pub validate_tests_sound :
      (vs : Items) (source : String) (r : Report)
      → validate_tests is_regex absolute resolve exists read (known (array vs)) source ≡ some r
      → clean r ≡ true
      → All (IsTest source) (elements vs)
  unfolding validate_tests
  validate_tests_sound vs source r h c = each_sound 0 (elements vs) source r (written-some _ r h) c
