-- ===== src/Validator/Steps/Actions.antt =====
-- Which actions are accepted, and that the fuel of parallel groups is enough.
use dokkimi.Prelude.{
  ℕ, zero, suc, ◌≤◌, ◌<◌, ◌≡◌, ◌↔◌, ◌⊎◌, inl, inr, refl, Bool, true, ◌&&◌, not, String, List, [],
  ◌∷◌, arith, All, All-imp, member,
}
use dokkimi.Json.{
  Value, object, array, string, Fields, end, field, Unknown, undefined, known, get, is_defined,
  is_one_of, elements, depth, depth_unknown,
}
use dokkimi.Json.Depth.{depth-get, depth-element}
use dokkimi.Report.{Report, Message, says, clean, only_if, err, for_each, at}
use dokkimi.Report.Clean.{clean-unknown_then, clean-seq_five_iff}
use dokkimi.Validator.Keys.{valid_http_methods}
use dokkimi.Validator.Where.Form.{HasOne}
use dokkimi.Validator.Assertions.Extract.{either_missing_iff, one_of_iff}
use dokkimi.Validator.Steps.{
  validate_http_action, validate_url, validate_plain_field, validate_parallel_actions,
  validate_action, step_parts, step_body, validate_step,
}

-- Left out, or a plain object.
abbrev pub PlainForm : Unknown → Type 0
PlainForm u = (u ≡ undefined) ⊎ ((fs : Fields) × (u ≡ known (object fs)))

-- An accepted HTTP request.
pub record IsHttpAction (fs : Fields) : Type 0 where
  pub verb : HasOne fs "method" valid_http_methods
  pub url : (s : String) × (get (object fs) "url" ≡ known (string s))
  pub one_body : (get (object fs) "body" ≡ undefined) ⊎ (get (object fs) "formData" ≡ undefined)
  pub form : PlainForm (get (object fs) "formData")
  pub query : PlainForm (get (object fs) "queryParams")

url_iff :
    (u : Unknown) (ctx : Message)
    → (clean (validate_url u ctx) ≡ true) ↔ ((s : String) × (u ≡ known (string s)))
unfolding validate_url
url_iff (known (string s)) ctx = ((λ h. (s, refl)), (λ p. ground arith))
url_iff _ ctx = ((λ h. cc), (λ p. cc))

PlainForm-iff :
    (u : Unknown) (message : String) (ctx : Message)
    → (clean (validate_plain_field u message ctx) ≡ true) ↔ PlainForm u
unfolding validate_plain_field
PlainForm-iff undefined message ctx = ((λ h. inl refl), (λ p. refl))
PlainForm-iff (known (object fs)) message ctx = ((λ h. inr (fs, refl)), (λ p. refl))
PlainForm-iff _ message ctx = ((λ h. cc), (λ p. elim p [ inl e ↦ cc | inr (fs, e) ↦ cc ]))

-- The check of an HTTP request reports no error exactly for a method of the list, a text as url, not
-- both a body and form data, and plain objects as form data and query parameters if any.
pub validate_http_action_iff :
    (fs : Fields) (ctx : Message)
    → (clean (validate_http_action (object fs) ctx) ≡ true) ↔ IsHttpAction fs
unfolding validate_http_action
validate_http_action_iff fs ctx =
    let a = object fs in
    let verb = err (says ctx ".action: httpRequest requires valid \"method\"") in
    let both =
      says ctx
        ".action: httpRequest cannot have both \"body\" and \"formData\" — use one or the other" in
    let verb_ok =
      one_of_iff (get a "method") valid_http_methods
        (says ctx ".action: httpRequest requires valid \"method\"") in
    let url_ok = url_iff (get a "url") ctx in
    let both_ok = either_missing_iff (get a "body") (get a "formData") both in
    let form_ok = PlainForm-iff (get a "formData") ".action: \"formData\" must be an object" ctx in
    let query_ok =
      PlainForm-iff (get a "queryParams") ".action: \"queryParams\" must be an object" ctx in
    let parts =
      clean-seq_five_iff (only_if (not (is_one_of (get a "method") valid_http_methods)) verb)
        (validate_url (get a "url") ctx)
        (only_if (is_defined (get a "body") && is_defined (get a "formData")) (err both))
        (validate_plain_field (get a "formData") ".action: \"formData\" must be an object" ctx)
        (validate_plain_field (get a "queryParams") ".action: \"queryParams\" must be an object"
          ctx) in
    rw clean-unknown_then (
      λ h.
          let (v, u, b, f, q) = parts.0 h in
          record {
            verb = verb_ok.0 v;
            url = url_ok.0 u;
            one_body = both_ok.0 b;
            form = form_ok.0 f;
            query = query_ok.0 q;
          },
      λ r. parts.1 (
        verb_ok.1 r.verb,
        url_ok.1 r.url,
        both_ok.1 r.one_body,
        form_ok.1 r.form,
        query_ok.1 r.query,
      ),
    )

abbrev Checker : Type 0
Checker = Value → Message → Report

-- Two checkers give the same report on every step that is less deep than `d`.
abbrev Same : ℕ → Checker → Checker → Type 0
Same d c c' = (v : Value) (ctx : Message) → depth v < d → c v ctx ≡ c' v ctx

for_each-Same :
    (d : ℕ) (c c' : Checker) (ctx : Message)
    → Same d c c'
    → (i : ℕ) (vs : List Value) → All (λ v. suc (depth v) < d) vs
    → for_each (λ i v. c (object (field "action" v end)) (at ctx ".action.actions" i)) i vs
      ≡ for_each (λ i v. c' (object (field "action" v end)) (at ctx ".action.actions" i)) i vs
unfolding depth
for_each-Same d c c' ctx same i [] h = refl
for_each-Same d c c' ctx same i (v ∷ vs) (p, h) = cc (
  same (object (field "action" v end)) (at ctx ".action.actions" i) (omega arith),
  for_each-Same d c c' ctx same (suc i) vs h,
)

parallel-Same :
    (d : ℕ) (c c' : Checker) (u : Unknown) (ctx : Message)
    → Same d c c'
    → depth_unknown u < d
    → validate_parallel_actions c u ctx ≡ validate_parallel_actions c' u ctx
unfolding validate_parallel_actions
parallel-Same d c c' (known (array vs)) ctx same h =
    let deep : All (λ v. suc (depth v) < d) (elements vs) =
      All-imp (λ x p. omega arith) (elements vs) (depth-element vs) in
    rw (for_each-Same d c c' ctx same 0 (elements vs) deep) refl
parallel-Same d c c' _ ctx same h = refl

module _ (is_regex : String → Bool) (validate_ui_action : Value → Message → Report) where
  action-Same :
      (d : ℕ) (c c' : Checker) (action : Value) (ctx : Message)
      → Same d c c'
      → depth action ≤ d
      → validate_action is_regex validate_ui_action c action ctx
        ≡ validate_action is_regex validate_ui_action c' action ctx
  unfolding validate_action get validate_parallel_actions member
  action-Same d c c' (object fs) ctx same h =
      rw
        (parallel-Same d c c' (get (object fs) "actions") ctx same
          (omega (arith, depth-get fs "actions")))
        refl
  action-Same d c c' _ ctx same h = refl

  parts-Same :
      (d : ℕ) (c c' : Checker) (s : Value) (u : Unknown) (ctx : Message)
      → Same d c c'
      → depth_unknown u ≤ d
      → step_parts is_regex validate_ui_action c s u ctx
        ≡ step_parts is_regex validate_ui_action c' s u ctx
  unfolding step_parts
  parts-Same d c c' s (known (object fs)) ctx same h =
      rw (action-Same d c c' (object fs) ctx same h) refl
  parts-Same d c c' s (known (array vs)) ctx same h =
      rw (action-Same d c c' (array vs) ctx same h) refl
  parts-Same d c c' s _ ctx same h = refl

  step_body-agree :
      (f g : ℕ) (step : Value) (ctx : Message)
      → depth step < f
      → depth step < g
      → step_body is_regex validate_ui_action f step ctx
        ≡ step_body is_regex validate_ui_action g step ctx
  unfolding step_body get member
  step_body-agree zero g step ctx p q = absurd (omega arith)
  step_body-agree (suc f) zero step ctx p q = absurd (omega arith)
  step_body-agree (suc f) (suc g) (object fs) ctx p q =
      rw
        (parts-Same (depth (object fs)) (step_body is_regex validate_ui_action f)
          (step_body is_regex validate_ui_action g) (object fs) (get (object fs) "action") ctx
          (λ v c h. step_body-agree f g v c (omega arith) (omega arith))
          (omega (arith, depth-get fs "action")))
        refl
  step_body-agree (suc f) (suc g) (array vs) ctx p q =
      rw
        (parts-Same (depth (array vs)) (step_body is_regex validate_ui_action f)
          (step_body is_regex validate_ui_action g) (array vs) (get (array vs) "action") ctx
          (λ v c h. step_body-agree f g v c (omega arith) (omega arith)) (omega arith))
        refl
  step_body-agree (suc f) (suc g) _ ctx p q = refl

  -- Whatever the check of UI actions reports, on a finite value more fuel than the depth of the step
  -- changes nothing.
  validate_step_fuel :
      (fuel : ℕ) (step : Value) (ctx : Message)
      → depth step < fuel
      → step_body is_regex validate_ui_action fuel step ctx
        ≡ validate_step is_regex validate_ui_action step ctx
  unfolding validate_step
  validate_step_fuel fuel step ctx h =
      step_body-agree fuel (suc (depth step)) step ctx h (omega arith)
