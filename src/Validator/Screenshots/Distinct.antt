-- ===== src/Validator/Screenshots/Distinct.antt =====
-- When the screenshots of a test are accepted.
use dokkimi.Prelude.{
  ℕ, suc, ◌≡◌, ◌↔◌, ◌⊎◌, ◌∙◌, ap, sym, subst, Bool-cases, inl, inr, refl, true, false, none, some,
  List, [], ◌∷◌, ◌++◌, String, ◌==◌, arith, All, Option-cases,
}
use dokkimi.Json.{
  Value, Items, Fields, Unknown, known, array, object, string, elements, get, as_text, as_plain,
  as_array, is_text,
}
use dokkimi.Prelude.Text.{is_empty}
use dokkimi.Report.{Message, clean, at}
use dokkimi.Validator.Items.Fields.{is_text_iff}
use dokkimi.Validator.Screenshots.{
  extract_screenshot_name, get_from, with_capture, sub_captures, ui_captures, step_captures,
  captures, prior_of, check_names, validate_screenshot_name_uniqueness,
}

pub names_of : List (String × Message) → List String
names_of [] = []
names_of ((name, here) ∷ rest) = name ∷ names_of rest

-- No name twice.
abbrev pub Distinct : List String → Type 0
Distinct [] = Unit
Distinct (n ∷ ns) = All (λ (m : String). (n == m) ≡ false) ns × Distinct ns

abbrev Unseen : List (String × Message) → String → Type 0
Unseen seen name = prior_of name seen ≡ none

Unseen-more :
    (name : String) (here : Message) (seen : List (String × Message)) (ns : List String)
    → All (Unseen ((name, here) ∷ seen)) ns
      ↔ (All (λ (m : String). (name == m) ≡ false) ns × All (Unseen seen) ns)
unfolding prior_of
Unseen-more name here seen [] = ((λ h. (tt, tt)), (λ h. tt))
Unseen-more name here seen (n ∷ ns) = let next = Unseen-more name here seen ns in ground arith

check_names_iff :
    (seen caps : List (String × Message))
    → (clean (check_names seen caps) ≡ true)
      ↔ (All (Unseen seen) (names_of caps) × Distinct (names_of caps))
unfolding check_names names_of
check_names_iff seen [] = ((λ h. (tt, tt)), (λ h. refl))
check_names_iff seen ((name, here) ∷ rest) =
    let next = check_names_iff ((name, here) ∷ seen) rest in
    let more = Unseen-more name here seen (names_of rest) in
    elim (Option-cases (prior_of name seen)) [
      | inl e ↦ ground arith
      | inr (prior, e) ↦ ((λ h. absurd (ground arith)), (λ p. absurd (ground arith)))
    ]

All-Unseen : (ns : List String) → All (Unseen []) ns
unfolding prior_of
All-Unseen [] = tt
All-Unseen (n ∷ ns) = (refl, All-Unseen ns)

-- The name of a sub-step's screenshot: a text that is not empty, in one of two places.
abbrev pub ShotName : Value → String → Type 0
ShotName sub name =
    (as_text (get sub "screenshot") ≡ some name)
    ⊎ ((fs : Fields) × (get sub "screenshot" ≡ known (object fs))
        × (as_text (get (object fs) "name") ≡ some name))

-- The names of the screenshots of a list of sub-steps, without those inside of groups.
pub data SubShots : List Value → List String → Type 0 where
  no_subs : SubShots [] []
  shot :
      {sub : Value} {subs : List Value} {name : String} {names : List String}
      → ShotName sub name
      → SubShots subs names
      → SubShots (sub ∷ subs) (name ∷ names)
  no_shot :
      {sub : Value} {subs : List Value} {names : List String}
      → ((name : String) → ¬ ShotName sub name)
      → SubShots subs names
      → SubShots (sub ∷ subs) names

-- A step whose action is of type `ui` and has these sub-steps.
abbrev pub UiStep : Value → Items → Type 0
UiStep step subs =
    (action : Value) × (get step "action" ≡ known action)
    × (get action "type" ≡ known (string "ui"))
    × (get action "steps" ≡ known (array subs))

-- The names of the screenshots of a list of steps: those of the sub-steps right below a `ui` action
-- that is the action of a step.
pub data Shots : List Value → List String → Type 0 where
  no_steps : Shots [] []
  ui_step :
      {step : Value} {steps : List Value} {subs : Items} {first later : List String}
      → UiStep step subs
      → SubShots (elements subs) first
      → Shots steps later
      → Shots (step ∷ steps) (first ++ later)
  other_step :
      {step : Value} {steps : List Value} {names : List String}
      → ((subs : Items) → ¬ UiStep step subs)
      → Shots steps names
      → Shots (step ∷ steps) names

-- By the two reads of the screenshot, its text and its object.
named_iff :
    (u : Unknown) (name : String)
    → (elim (as_text u) [
      | some s ↦ some s
      | none ↦ elim (as_plain u) [ none ↦ none | some obj ↦ as_text (get obj "name") ]
    ]
        ≡ some name)
      ↔ ((as_text u ≡ some name)
          ⊎ ((fs : Fields) × (u ≡ known (object fs))
              × (as_text (get (object fs) "name") ≡ some name)))
named_iff (known (object fs)) name = (
  λ h. inr (fs, refl, h),
  λ p. elim p [
    | inl e ↦ cc
    | inr (gs, e, q) ↦
        let same : gs ≡ fs = ground arith in
        subst (λ (x : Fields). as_text (get (object x) "name") ≡ some name) same q
  ],
)
named_iff (known (string s)) name = elim (Bool-cases (is_empty s)) [
  | inl e ↦ rw e (λ h. cc, λ p. elim p [ inl q ↦ cc | inr (fs, q, r) ↦ cc ])
  | inr e ↦ rw e (λ h. inl h, λ p. elim p [ inl q ↦ q | inr (fs, q, r) ↦ cc ])
]
named_iff _ name = (λ h. cc, λ p. elim p [ inl q ↦ cc | inr (fs, q, r) ↦ cc ])

names_of-append :
    (xs ys : List (String × Message)) → names_of (xs ++ ys) ≡ names_of xs ++ names_of ys
unfolding names_of
names_of-append [] ys = refl
names_of-append ((n, m) ∷ xs) ys = ap (λ ns. n ∷ ns) (names_of-append xs ys)

extract_iff :
    (sub : Value) (name : String) → (extract_screenshot_name sub ≡ some name) ↔ ShotName sub name
unfolding extract_screenshot_name
extract_iff sub name = named_iff (get sub "screenshot") name

extract_none :
    (sub : Value) → ((name : String) → ¬ ShotName sub name) → extract_screenshot_name sub ≡ none
extract_none sub h = elim (Option-cases (extract_screenshot_name sub)) [
  | inl e ↦ e
  | inr (name, e) ↦ absurd (h name ((extract_iff sub name).0 e))
]

sub_captures-shot :
    (ctx : Message) (i : ℕ) (sub : Value) (subs : List Value) (name : String)
    → ShotName sub name
    → names_of (sub_captures ctx i (sub ∷ subs)) ≡ name ∷ names_of (sub_captures ctx (suc i) subs)
unfolding sub_captures names_of with_capture get
sub_captures-shot ctx i (object fs) subs name p = rw ((extract_iff (object fs) name).1 p) refl
sub_captures-shot ctx i (array vs) subs name p = rw ((extract_iff (array vs) name).1 p) refl
sub_captures-shot ctx i _ subs name p = elim p [ inl e ↦ cc | inr (fs, e, q) ↦ cc ]

sub_captures-no_shot :
    (ctx : Message) (i : ℕ) (sub : Value) (subs : List Value)
    → extract_screenshot_name sub ≡ none
    → names_of (sub_captures ctx i (sub ∷ subs)) ≡ names_of (sub_captures ctx (suc i) subs)
unfolding sub_captures names_of with_capture
sub_captures-no_shot ctx i (object fs) subs h = rw h refl
sub_captures-no_shot ctx i (array vs) subs h = rw h refl
sub_captures-no_shot ctx i _ subs h = refl

sub_captures-SubShots :
    (ctx : Message) (i : ℕ) (subs : List Value) (names : List String)
    → SubShots subs names
    → names_of (sub_captures ctx i subs) ≡ names
unfolding sub_captures names_of
sub_captures-SubShots ctx i subs names no_subs = refl
sub_captures-SubShots ctx i subs names (shot {sub} {subs = rest} {name} {names = more} p ss) =
    sub_captures-shot ctx i sub rest name p
    ∙ ap (λ ns. name ∷ ns) (sub_captures-SubShots ctx (suc i) rest more ss)
sub_captures-SubShots ctx i subs names (no_shot {sub} {subs = rest} h ss) =
    sub_captures-no_shot ctx i sub rest (extract_none sub h)
    ∙ sub_captures-SubShots ctx (suc i) rest names ss

step_captures-UiStep :
    (ctx : Message) (step : Value) (subs : Items)
    → UiStep step subs
    → step_captures ctx step ≡ sub_captures ctx 0 (elements subs)
unfolding step_captures get_from ui_captures
step_captures-UiStep ctx step subs (action, e, t, l) = rw (e, t, l) refl

as_array-cases : (u : Unknown) → (as_array u ≡ none) ⊎ ((vs : Items) × (u ≡ known (array vs)))
as_array-cases (known (array vs)) = inr (vs, refl)
as_array-cases _ = inl refl

no_list :
    (ctx : Message) (a : Unknown)
    → ((action : Value) (subs : Items)
        → a ≡ known action
        → ¬ (get action "steps" ≡ known (array subs)))
    → ui_captures ctx (as_array (get_from a "steps")) ≡ []
unfolding ui_captures get_from
no_list ctx (known action) h = elim (as_array-cases (get action "steps")) [
  | inl e ↦ rw e refl
  | inr (subs, e) ↦ absurd (h action subs refl e)
]
no_list ctx _ h = refl

type_of :
    (a : Unknown) (action : Value)
    → is_text (get_from a "type") "ui" ≡ true
    → a ≡ known action
    → get action "type" ≡ known (string "ui")
unfolding get_from
type_of (known v) action h e =
    let same : v ≡ action = ground arith in
    (is_text_iff (get action "type") "ui").0
      (subst (λ x. is_text (get x "type") "ui" ≡ true) same h)
type_of _ action h e = cc

step_captures-other :
    (ctx : Message) (step : Value)
    → ((subs : Items) → ¬ UiStep step subs)
    → step_captures ctx step ≡ []
unfolding step_captures
step_captures-other ctx step h =
    let a = get step "action" in
    elim (Bool-cases (is_text (get_from a "type") "ui")) [
      | inr other ↦ rw other refl
      | inl ui ↦
          rw ui (no_list ctx a (λ action subs e l. h subs (action, e, type_of a action ui e, l)))
    ]

captures-Shots :
    (ctx : Message) (i : ℕ) (steps : List Value) (names : List String)
    → Shots steps names
    → names_of (captures ctx i steps) ≡ names
unfolding captures names_of
captures-Shots ctx i steps names no_steps = refl
captures-Shots ctx i steps names (ui_step {step} {steps = rest} {subs} {first} {later} u ss s) =
    let here = at ctx ".steps" i in
    names_of-append (step_captures here step) (captures ctx (suc i) rest)
    ∙ rw
        (
          step_captures-UiStep here step subs u,
          sub_captures-SubShots here 0 (elements subs) first ss,
        )
        (ap (λ ns. first ++ ns) (captures-Shots ctx (suc i) rest later s))
captures-Shots ctx i steps names (other_step {step} {steps = rest} h s) =
    rw (step_captures-other (at ctx ".steps" i) step h) (captures-Shots ctx (suc i) rest names s)

-- Where the screenshots of the steps are described by the names, those in groups of sub-steps and in
-- parallel actions left out, the check of a test's steps reports no error exactly if no name is there
-- twice.
pub validate_screenshot_name_uniqueness_iff :
    (steps : Items) (names : List String) (ctx : Message)
    → Shots (elements steps) names
    → (clean (validate_screenshot_name_uniqueness (known (array steps)) ctx) ≡ true)
      ↔ Distinct names
unfolding validate_screenshot_name_uniqueness
validate_screenshot_name_uniqueness_iff steps names ctx shots =
    let caps = captures ctx 0 (elements steps) in
    let same : names_of caps ≡ names = captures-Shots ctx 0 (elements steps) names shots in
    let both = check_names_iff [] caps in
    (
      λ h. subst Distinct same (both.0 h).1,
      λ d. both.1 (All-Unseen (names_of caps), subst Distinct (sym same) d),
    )
