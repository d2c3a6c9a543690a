-- ===== src/Validator/Loops/Levels/Body.antt =====
-- Which loop bodies are accepted, and how deep accepted loops nest.
use dokkimi.Prelude.{
  ℕ, zero, suc, ◌<◌, ◌≡◌, ◌↔◌, refl, String, true, List, [], ◌∷◌, some, none, arith, All, member,
  Bool-cases, Option-cases, inl, inr,
}
use dokkimi.Json.{Value, undefined, get, keys, as_plain, is_defined}
use dokkimi.Json.Reads.{not_defined}
use dokkimi.Report.{Report, Message, clean}
use dokkimi.Report.Clean.{clean-seq_four_iff}
use dokkimi.Validator.Loops.Levels.{
  LoopLevel, test_level, step_level, block_level, rank, child_level, allowed_body_keys,
  all_body_content_keys, under, validate_body_keys, validate_nested, loop_body, validate_loop_body,
}

-- A key that holds content is one that the level allows.
abbrev pub Allowed : LoopLevel → String → Type 0
Allowed level key =
    member key all_body_content_keys ≡ true → member key (allowed_body_keys level) ≡ true

mutual
  pub data IsBody : LoopLevel → Value → Type 0 where
    body :
        {level : LoopLevel} {v : Value}
        → All (Allowed level) (keys v)
        → Nested level v "forEach"
        → Nested level v "for"
        → Nested level v "repeat"
        → IsBody level v

  -- What may stand under a loop key of a body.
  pub data Nested : LoopLevel → Value → String → Type 0 where
    absent :
        {level : LoopLevel} {v : Value} {key : String} → get v key ≡ undefined → Nested level v key
    not_plain :
        {level child : LoopLevel} {v : Value} {key : String}
        → child_level level ≡ some child
        → as_plain (get v key) ≡ none
        → Nested level v key
    nested :
        {level child : LoopLevel} {v w : Value} {key : String}
        → child_level level ≡ some child
        → as_plain (get v key) ≡ some w
        → IsBody child w
        → Nested level v key

validate_body_keys_iff :
    (level : LoopLevel) (ctx : Message) (ks : List String)
    → (clean (validate_body_keys level ctx ks) ≡ true) ↔ All (Allowed level) ks
unfolding validate_body_keys
validate_body_keys_iff level ctx [] = (λ h. tt, λ h. refl)
validate_body_keys_iff level ctx (k ∷ ks) = ground (arith, validate_body_keys_iff level ctx ks)

pub child-rank :
    (level child : LoopLevel) → child_level level ≡ some child → rank child < rank level
child-rank test_level step_level e = omega arith
child-rank test_level test_level e = cc
child-rank test_level block_level e = cc
child-rank step_level block_level e = omega arith
child-rank step_level test_level e = cc
child-rank step_level step_level e = cc
child-rank block_level child e = cc

module _ (check : Value → Message → LoopLevel → Report) (v : Value) (ctx : Message)
    (level : LoopLevel) (key : String) where
  Nested-sound :
      ((w : Value) (child : LoopLevel)
        → child_level level ≡ some child
        → clean (check w (under ctx key) child) ≡ true
        → IsBody child w)
      → clean (validate_nested check v ctx level key) ≡ true
      → Nested level v key
  unfolding validate_nested
  Nested-sound ih h = elim (Bool-cases (is_defined (get v key))) [
    | inr missing ↦ absent (not_defined (get v key) missing)
    | inl there ↦ elim (Option-cases (child_level level)) [
      | inl innermost ↦ absurd (ground arith)
      | inr (child, e) ↦ elim (Option-cases (as_plain (get v key))) [
        | inl other ↦ not_plain e other
        | inr (w, plain) ↦ nested e plain (ih w child e (ground arith))
      ]
    ]
  ]

  Nested-complete :
      ((w : Value) (child : LoopLevel)
        → child_level level ≡ some child
        → IsBody child w
        → clean (check w (under ctx key) child) ≡ true)
      → Nested level v key
      → clean (validate_nested check v ctx level key) ≡ true
  unfolding validate_nested
  Nested-complete ih (absent e) = rw e refl
  Nested-complete ih (not_plain c e) = ground arith
  Nested-complete ih (nested {child} {w} c e b) = ground (arith, ih w child c b)

loop_body_parts :
    (f : ℕ) (v : Value) (ctx : Message) (level : LoopLevel)
    → (clean (loop_body (suc f) v ctx level) ≡ true) ↔ (
        (clean (validate_body_keys level ctx (keys v)) ≡ true)
        × (clean (validate_nested (loop_body f) v ctx level "forEach") ≡ true)
        × (clean (validate_nested (loop_body f) v ctx level "for") ≡ true)
        × (clean (validate_nested (loop_body f) v ctx level "repeat") ≡ true))
unfolding loop_body
loop_body_parts f v ctx level =
    clean-seq_four_iff (validate_body_keys level ctx (keys v))
      (validate_nested (loop_body f) v ctx level "forEach")
      (validate_nested (loop_body f) v ctx level "for")
      (validate_nested (loop_body f) v ctx level "repeat")

loop_body_sound :
    (f : ℕ) (v : Value) (ctx : Message) (level : LoopLevel)
    → clean (loop_body f v ctx level) ≡ true
    → rank level < f
    → IsBody level v
loop_body_sound zero v ctx level h r = absurd (omega arith)
loop_body_sound (suc f) v ctx level h r =
    let at_key = λ (key : String). Nested-sound (loop_body f) v ctx level key (λ w child e ok.
      loop_body_sound f w (under ctx key) child ok (omega (arith, child-rank level child e))) in
    let (k, a, b, c) = (loop_body_parts f v ctx level).0 h in
    body ((validate_body_keys_iff level ctx (keys v)).0 k) (at_key "forEach" a) (at_key "for" b)
      (at_key "repeat" c)

loop_body_complete :
    (f : ℕ) (v : Value) (ctx : Message) (level : LoopLevel)
    → IsBody level v
    → clean (loop_body f v ctx level) ≡ true
unfolding loop_body
loop_body_complete zero v ctx level b = refl
loop_body_complete (suc f) v ctx level (body ks a b c) =
    let at_key = λ (key : String).
      Nested-complete (loop_body f) v ctx level key
        (λ w child e ok. loop_body_complete f w (under ctx key) child ok) in
    (loop_body_parts f v ctx level).1 (
      (validate_body_keys_iff level ctx (keys v)).1 ks,
      at_key "forEach" a,
      at_key "for" b,
      at_key "repeat" c,
    )

-- The check of a loop body reports no error exactly for the bodies whose content keys the level
-- allows, and that have under each loop key nothing, a value that is no plain object, or an accepted
-- body of the next level. In a body of the assertion-block level there is nothing under a loop key.
pub validate_loop_body_iff :
    (v : Value) (ctx : Message) (level : LoopLevel)
    → (clean (validate_loop_body v ctx level) ≡ true) ↔ IsBody level v
unfolding validate_loop_body
validate_loop_body_iff v ctx level = (
  λ h. loop_body_sound (suc (rank level)) v ctx level h (omega arith),
  loop_body_complete (suc (rank level)) v ctx level,
)
