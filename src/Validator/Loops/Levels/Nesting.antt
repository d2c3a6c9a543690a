-- ===== src/Validator/Loops/Levels/Nesting.antt =====
-- How deep the loops of an accepted body nest, and how deep the check of a body recurs.
use dokkimi.Prelude.{
  ℕ, zero, suc, ◌≤◌, ◌<◌, ◌≡◌, ap, subst, inl, inr, String, true, some, arith, member, or-true,
  eq_iff, Option-cases,
}
use dokkimi.Json.{Value, get, as_plain}
use dokkimi.Report.{Message, Report, clean}
use dokkimi.Validator.Loops.Levels.{
  LoopLevel, rank, child_level, loop_modifier_keys, validate_loop_body, loop_body, validate_nested,
  under,
}
use dokkimi.Validator.Loops.Levels.Body.{
  IsBody, body, Nested, absent, not_plain, nested, child-rank, validate_loop_body_iff,
}

-- A chain of loops, each under a loop key of the one before.
pub data Chain : Value → ℕ → Type 0 where
  stop : {v : Value} → Chain v zero
  deeper :
      {v w : Value} {n : ℕ} (key : String)
      → member key loop_modifier_keys ≡ true
      → as_plain (get v key) ≡ some w
      → Chain w n
      → Chain v (suc n)

at_loop_key :
    {level : LoopLevel} {v : Value} (key : String)
    → IsBody level v
    → member key loop_modifier_keys ≡ true
    → Nested level v key
unfolding member
at_loop_key {level} {v} key (body ks a b c) h = elim (or-true _ _ h) [
  | inl e ↦ subst (Nested level v) ((eq_iff "forEach" key).0 e) a
  | inr h' ↦ elim (or-true _ _ h') [
    | inl e ↦ subst (Nested level v) ((eq_iff "for" key).0 e) b
    | inr h'' ↦ elim (or-true _ _ h'') [
      | inl e ↦ subst (Nested level v) ((eq_iff "repeat" key).0 e) c
      | inr h''' ↦ cc
    ]
  ]
]

-- The nested loop of a body is a body of the next level.
inner-IsBody :
    {level : LoopLevel} {v w : Value} {key : String}
    → Nested level v key
    → as_plain (get v key) ≡ some w
    → (child : LoopLevel) × (child_level level ≡ some child) × IsBody child w
inner-IsBody (absent e) h = absurd (ground (arith, ap as_plain e))
inner-IsBody (not_plain c e) h = cc
inner-IsBody {w} (nested {child} {w = w'} c e b) h =
    let same : w' ≡ w = cc in (child, c, subst (IsBody child) same b)

Chain-le-rank :
    {v : Value} {n : ℕ} → Chain v n → (level : LoopLevel) → IsBody level v → n ≤ rank level
Chain-le-rank stop level b = omega arith
Chain-le-rank (deeper key m e c) level b =
    let (child, d, inner) = inner-IsBody (at_loop_key key b m) e in
    omega (arith, Chain-le-rank c child inner, child-rank level child d)

-- In an accepted body the loops nest at most as deep as the levels below: two below a test-level
-- loop, one below a step-level loop, none below an assertion-block-level loop.
pub nesting-le-rank :
    (v : Value) (ctx : Message) (level : LoopLevel) (n : ℕ)
    → clean (validate_loop_body v ctx level) ≡ true
    → Chain v n
    → n ≤ rank level
nesting-le-rank v ctx level n h c = Chain-le-rank c level ((validate_loop_body_iff v ctx level).0 h)

validate_nested-agree :
    (c c' : Value → Message → LoopLevel → Report) (v : Value) (ctx : Message) (level : LoopLevel)
    (key : String)
    → ((w : Value) (m : Message) (child : LoopLevel)
        → child_level level ≡ some child
        → c w m child ≡ c' w m child)
    → validate_nested c v ctx level key ≡ validate_nested c' v ctx level key
unfolding validate_nested
validate_nested-agree c c' v ctx level key same = elim (Option-cases (child_level level)) [
  | inl e ↦ ground arith
  | inr (child, e) ↦ elim (Option-cases (as_plain (get v key))) [
    | inl p ↦ ground arith
    | inr (w, p) ↦ ground (arith, same w (under ctx key) child e)
  ]
]

loop_body-agree :
    (f g : ℕ) (v : Value) (ctx : Message) (level : LoopLevel)
    → rank level < f
    → rank level < g
    → loop_body f v ctx level ≡ loop_body g v ctx level
unfolding loop_body
loop_body-agree zero g v ctx level p q = absurd (omega arith)
loop_body-agree (suc f) zero v ctx level p q = absurd (omega arith)
loop_body-agree (suc f) (suc g) v ctx level p q =
    let same = λ (key : String).
      validate_nested-agree (loop_body f) (loop_body g) v ctx level key (λ w m child e.
        loop_body-agree f g w m child (omega (arith, child-rank level child e))
          (omega (arith, child-rank level child e))) in
    cc (same "forEach", same "for", same "repeat")

-- The check of a loop body makes at most `rank level` nested calls: more fuel changes nothing.
pub validate_loop_body_fuel :
    (fuel : ℕ) (v : Value) (ctx : Message) (level : LoopLevel)
    → rank level < fuel
    → loop_body fuel v ctx level ≡ validate_loop_body v ctx level
unfolding validate_loop_body
validate_loop_body_fuel fuel v ctx level h =
    loop_body-agree fuel (suc (rank level)) v ctx level h (omega arith)
