-- ===== src/Validator/Blocks/Sound.antt =====
-- What an accepted assertion block looks like.
use dokkimi.Prelude.{
  ◌≡◌, ◌↔◌, ◌⊎◌, inl, inr, refl, ℕ, String, Bool, true, false, ◌++◌, arith, All, Bool-cases,
}
use dokkimi.Json.{Value, array, object, Unknown, undefined, known, elements, get, is_defined}
use dokkimi.Json.Reads.{not_defined}
use dokkimi.Report.{Message, says, at, clean, only_if}
use dokkimi.Report.Clean.{
  clean-unknown_then, clean-seq_iff, clean-seq_four_iff, optional_iff, for_each_sound,
  for_each_complete,
}
use dokkimi.Validator.Assertions.{validate_match_criteria, validate_extract_rules}
use dokkimi.Validator.Assertions.Source.{IsAssertion, validate_assertion_iff}
use dokkimi.Validator.Assertions.Criteria.{CriteriaForm, validate_match_criteria_iff}
use dokkimi.Validator.Assertions.Extract.{ExtractForm, validate_extract_rules_iff}
use dokkimi.Validator.Loops.Levels.{block_level, loop_modifier_keys}
use dokkimi.Validator.Loops.Modifiers.{
  validate_loop_modifiers, validate_block_loop_sibling_conflicts,
}
use dokkimi.Validator.Loops.Modifiers.Chosen.{Loopless, sibling_conflicts_iff}
use dokkimi.Validator.Loops.Modifiers.Bodies.{LoopForm, validate_loop_modifiers_sound}
use dokkimi.Validator.Blocks.{
  validate_block_assertion, validate_block_assertions, has_loop_modifier, validate_assertion_block,
}

abbrev pub AssertionObject : Value → Type 0
AssertionObject (object fs) = IsAssertion (object fs)
AssertionObject _ = ⊥

abbrev pub AssertionList : Unknown → Type 0
AssertionList (known (array vs)) = All AssertionObject (elements vs)
AssertionList _ = ⊥

-- An accepted block. A loop holds the assertions in its body, so the block has none beside it.
pub record IsBlock (is_regex : String → Bool) (block : Value) : Type 0 where
  pub criteria : (get block "match" ≡ undefined) ⊎ CriteriaForm (get block "match")
  pub extract : (get block "extract" ≡ undefined) ⊎ ExtractForm is_regex (get block "extract")
  pub assertions : (get block "assertions" ≡ undefined) ⊎ AssertionList (get block "assertions")
  pub one_loop : LoopForm block_level block
  pub not_beside : All (Loopless block) loop_modifier_keys ⊎ (get block "assertions" ≡ undefined)

block_assertion_iff :
    (ctx : Message) (i : ℕ) (v : Value)
    → (clean (validate_block_assertion ctx i v) ≡ true) ↔ AssertionObject v
unfolding validate_block_assertion
block_assertion_iff ctx i (object fs) = validate_assertion_iff (object fs) (at ctx ".assertions" i)
block_assertion_iff ctx i _ = (λ h. cc, λ p. elim p [ ])

block_assertions_iff :
    (u : Unknown) (ctx : Message)
    → (clean (validate_block_assertions u ctx) ≡ true) ↔ AssertionList u
unfolding validate_block_assertions
block_assertions_iff (known (array vs)) ctx = (
  for_each_sound (validate_block_assertion ctx) (λ i v. (block_assertion_iff ctx i v).0) 0
      (elements vs),
  for_each_complete (validate_block_assertion ctx) (λ i v. (block_assertion_iff ctx i v).1) 0
      (elements vs),
)
block_assertions_iff _ ctx = (λ h. cc, λ p. elim p [ ])

no_loop :
    (block : Value)
    → has_loop_modifier block ≡ false
    → LoopForm block_level block × All (Loopless block) loop_modifier_keys
unfolding has_loop_modifier
no_loop block h =
    let a = not_defined (get block "forEach") (ground arith) in
    let b = not_defined (get block "for") (ground arith) in
    let c = not_defined (get block "repeat") (ground arith) in
    (inl (a, b, c), (rw a refl, (rw b refl, (rw c refl, tt))))

loops_sound :
    (block : Value) (ctx : Message)
    → clean (
        only_if (has_loop_modifier block) (
          (validate_loop_modifiers block ctx true block_level).0
          ++ validate_block_loop_sibling_conflicts block ctx))
      ≡ true
    → LoopForm block_level block
      × (All (Loopless block) loop_modifier_keys ⊎ (get block "assertions" ≡ undefined))
loops_sound block ctx h = elim (Bool-cases (has_loop_modifier block)) [
  | inr missing ↦ let (one, none_there) = no_loop block missing in (one, inl none_there)
  | inl there ↦
      let h' = rw there at h in
      let (a, b) =
        (clean-seq_iff (validate_loop_modifiers block ctx true block_level).0
            (validate_block_loop_sibling_conflicts block ctx)).0
          h' in
      (
        validate_loop_modifiers_sound block ctx true block_level a,
        (sibling_conflicts_iff block ctx).1.0 b,
      )
]

-- For every test of what a regular expression is, a block whose check reports no error has accepted
-- criteria, extract rules and assertions, at most one loop, an object that is a loop body of the
-- block level, and no assertions beside a loop.
pub validate_assertion_block_sound :
    (is_regex : String → Bool) (block : Value) (ctx : Message)
    → clean (validate_assertion_block is_regex block ctx) ≡ true
    → IsBlock is_regex block
unfolding validate_assertion_block
validate_assertion_block_sound is_regex block ctx h =
    let criteria = get block "match" in
    let extract = get block "extract" in
    let assertions = get block "assertions" in
    let check_criteria = validate_match_criteria criteria (says ctx ".match") in
    let check_extract = validate_extract_rules is_regex extract ctx in
    let check_assertions = validate_block_assertions assertions ctx in
    let h' = rw clean-unknown_then at h in
    let (a, b, c, d) =
      (clean-seq_four_iff (only_if (is_defined criteria) check_criteria)
          (only_if (is_defined extract) check_extract)
          (only_if (is_defined assertions) check_assertions)
          (only_if (has_loop_modifier block) (
            (validate_loop_modifiers block ctx true block_level).0
            ++ validate_block_loop_sibling_conflicts block ctx))).0
        h' in
    let (one_loop, not_beside) = loops_sound block ctx d in
    record {
      criteria =
          (optional_iff criteria check_criteria
              (validate_match_criteria_iff criteria (says ctx ".match"))).0
            a;
      extract =
          (optional_iff extract check_extract (validate_extract_rules_iff is_regex extract ctx)).0
            b;
      assertions =
          (optional_iff assertions check_assertions (block_assertions_iff assertions ctx)).0 c;
      one_loop = one_loop;
      not_beside = not_beside;
    }
