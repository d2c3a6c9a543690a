-- ===== src/Validator/Where/Counts.antt =====
-- Which counts are accepted.
use dokkimi.Prelude.{◌≡◌, ◌↔◌, refl, String, true, arith, member}
use dokkimi.Prelude.Int.{ℤ, pos, negsuc}
use dokkimi.Json.{Unknown, known, number, string, object, Fields, get, is_truthy}
use dokkimi.Json.Numbers.{int}
use dokkimi.Json.Reads.{is_one_of_sound, is_one_of-string, as_integer_sound}
use dokkimi.Report.{Message, clean}
use dokkimi.Report.Clean.{clean-unknown_then}
use dokkimi.Validator.Keys.{valid_count_operators}
use dokkimi.Validator.Where.Form.{HasOne}
use dokkimi.Validator.Where.{validate_count_assertion, validate_match_count}

-- `{operator, value}`.
abbrev pub CountAssertion : Fields → Type 0
CountAssertion fs =
    HasOne fs "operator" valid_count_operators
    × ((z : ℤ) × (get (object fs) "value" ≡ known (number (int z))))

-- A natural number, or a count assertion.
abbrev pub CountForm : Unknown → Type 0
CountForm (known (number (int (pos n)))) = Unit
CountForm (known (object fs)) = CountAssertion fs
CountForm _ = ⊥

nonempty_operator :
    (s : String) → member s valid_count_operators ≡ true → is_truthy (string s) ≡ true
unfolding member
nonempty_operator String.[] h = cc
nonempty_operator (String.◌∷◌ c s) h = refl

CountAssertion-iff :
    (fs : Fields) (ctx : Message)
    → (clean (validate_count_assertion (known (object fs)) ctx) ≡ true) ↔ CountAssertion fs
unfolding validate_count_assertion
CountAssertion-iff fs ctx =
    let op = get (object fs) "operator" in
    let value = get (object fs) "value" in
    rw clean-unknown_then (
      λ h. (
        is_one_of_sound op valid_count_operators (ground arith),
        as_integer_sound value (ground arith),
      ),
      λ (operator, found).
          let listed_op = is_one_of-string operator.0 valid_count_operators in
          let truthy_op = nonempty_operator operator.0 operator.2 in ground arith,
    )

-- The count of a match is accepted exactly if it is a natural number or an object with an operator
-- of the list and an integer value.
pub validate_match_count_iff :
    (u : Unknown) (ctx : Message) → (clean (validate_match_count u ctx) ≡ true) ↔ CountForm u
unfolding validate_match_count
validate_match_count_iff (known (number (int (pos n)))) ctx = (λ h. tt, λ p. ground arith)
validate_match_count_iff (known (number (int (negsuc n)))) ctx =
    (λ h. absurd (ground arith), λ p. elim p [ ])
validate_match_count_iff (known (object fs)) ctx = CountAssertion-iff fs ctx
validate_match_count_iff _ ctx = (λ h. cc, λ p. elim p [ ])
