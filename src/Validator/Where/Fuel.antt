-- ===== src/Validator/Where/Fuel.antt =====
-- The fuel of `where_entry` never runs out on a finite value: with more fuel than the entry is deep, more changes nothing.
use dokkimi.Prelude.{ℕ, zero, suc, ◌≤◌, ◌<◌, ◌≡◌, refl, String, List, [], ◌∷◌, arith, All, All-imp}
use dokkimi.Json.{
  Value, array, object, nil, cons, Fields, Unknown, known, elements, get, depth, depth_unknown,
}
use dokkimi.Json.Depth.{depth-get, depth-element}
use dokkimi.Report.{Report, Message, for_each, at, says}
use dokkimi.Validator.Where.{where_entry, where_forms, where_list, validate_where_entry}

abbrev Checker : Type 0
Checker = Unknown → Message → Report

-- Two checkers give the same report on every value that is less deep than `d`.
abbrev Agree : ℕ → Checker → Checker → Type 0
Agree d c c' = (u : Unknown) (ctx : Message) → depth_unknown u < d → c u ctx ≡ c' u ctx

for_each-Agree :
    (d : ℕ) (c c' : Checker) (key : String) (ctx : Message)
    → Agree d c c'
    → (i : ℕ) (vs : List Value) → All (λ v. depth v < d) vs
    → for_each (λ i x. c (known x) (at ctx key i)) i vs
      ≡ for_each (λ i x. c' (known x) (at ctx key i)) i vs
for_each-Agree d c c' key ctx same i [] h = refl
for_each-Agree d c c' key ctx same i (v ∷ vs) (p, h) =
    cc (same (known v) (at ctx key i) p, for_each-Agree d c c' key ctx same (suc i) vs h)

where_list-Agree :
    (d : ℕ) (c c' : Checker) (list : Unknown) (key : String) (ctx : Message)
    → Agree d c c'
    → depth_unknown list ≤ d
    → where_list c list key ctx ≡ where_list c' list key ctx
unfolding where_list
where_list-Agree d c c' (known (array nil)) key ctx same h = refl
where_list-Agree d c c' (known (array (cons v vs))) key ctx same h =
    for_each-Agree d c c' key ctx same 0 (v ∷ elements vs)
      (All-imp (λ x p. omega arith) (v ∷ elements vs) (depth-element (cons v vs)))
where_list-Agree d c c' _ key ctx same h = refl

where_forms-Agree :
    (d : ℕ) (c c' : Checker) (fs : Fields) (ctx : Message)
    → Agree d c c'
    → depth (object fs) ≤ d
    → where_forms c (object fs) ctx ≡ where_forms c' (object fs) ctx
unfolding where_forms
where_forms-Agree d c c' fs ctx same h = rw (
  where_list-Agree d c c' (get (object fs) "or") ".or" ctx same (omega (arith, depth-get fs "or")),
  where_list-Agree d c c' (get (object fs) "and") ".and" ctx same
      (omega (arith, depth-get fs "and")),
  same (get (object fs) "not") (says ctx ".not") (omega (arith, depth-get fs "not")),
)

where_entry-agree :
    (f g : ℕ) (u : Unknown) (ctx : Message)
    → depth_unknown u < f
    → depth_unknown u < g
    → where_entry f u ctx ≡ where_entry g u ctx
unfolding where_entry
where_entry-agree zero g u ctx p q = absurd (omega arith)
where_entry-agree (suc f) zero u ctx p q = absurd (omega arith)
where_entry-agree (suc f) (suc g) (known (object fs)) ctx p q = rw (
    where_forms-Agree (depth (object fs)) (where_entry f) (where_entry g) fs ctx
      (λ u c h. where_entry-agree f g u c (omega arith) (omega arith)) (omega arith))
where_entry-agree (suc f) (suc g) _ ctx p q = refl

-- On a finite value, more fuel than the depth of the entry changes nothing.
validate_where_entry_fuel :
    (fuel : ℕ) (u : Unknown) (ctx : Message)
    → depth_unknown u < fuel
    → where_entry fuel u ctx ≡ validate_where_entry u ctx
unfolding validate_where_entry
validate_where_entry_fuel fuel u ctx h =
    where_entry-agree fuel (suc (depth_unknown u)) u ctx h (omega arith)
