-- ===== src/Validator/Where/Complete.antt =====
-- Every entry of the four forms is accepted.
use dokkimi.Prelude.{ℕ, zero, suc, ◌≤◌, ◌<◌, ◌≡◌, ◌↔◌, refl, String, true, arith, All, All-imp}
use mathlib.Core.List.{append-nil}
use dokkimi.Prelude.Text.{has_prefix}
use dokkimi.Prelude.Text.Prefix.{has_prefix_iff}
use dokkimi.Json.{
  Value, string, array, object, Items, cons, Fields, Unknown, known, elements, get, depth,
}
use dokkimi.Json.Depth.{depth-found, depth-found_elements}
use dokkimi.Json.Reads.{is_one_of-string}
use dokkimi.Report.{Report, Message, clean, for_each, at, says}
use dokkimi.Report.Clean.{clean-unknown_then, clean-seq_iff}
use dokkimi.Validator.Keys.{valid_assertion_operators}
use dokkimi.Validator.Where.{where_entry, where_forms, where_path, where_list, validate_where_entry}
use dokkimi.Validator.Where.Sound.{where_entry_sound}
use dokkimi.Validator.Where.Form.{
  Lacks, HasOne, IsWhere, compares, any_of, all_of, negates, AllWhere, no_more, more,
}

abbrev Checker : Type 0
Checker = Unknown → Message → Report

where_path_complete :
    (fs : Fields) (ctx : Message) (path : String)
    → get (object fs) "path" ≡ known (string path)
    → has_prefix "$$." path ≡ true
    → HasOne fs "operator" valid_assertion_operators
    → clean (where_path (object fs) ctx) ≡ true
unfolding where_path
where_path_complete fs ctx path e h (op, found, ok) =
    ground (arith, is_one_of-string op valid_assertion_operators)

where_list_complete :
    (c : Checker) (key : String) (ctx : Message) (u : Unknown) (v : Value) (vs : Items)
    → u ≡ known (array (cons v vs))
    → clean (for_each (λ i x. c (known x) (at ctx key i)) 0 (elements (cons v vs))) ≡ true
    → clean (where_list c u key ctx) ≡ true
unfolding where_list
where_list_complete c key ctx u v vs e h = rw e h

module _ (c : Checker) (fs : Fields) (ctx : Message) where
  where_forms-path :
      {v : Value}
      → get (object fs) "path" ≡ known v
      → Lacks fs "or"
      → Lacks fs "and"
      → Lacks fs "not"
      → clean (where_path (object fs) ctx) ≡ true
      → clean (where_forms c (object fs) ctx) ≡ true
  unfolding where_forms
  where_forms-path e no_or no_and no_not ok =
      rw (e, no_or, no_and, no_not) (ground (arith, append-nil (where_path (object fs) ctx)))

  where_forms-or :
      {v : Value}
      → get (object fs) "or" ≡ known v
      → Lacks fs "path"
      → Lacks fs "and"
      → Lacks fs "not"
      → clean (where_list c (get (object fs) "or") ".or" ctx) ≡ true
      → clean (where_forms c (object fs) ctx) ≡ true
  unfolding where_forms
  where_forms-or e no_path no_and no_not ok =
      ground (arith, append-nil (where_list c (get (object fs) "or") ".or" ctx))

  where_forms-and :
      {v : Value}
      → get (object fs) "and" ≡ known v
      → Lacks fs "path"
      → Lacks fs "or"
      → Lacks fs "not"
      → clean (where_list c (get (object fs) "and") ".and" ctx) ≡ true
      → clean (where_forms c (object fs) ctx) ≡ true
  unfolding where_forms
  where_forms-and e no_path no_or no_not ok =
      ground (arith, append-nil (where_list c (get (object fs) "and") ".and" ctx))

  where_forms-not :
      {v : Value}
      → get (object fs) "not" ≡ known v
      → Lacks fs "path"
      → Lacks fs "or"
      → Lacks fs "and"
      → clean (c (get (object fs) "not") (says ctx ".not")) ≡ true
      → clean (where_forms c (object fs) ctx) ≡ true
  unfolding where_forms
  where_forms-not e no_path no_or no_and ok = ground arith

below :
    (f : ℕ) (fs : Fields) (key : String) (vs : Items)
    → get (object fs) key ≡ known (array vs)
    → depth (object fs) ≤ f
    → All (λ v. depth v < f) (elements vs)
below f fs key vs e h =
    All-imp (λ x p. omega arith) (elements vs) (depth-found_elements fs key vs e)

mutual
  unfolding where_entry

  where_entry_complete :
      {v : Value}
      → IsWhere v
      → (f : ℕ) (ctx : Message) → depth v < f
      → clean (where_entry f (known v) ctx) ≡ true
  where_entry_complete (compares {fs} path e (r, b) op no_or no_and no_not) (suc f) ctx d =
      rw clean-unknown_then (
        where_forms-path (where_entry f) fs ctx e no_or no_and no_not
          (where_path_complete fs ctx path e ((has_prefix_iff "$$." path).1 (r, b)) op))
  where_entry_complete (any_of {fs} {v} {vs} e all no_path no_and no_not) (suc f) ctx d =
      rw clean-unknown_then (
        where_forms-or (where_entry f) fs ctx e no_path no_and no_not (
          where_list_complete (where_entry f) ".or" ctx _ v vs e
            (AllWhere-complete all f (below f fs "or" (cons v vs) e (omega arith)) ".or" ctx 0)))
  where_entry_complete (all_of {fs} {v} {vs} e all no_path no_or no_not) (suc f) ctx d =
      rw clean-unknown_then (
        where_forms-and (where_entry f) fs ctx e no_path no_or no_not (
          where_list_complete (where_entry f) ".and" ctx _ v vs e
            (AllWhere-complete all f (below f fs "and" (cons v vs) e (omega arith)) ".and" ctx 0)))
  where_entry_complete (negates {fs} {v} e w no_path no_or no_and) (suc f) ctx d =
      rw clean-unknown_then (
        where_forms-not (where_entry f) fs ctx e no_path no_or no_and (
          rw e
            (where_entry_complete w f (says ctx ".not") (omega (arith, depth-found fs "not" v e)))))
  where_entry_complete w zero ctx d = absurd (omega arith)

  AllWhere-complete :
      {vs : Items}
      → AllWhere vs
      → (f : ℕ) → All (λ v. depth v < f) (elements vs)
      → (key : String) (ctx : Message) (i : ℕ)
      → clean (for_each (λ i x. where_entry f (known x) (at ctx key i)) i (elements vs)) ≡ true
  AllWhere-complete no_more f d key ctx i = refl
  AllWhere-complete (more {v} {vs} w ws) f (d, ds) key ctx i =
      (clean-seq_iff (where_entry f (known v) (at ctx key i))
          (for_each (λ i x. where_entry f (known x) (at ctx key i)) (suc i) (elements vs))).1
        (where_entry_complete w f (at ctx key i) d, AllWhere-complete ws f ds key ctx (suc i))

-- The check of a where entry reports no error exactly for the entries of the four forms, at every
-- depth of nesting.
pub validate_where_entry_iff :
    (v : Value) (ctx : Message) → (clean (validate_where_entry (known v) ctx) ≡ true) ↔ IsWhere v
unfolding validate_where_entry
validate_where_entry_iff v ctx = (
  λ h. where_entry_sound (suc (depth v)) v ctx h (omega arith),
  λ w. where_entry_complete w (suc (depth v)) ctx (omega arith),
)
