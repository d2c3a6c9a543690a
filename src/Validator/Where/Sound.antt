-- ===== src/Validator/Where/Sound.antt =====
-- An accepted entry is of one of the four forms.
use dokkimi.Prelude.{
  ℕ, zero, suc, ◌≤◌, ◌<◌, ◌≡◌, refl, ◌⊎◌, inl, inr, String, true, arith, All, All-imp, All-apply,
}
use Prim.Native.String
use mathlib.Core.List.{append-nil}
use dokkimi.Prelude.Text.{has_prefix}
use dokkimi.Prelude.Text.Prefix.{has_prefix_iff}
use dokkimi.Json.{
  Value, string, array, object, Items, nil, cons, Fields, Unknown, known, elements, get, depth,
  is_one_of,
}
use dokkimi.Json.Depth.{depth-get, depth-found, depth-found_elements}
use dokkimi.Json.Reads.{as_string-cases, is_one_of_sound}
use dokkimi.Report.{Report, Message, clean, for_each, at, says}
use dokkimi.Report.Clean.{clean-unknown_then, for_each_sound}
use dokkimi.Validator.Keys.{valid_assertion_operators}
use dokkimi.Validator.Where.{where_entry, where_forms, where_path, where_list}
use dokkimi.Validator.Where.Form.{
  Lacks, HasOne, IsWhere, compares, any_of, all_of, negates, AllWhere, no_more, more,
}

abbrev Checker : Type 0
Checker = Unknown → Message → Report

-- What has passed when the forms of an entry pass: one form, and the others are absent.
where_forms_sound :
    (c : Checker) (fs : Fields) (ctx : Message)
    → clean (where_forms c (object fs) ctx) ≡ true
    → (Lacks fs "or"
        × Lacks fs "and"
        × Lacks fs "not"
        × (clean (where_path (object fs) ctx) ≡ true))
      ⊎ ((Lacks fs "path"
            × Lacks fs "and"
            × Lacks fs "not"
            × (clean (where_list c (get (object fs) "or") ".or" ctx) ≡ true))
          ⊎ ((Lacks fs "path"
                × Lacks fs "or"
                × Lacks fs "not"
                × (clean (where_list c (get (object fs) "and") ".and" ctx) ≡ true))
              ⊎ (Lacks fs "path"
                  × Lacks fs "or"
                  × Lacks fs "and"
                  × (clean (c (get (object fs) "not") (says ctx ".not")) ≡ true))))
unfolding where_forms
where_forms_sound c fs ctx h =
    let a = where_path (object fs) ctx in
    let b = where_list c (get (object fs) "or") ".or" ctx in
    let d = where_list c (get (object fs) "and") ".and" ctx in
    let e = c (get (object fs) "not") (says ctx ".not") in
    ground (arith, append-nil a, append-nil b, append-nil d)

where_path_sound :
    (fs : Fields) (ctx : Message)
    → clean (where_path (object fs) ctx) ≡ true
    → ((path : String) × (get (object fs) "path" ≡ known (string path))
        × (has_prefix "$$." path ≡ true))
      × HasOne fs "operator" valid_assertion_operators
unfolding where_path
where_path_sound fs ctx h = elim (as_string-cases (get (object fs) "path")) [
  | inl e ↦ absurd (ground arith)
  | inr (path, e) ↦
      let both : (has_prefix "$$." path ≡ true)
          × (is_one_of (get (object fs) "operator") valid_assertion_operators ≡ true) =
        ground arith in
      ((path, e, both.0), is_one_of_sound _ _ both.1)
]

where_list_sound :
    (c : Checker) (u : Unknown) (key : String) (ctx : Message)
    → clean (where_list c u key ctx) ≡ true
    → (v : Value) × (vs : Items) × (u ≡ known (array (cons v vs)))
      × (clean (for_each (λ i x. c (known x) (at ctx key i)) 0 (elements (cons v vs))) ≡ true)
unfolding where_list
where_list_sound c (known (array nil)) key ctx h = cc
where_list_sound c (known (array (cons v vs))) key ctx h = (v, vs, refl, h)
where_list_sound c _ key ctx h = cc

pub AllWhere-items : (vs : Items) → All IsWhere (elements vs) → AllWhere vs
AllWhere-items nil h = no_more
AllWhere-items (cons v vs) (p, h) = more p (AllWhere-items vs h)

where_entry-known :
    (f : ℕ) (u : Unknown) (ctx : Message)
    → 0 < f
    → clean (where_entry f u ctx) ≡ true
    → (v : Value) × (u ≡ known v)
unfolding where_entry
where_entry-known zero u ctx p h = elim p [ ]
where_entry-known (suc f) (known v) ctx p h = (v, refl)
where_entry-known (suc f) _ ctx p h = cc

-- The elements of a combination, from the check of each.
elements_sound :
    (f : ℕ) (key : String) (ctx : Message) (fs : Fields) (vs : Items)
    → ((v : Value) (ctx : Message)
        → clean (where_entry f (known v) ctx) ≡ true
        → depth v < f
        → IsWhere v)
    → depth (object fs) ≤ f
    → get (object fs) key ≡ known (array vs)
    → clean
        (for_each (λ i x. where_entry f (known x) (at ctx (String.◌++◌ "." key) i)) 0 (elements vs))
      ≡ true
    → AllWhere vs
elements_sound f key ctx fs vs ih d e h = AllWhere-items vs (
    All-apply (λ v. depth v < f) IsWhere (elements vs)
      (for_each_sound (λ i x. where_entry f (known x) (at ctx (String.◌++◌ "." key) i))
        (λ i x ok. ih x _ ok) 0 (elements vs) h)
      (All-imp (λ x p. omega arith) (elements vs) (depth-found_elements fs key vs e)))

pub where_entry_sound :
    (f : ℕ) (v : Value) (ctx : Message)
    → clean (where_entry f (known v) ctx) ≡ true
    → depth v < f
    → IsWhere v
unfolding where_entry
where_entry_sound (suc f) (object fs) ctx h d =
    elim (where_forms_sound (where_entry f) fs ctx (rw clean-unknown_then at h)) [
      | inl (no_or, no_and, no_not, ok) ↦
          let ((path, e, scoped), op) = where_path_sound fs ctx ok in
          compares path e ((has_prefix_iff "$$." path).0 scoped) op no_or no_and no_not
      | inr (inl (no_path, no_and, no_not, ok)) ↦
          let (v, vs, e, each) = where_list_sound (where_entry f) _ ".or" ctx ok in
          any_of e
            (elements_sound f "or" ctx fs (cons v vs) (where_entry_sound f) (omega arith) e each)
            no_path no_and no_not
      | inr (inr (inl (no_path, no_or, no_not, ok))) ↦
          let (v, vs, e, each) = where_list_sound (where_entry f) _ ".and" ctx ok in
          all_of e
            (elements_sound f "and" ctx fs (cons v vs) (where_entry_sound f) (omega arith) e each)
            no_path no_or no_not
      | inr (inr (inr (no_path, no_or, no_and, ok))) ↦
          let below = depth-get fs "not" in
          let (v, e) = where_entry-known f _ _ (omega arith) ok in
          negates e (where_entry_sound f v _ (rw e at ok) (omega (arith, depth-found fs "not" v e)))
            no_path no_or no_and
    ]
where_entry_sound (suc f) _ ctx h d = cc
where_entry_sound zero v ctx h d = absurd (omega arith)
