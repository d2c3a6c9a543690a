-- ===== src/Validator/Refs/Variables/Fuel.antt =====
-- The chain of files is followed at most ten deep: the resolution of variables ends.
use dokkimi.Prelude.{
  ℕ, zero, suc, ◌+◌, ◌≤◌, ◌<◌, ◌≡◌, inl, inr, refl, String, Bool, Option, none, some, List, [], ◌∷◌,
  arith, ltb, length, Bool-cases,
}
use dokkimi.Json.{
  Value, string, array, object, Fields, end, elements, Unknown, undefined, known, own,
}
use dokkimi.Json.Merge.{without}
use dokkimi.Validator.Refs.Variables.{
  Resolver, ref_list, with_result, ref_content, one_ref, all_refs, variables_refs, variables_from,
  resolve_variables_ref,
}

module _ (absolute : String → String) (resolve : String → String → String) (exists : String → Bool)
    (read : String → Option Unknown) where
  abbrev Same :
      ℕ → Resolver absolute resolve exists read → Resolver absolute resolve exists read → Type 0
  Same n rec rec' =
      (visited : List String) (source : String) (vars : Fields)
      → length visited ≡ suc n
      → rec visited source vars ≡ rec' visited source vars

  module _ (rec rec' : Resolver absolute resolve exists read) (visited : List String)
      (same : Same (length visited) rec rec') where
    content-Same :
        (s p : String) (o : Option Unknown)
        → ref_content absolute resolve exists read rec visited s p o
          ≡ ref_content absolute resolve exists read rec' visited s p o
    unfolding ref_content
    content-Same s p none = refl
    content-Same s p (some (known (object fs))) = rw (same (p ∷ visited) p fs refl) refl
    content-Same s p (some _) = refl

    one-Same :
        (source : String) (ref : Value)
        → one_ref absolute resolve exists read rec visited source ref
          ≡ one_ref absolute resolve exists read rec' visited source ref
    unfolding one_ref
    one-Same source (string s) =
        rw (content-Same s (resolve source s) (read (resolve source s))) refl
    one-Same source _ = refl

    all-Same :
        (source : String) (refs : List Value) (merged : Option Fields)
        → all_refs absolute resolve exists read rec visited source refs merged
          ≡ all_refs absolute resolve exists read rec' visited source refs merged
    unfolding all_refs
    all-Same source [] merged = refl
    all-Same source (ref ∷ refs) merged =
        rw
          (
            one-Same source ref,
            all-Same source refs (
                with_result (one_ref absolute resolve exists read rec' visited source ref).1
                  merged),
          )
          refl

    refs-Same :
        (source : String) (u : Unknown) (inline : Fields)
        → variables_refs absolute resolve exists read rec visited source u inline
          ≡ variables_refs absolute resolve exists read rec' visited source u inline
    unfolding variables_refs ref_list
    refs-Same source undefined inline = refl
    refs-Same source (known (string s)) inline =
        rw (all-Same source (string s ∷ []) (some end)) refl
    refs-Same source (known (array vs)) inline = rw (all-Same source (elements vs) (some end)) refl
    refs-Same source _ inline = refl

  from-agree :
      (f g : ℕ) (visited : List String) (source : String) (vars : Fields)
      → length visited ≤ 11
      → 11 < f + length visited
      → 11 < g + length visited
      → variables_from absolute resolve exists read f visited source vars
        ≡ variables_from absolute resolve exists read g visited source vars
  unfolding variables_from
  from-agree zero g visited source vars l h k = absurd (omega arith)
  from-agree (suc f) zero visited source vars l h k = absurd (omega arith)
  from-agree (suc f) (suc g) visited source vars l h k =
      elim (Bool-cases (ltb 10 (length visited))) [
        | inl e ↦ rw e refl
        | inr e ↦
            let inner =
              refs-Same (variables_from absolute resolve exists read f)
                (variables_from absolute resolve exists read g) visited
                (λ more from fs same.
                  from-agree f g more from fs (ground arith) (omega arith) (omega arith))
                source (own vars "$ref") (without "$ref" vars) in
            rw e inner
      ]

  -- Whatever the files hold, also if they name each other in a circle, more fuel than eleven calls
  -- changes nothing: the resolution of variables terminates.
  pub resolve_variables_ref_fuel :
      (fuel : ℕ) (vars : Fields) (source : String)
      → 11 ≤ fuel
      → variables_from absolute resolve exists read fuel (absolute source ∷ []) source vars
        ≡ resolve_variables_ref absolute resolve exists read vars source
  unfolding resolve_variables_ref
  resolve_variables_ref_fuel fuel vars source h =
      from-agree fuel 11 (absolute source ∷ []) source vars (omega arith) (omega arith)
        (omega arith)
