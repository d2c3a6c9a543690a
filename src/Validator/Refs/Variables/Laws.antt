-- ===== src/Validator/Refs/Variables/Laws.antt =====
-- The resolution of variables: it ends, it returns nothing exactly if it reports an error, and which
-- variables are accepted.
use dokkimi.Prelude.{
  ℕ, zero, suc, ◌+◌, ◌≤◌, ◌<◌, ◌≡◌, ◌↔◌, ◌⊎◌, inl, inr, refl, subst, String, Bool, true, ◌&&◌,
  Option, none, some, List, [], ◌∷◌, arith, ltb, length, member, every, Bool-cases,
}
use dokkimi.Prelude.Text.{is_word_text, is_present}
use dokkimi.Json.{
  Value, string, array, object, Fields, end, elements, Unknown, undefined, known, own, entries,
  is_defined,
}
use dokkimi.Json.Merge.{without}
use dokkimi.Report.{Message, clean}
use dokkimi.Report.Clean.{clean-append}
use dokkimi.Validator.Refs.Variables.{
  Outcome, Resolver, ref_list, check_ref_keys, plain_variables, with_result, ref_content, one_ref,
  all_refs, override, variables_refs, variables_from, resolve_variables_ref, check_keys,
  check_resolved, validate_variables_field,
}

-- An error is reported exactly if there is no result.
abbrev Settled : Outcome → Type 0
Settled o = clean o.0 ≡ is_present o.1

check_ref_keys-every :
    (s : String) (es : List (String × Value))
    → clean (check_ref_keys s es) ≡ every (λ (e : String × Value). is_word_text e.0) es
unfolding check_ref_keys
check_ref_keys-every s [] = refl
check_ref_keys-every s ((key, v) ∷ es) = elim (Bool-cases (is_word_text key)) [
  | inl e ↦ rw (e, check_ref_keys-every s es) refl
  | inr e ↦ rw e refl
]

plain-Settled : (s : String) (fs : Fields) → Settled (plain_variables s fs)
unfolding plain_variables
plain-Settled s fs = ground (arith, check_ref_keys-every s (entries fs))

present-with_result :
    (o merged : Option Fields)
    → is_present (with_result o merged) ≡ is_present o && is_present merged
unfolding with_result
present-with_result none merged = refl
present-with_result (some new) none = refl
present-with_result (some new) (some fs) = refl

module _ (absolute : String → String) (resolve : String → String → String) (exists : String → Bool)
    (read : String → Option Unknown) where
  -- The calls with one more visited path, of at most the depth that is allowed.
  abbrev AllSettled : ℕ → Resolver absolute resolve exists read → Type 0
  AllSettled n rec =
      (visited : List String) (source : String) (vars : Fields)
      → length visited ≡ suc n
      → Settled (rec visited source vars)

  content-Settled :
      (rec : Resolver absolute resolve exists read) (visited : List String) (s p : String)
      (o : Option Unknown)
      → AllSettled (length visited) rec
      → Settled (ref_content absolute resolve exists read rec visited s p o)
  unfolding ref_content
  content-Settled rec visited s p none h = refl
  content-Settled rec visited s p (some (known (object fs))) h =
      let inner = h (p ∷ visited) p fs refl in
      let plain = plain-Settled s fs in
      elim (Bool-cases (is_defined (own fs "$ref"))) [ inl e ↦ rw e inner | inr e ↦ rw e plain ]
  content-Settled rec visited s p (some _) h = refl

  one-Settled :
      (rec : Resolver absolute resolve exists read) (visited : List String) (source : String)
      (ref : Value)
      → AllSettled (length visited) rec
      → Settled (one_ref absolute resolve exists read rec visited source ref)
  unfolding one_ref
  one-Settled rec visited source (string s) h =
      let p = resolve source s in
      let inner = content-Settled rec visited s p (read p) h in
      elim (Bool-cases (member p visited)) [
        | inl e ↦ rw e refl
        | inr e ↦ elim (Bool-cases (exists p)) [ inl f ↦ rw (e, f) inner | inr f ↦ rw (e, f) refl ]
      ]
  one-Settled rec visited source _ h = refl

  all-Settled :
      (rec : Resolver absolute resolve exists read) (visited : List String) (source : String)
      (refs : List Value) (merged : Option Fields)
      → AllSettled (length visited) rec
      → clean (all_refs absolute resolve exists read rec visited source refs merged).0
          && is_present merged
        ≡ is_present (all_refs absolute resolve exists read rec visited source refs merged).1
  unfolding all_refs
  all-Settled rec visited source [] merged h = refl
  all-Settled rec visited source (ref ∷ refs) merged h =
      let o = one_ref absolute resolve exists read rec visited source ref in
      let next = with_result o.1 merged in
      let rest = all_refs absolute resolve exists read rec visited source refs next in
      ground (
        arith,
        clean-append o.0 rest.0,
        present-with_result o.1 merged,
        one-Settled rec visited source ref h,
        all-Settled rec visited source refs next h,
      )

  override-Settled :
      (inline : Fields) (o : Outcome)
      → Settled o
      → Settled (override absolute resolve exists read inline o)
  unfolding override
  override-Settled inline (r, none) h = h
  override-Settled inline (r, some fs) h = h

  refs-Settled :
      (rec : Resolver absolute resolve exists read) (visited : List String) (source : String)
      (u : Unknown) (inline : Fields)
      → AllSettled (length visited) rec
      → Settled (variables_refs absolute resolve exists read rec visited source u inline)
  unfolding variables_refs ref_list
  refs-Settled rec visited source undefined inline h = refl
  refs-Settled rec visited source (known (string s)) inline h =
      override-Settled inline
        (all_refs absolute resolve exists read rec visited source (string s ∷ []) (some end))
        (let all = all-Settled rec visited source (string s ∷ []) (some end) h in ground arith)
  refs-Settled rec visited source (known (array vs)) inline h =
      override-Settled inline
        (all_refs absolute resolve exists read rec visited source (elements vs) (some end))
        (let all = all-Settled rec visited source (elements vs) (some end) h in ground arith)
  refs-Settled rec visited source _ inline h = refl

  from-Settled :
      (fuel : ℕ) (visited : List String) (source : String) (vars : Fields)
      → length visited ≤ 11
      → 11 < fuel + length visited
      → Settled (variables_from absolute resolve exists read fuel visited source vars)
  unfolding variables_from
  from-Settled zero visited source vars l h = absurd (omega arith)
  from-Settled (suc fuel) visited source vars l h = elim (Bool-cases (ltb 10 (length visited))) [
    | inl e ↦ rw e refl
    | inr e ↦
        let inner =
          refs-Settled (variables_from absolute resolve exists read fuel) visited source
            (own vars "$ref") (without "$ref" vars)
            (λ more from fs same. from-Settled fuel more from fs (ground arith) (omega arith)) in
        rw e inner
  ]

  -- Whatever the files hold, the resolution of a variables object reports an error exactly if it
  -- returns nothing.
  pub resolve_variables_ref_settled :
      (vars : Fields) (source : String)
      → clean (resolve_variables_ref absolute resolve exists read vars source).0
        ≡ is_present (resolve_variables_ref absolute resolve exists read vars source).1
  unfolding resolve_variables_ref
  resolve_variables_ref_settled vars source =
      from-Settled 11 (absolute source ∷ []) source vars (omega arith) (omega arith)

  check_keys-every :
      (ctx : Message) (es : List (String × Value))
      → clean (check_keys absolute resolve exists read ctx es)
        ≡ every (λ (e : String × Value). is_word_text e.0) es
  unfolding check_keys
  check_keys-every ctx [] = refl
  check_keys-every ctx ((key, v) ∷ es) = elim (Bool-cases (is_word_text key)) [
    | inl e ↦ rw (e, check_keys-every ctx es) refl
    | inr e ↦ rw e refl
  ]

  -- A result whose keys are words.
  abbrev pub WordKeys : Option Fields → Type 0
  WordKeys o =
      (fs : Fields) × (o ≡ some fs)
      × (every (λ (e : String × Value). is_word_text e.0) (entries fs) ≡ true)

  resolved_iff :
      (ctx : Message) (o : Outcome)
      → Settled o
      → (clean (check_resolved absolute resolve exists read ctx o) ≡ true) ↔ WordKeys o.1
  unfolding check_resolved
  resolved_iff ctx (r, none) h = (λ k. absurd (ground arith), λ (fs, e, w). cc)
  resolved_iff ctx (r, some fs) h =
      let words = check_keys-every ctx (entries fs) in
      let both = clean-append r (check_keys absolute resolve exists read ctx (entries fs)) in
      (
        λ k. (fs, refl, ground arith),
        λ (gs, e, w).
            let same : gs ≡ fs = ground arith in
            let k =
              subst (λ x. every (λ (e : String × Value). is_word_text e.0) (entries x) ≡ true) same
                w in
            ground arith,
      )

  -- Left out, or an object that resolves to one whose keys are words.
  abbrev pub VariablesForm : String → Unknown → Type 0
  VariablesForm source u =
      (u ≡ undefined)
      ⊎ ((fs : Fields) × (u ≡ known (object fs))
          × WordKeys (resolve_variables_ref absolute resolve exists read fs source).1)

  -- Whatever the files hold, the check of a variables field reports no error exactly if the field is
  -- left out, or an object whose references resolve and give only keys that are words.
  pub validate_variables_field_iff :
      (u : Unknown) (ctx : Message) (source : String)
      → (clean (validate_variables_field absolute resolve exists read u ctx source) ≡ true)
        ↔ VariablesForm source u
  unfolding validate_variables_field
  validate_variables_field_iff undefined ctx source = (λ h. inl refl, λ p. refl)
  validate_variables_field_iff (known (object fs)) ctx source =
      let ok =
        resolved_iff ctx (resolve_variables_ref absolute resolve exists read fs source)
          (resolve_variables_ref_settled fs source) in
      (
        λ h. inr (fs, refl, ok.0 h),
        λ p. elim p [
          | inl e ↦ cc
          | inr (gs, e, w) ↦
              let same : gs ≡ fs = ground arith in
              ok.1 (
                subst
                  (λ x. WordKeys (resolve_variables_ref absolute resolve exists read x source).1)
                  same w)
        ],
      )
  validate_variables_field_iff _ ctx source =
      (λ h. cc, λ p. elim p [ inl e ↦ cc | inr (gs, e, w) ↦ cc ])
