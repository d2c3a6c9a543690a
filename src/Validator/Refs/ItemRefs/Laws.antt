-- ===== src/Validator/Refs/ItemRefs/Laws.antt =====
-- The resolution of items: it ends, and it drops an item exactly if it reports an error.
use dokkimi.Prelude.{
  ℕ, zero, suc, ◌+◌, ◌≤◌, ◌<◌, ◌≡◌, inl, inr, refl, String, Bool, ◌&&◌, Option, none, some, List,
  [], ◌∷◌, arith, ltb, eqb, length, member, Bool-cases, if◌then◌else◌,
}
use dokkimi.Prelude.Text.{is_present}
use dokkimi.Json.{
  Value, null, string, array, object, Unknown, undefined, known, method, get, is_defined, end,
}
use dokkimi.Report.{Report, clean, pass}
use dokkimi.Json.Merge.{spread}
use dokkimi.Report.Clean.{clean-append}
use dokkimi.Validator.Refs.Variables.{ref_list}
use dokkimi.Validator.Refs.ItemRefs.{
  ResolvedItem, Content, Merged, Resolver, with_content, merged_item, first_content, ref_fields,
  push_resolved, item_content, item_ref, item_refs, referenced, resolve_item, resolve_items,
  refs_from, resolve_refs,
}

-- An error is reported exactly if there is no result.
abbrev Settled {ℓ} : {A : Type ℓ} → Report × Option A → Type 0
Settled o = clean o.0 ≡ is_present o.1

-- An error is reported exactly if an item is dropped.
abbrev Complete : ℕ → Report × List ResolvedItem → Type 0
Complete n o = (clean o.0 ≡ eqb (length o.1) n) × (length o.1 ≤ n)

first-Settled : (o : Report × List ResolvedItem) → Complete 1 o → Settled (first_content o)
unfolding first_content
first-Settled (r, []) (h, l) = ground arith
first-Settled (r, x ∷ xs) (h, l) = ground arith

present-with_content :
    (o : Option Content) (m : Merged) → is_present (with_content o m) ≡ is_present o && is_present m
unfolding with_content
present-with_content none m = refl
present-with_content (some c) none = refl
present-with_content (some (new, p)) (some (fs, last)) = refl

present-merged_item :
    (item : Value) (source : String) (m : Merged)
    → is_present (merged_item (ref_fields item) source m) ≡ is_present m
unfolding merged_item
present-merged_item item source none = refl
present-merged_item item source (some (fs, last)) = refl

push-Complete :
    (n : ℕ) (o : Report × Option ResolvedItem) (rest : Report × List ResolvedItem)
    → Settled o
    → Complete n rest
    → Complete (suc n) (push_resolved o rest)
unfolding push_resolved
push-Complete n (r, none) (s, xs) h (k, l) = (ground (arith, clean-append r s), omega arith)
push-Complete n (r, some x) (s, xs) h (k, l) = (ground (arith, clean-append r s), omega arith)

module _ (absolute : String → String) (resolve : String → String → String) (exists : String → Bool)
    (read : String → Option Unknown) where
  module _ (rec : Resolver absolute resolve exists read) (visited : List String)
      (inner : (p : String) (v : Value) → Complete 1 (rec (p ∷ visited) p (v ∷ []))) where
    value-Settled :
        (i : ℕ) (s p : String) (v : Value)
        → Settled (
            if is_defined (get v "$ref")
            then first_content (rec (p ∷ visited) p (v ∷ []))
            else (pass, some (spread v, p)))
    value-Settled i s p v =
        let deep = first-Settled (rec (p ∷ visited) p (v ∷ [])) (inner p v) in
        elim (Bool-cases (is_defined (get v "$ref"))) [ inl e ↦ rw e deep | inr e ↦ rw e refl ]

    content-Settled :
        (i : ℕ) (s p : String) (o : Option Unknown)
        → Settled (item_content absolute resolve exists read rec visited i s p o)
    unfolding item_content
    content-Settled i s p none = refl
    content-Settled i s p (some undefined) = refl
    content-Settled i s p (some (known null)) = refl
    content-Settled i s p (some (known v)) = value-Settled i s p v
    content-Settled i s p (some method) = refl

    ref-Settled :
        (source : String) (i : ℕ) (ref : Value)
        → Settled (item_ref absolute resolve exists read rec visited source i ref)
    unfolding item_ref
    ref-Settled source i (string s) =
        let p = resolve source s in
        let content = content-Settled i s p (read p) in
        elim (Bool-cases (member p visited)) [
          | inl e ↦ rw e refl
          | inr e ↦ elim (Bool-cases (exists p)) [
            | inl f ↦ rw (e, f) content
            | inr f ↦ rw (e, f) refl
          ]
        ]
    ref-Settled source i _ = refl

    refs-Settled :
        (source : String) (i : ℕ) (refs : List Value) (m : Merged)
        → clean (item_refs absolute resolve exists read rec visited source i refs m).0
            && is_present m
          ≡ is_present (item_refs absolute resolve exists read rec visited source i refs m).1
    unfolding item_refs
    refs-Settled source i [] m = refl
    refs-Settled source i (ref ∷ refs) m =
        let o = item_ref absolute resolve exists read rec visited source i ref in
        let next = with_content o.1 m in
        let rest = item_refs absolute resolve exists read rec visited source i refs next in
        ground (
          arith,
          clean-append o.0 rest.0,
          present-with_content o.1 m,
          ref-Settled source i ref,
          refs-Settled source i refs next,
        )

    referenced-Settled :
        (source : String) (i : ℕ) (item : Value) (refs : Option (List Value))
        → Settled (referenced absolute resolve exists read rec visited source i item refs)
    unfolding referenced
    referenced-Settled source i item none = refl
    referenced-Settled source i item (some refs) =
        let o =
          item_refs absolute resolve exists read rec visited source i refs (some (end, none)) in
        let all = refs-Settled source i refs (some (end, none)) in
        ground (arith, present-merged_item item source o.1)

    item-Settled :
        (source : String) (i : ℕ) (v : Value)
        → Settled (resolve_item absolute resolve exists read rec visited source i v)
    unfolding resolve_item
    item-Settled source i (object fs) =
        referenced-Settled source i (object fs) (ref_list (get (object fs) "$ref"))
    item-Settled source i (array vs) =
        referenced-Settled source i (array vs) (ref_list (get (array vs) "$ref"))
    item-Settled source i _ = refl

    items-Complete :
        (source : String) (i : ℕ) (vs : List Value)
        → Complete (length vs) (resolve_items absolute resolve exists read rec visited source i vs)
    unfolding resolve_items
    items-Complete source i [] = (refl, omega arith)
    items-Complete source i (v ∷ vs) =
        push-Complete (length vs) (resolve_item absolute resolve exists read rec visited source i v)
          (resolve_items absolute resolve exists read rec visited source (suc i) vs)
          (item-Settled source i v) (items-Complete source (suc i) vs)

  from-Complete :
      (fuel : ℕ) (visited : List String) (source : String) (v : Value) (vs : List Value)
      → length visited ≤ 11
      → 11 < fuel + length visited
      → Complete
          (suc (length vs))
          (refs_from absolute resolve exists read fuel visited source (v ∷ vs))
  unfolding refs_from
  from-Complete zero visited source v vs l h = absurd (omega arith)
  from-Complete (suc fuel) visited source v vs l h = elim (Bool-cases (ltb 10 (length visited))) [
    | inl e ↦ rw e (ground arith, omega arith)
    | inr e ↦
        let all =
          items-Complete (refs_from absolute resolve exists read fuel) visited
            (λ p w. from-Complete fuel (p ∷ visited) p w [] (ground arith) (omega arith)) source 0
            (v ∷ vs) in
        rw e all
  ]

  -- Whatever the files hold, the resolution of items reports an error exactly if it returns fewer
  -- items than it was given, and it never returns more.
  pub resolve_refs_settled :
      (items : List Value) (source : String)
      → (clean (resolve_refs absolute resolve exists read items source).0
          ≡ eqb (length (resolve_refs absolute resolve exists read items source).1) (length items))
        × (length (resolve_refs absolute resolve exists read items source).1 ≤ length items)
  unfolding resolve_refs refs_from resolve_items
  resolve_refs_settled [] source = (refl, omega arith)
  resolve_refs_settled (v ∷ vs) source =
      from-Complete 11 (absolute source ∷ []) source v vs (omega arith) (omega arith)
