-- ===== src/Report/Clean.antt =====
-- When a report holds no error, statement by statement.
use dokkimi.Prelude.{
  ◌⊎◌, inl, inr, ℕ, suc, String, ◌≡◌, ◌↔◌, refl, Bool, true, not, ◌&&◌, List, [], ◌∷◌, ◌++◌, arith,
  All, none, some, subst, ap, sym,
}
use dokkimi.Json.{
  Value, Items, array, Unknown, undefined, known, method, is_defined, keys, elements, as_array,
}
use dokkimi.Report.{
  Report, Message, err, error, warning, clean, for_each, only_if, check_unknown_keys, warn_unknown,
}

pub clean-append : (a b : Report) → clean (a ++ b) ≡ clean a && clean b
clean-append [] b = refl
clean-append (error m ∷ a) b = refl
clean-append (warning m ∷ a) b = clean-append a b

clean-warn_unknown :
    (valid_keys : List String) (ctx : Message) (ks : List String)
    → clean (warn_unknown valid_keys ctx ks) ≡ true
unfolding warn_unknown
clean-warn_unknown valid_keys ctx [] = refl
clean-warn_unknown valid_keys ctx (key ∷ rest) =
    ground (arith, clean-warn_unknown valid_keys ctx rest)

-- An unknown property is a warning, never an error.
pub clean-check_unknown_keys :
    (obj : Value) (valid_keys : List String) (ctx : Message)
    → clean (check_unknown_keys obj valid_keys ctx) ≡ true
unfolding check_unknown_keys
clean-check_unknown_keys obj valid_keys ctx = clean-warn_unknown valid_keys ctx (keys obj)

pub clean-unknown_then :
    (obj : Value) (valid_keys : List String) (ctx : Message) (rest : Report)
    → clean (check_unknown_keys obj valid_keys ctx ++ rest) ≡ clean rest
clean-unknown_then obj valid_keys ctx rest = ground (
  arith,
  clean-append (check_unknown_keys obj valid_keys ctx) rest,
  clean-check_unknown_keys obj valid_keys ctx,
)

module _ {ℓ κ} {A : Type ℓ} {P : A → Type κ} (body : ℕ → A → Report) where
  pub for_each_sound :
      ((i : ℕ) (x : A) → clean (body i x) ≡ true → P x)
      → (i : ℕ) (xs : List A) → clean (for_each body i xs) ≡ true
      → All P xs
  for_each_sound each i [] h = tt
  for_each_sound each i (x ∷ xs) h =
      let both : (clean (body i x) ≡ true) × (clean (for_each body (suc i) xs) ≡ true) =
        ground (arith, clean-append (body i x) (for_each body (suc i) xs)) in
      (each i x both.0, for_each_sound each (suc i) xs both.1)

  pub for_each_complete :
      ((i : ℕ) (x : A) → P x → clean (body i x) ≡ true)
      → (i : ℕ) (xs : List A) → All P xs
      → clean (for_each body i xs) ≡ true
  for_each_complete each i [] h = refl
  for_each_complete each i (x ∷ xs) (p, h) = ground (
    arith,
    clean-append (body i x) (for_each body (suc i) xs),
    each i x p,
    for_each_complete each (suc i) xs h,
  )

-- A sequence is clean exactly if both statements are.
pub clean-seq_iff : (a b : Report) → (clean (a ++ b) ≡ true) ↔ ((clean a ≡ true) × (clean b ≡ true))
clean-seq_iff a b = ground (arith, clean-append a b)

pub clean-seq_three_iff :
    (a b c : Report)
    → (clean (a ++ (b ++ c)) ≡ true) ↔ ((clean a ≡ true) × (clean b ≡ true) × (clean c ≡ true))
clean-seq_three_iff a b c = ground (arith, clean-append a (b ++ c), clean-append b c)

pub clean-seq_four_iff :
    (a b c d : Report)
    → (clean (a ++ (b ++ (c ++ d))) ≡ true)
      ↔ ((clean a ≡ true) × (clean b ≡ true) × (clean c ≡ true) × (clean d ≡ true))
clean-seq_four_iff a b c d =
    ground (arith, clean-append a (b ++ (c ++ d)), clean-append b (c ++ d), clean-append c d)

pub clean-seq_five_iff :
    (a b c d e : Report)
    → (clean (a ++ (b ++ (c ++ (d ++ e)))) ≡ true) ↔ (
        (clean a ≡ true)
        × (clean b ≡ true)
        × (clean c ≡ true)
        × (clean d ≡ true)
        × (clean e ≡ true))
clean-seq_five_iff a b c d e = ground (
  arith,
  clean-append a (b ++ (c ++ (d ++ e))),
  clean-append b (c ++ (d ++ e)),
  clean-append c (d ++ e),
  clean-append d e,
)

-- The check of a field that may be left out.
pub optional_iff :
    (u : Unknown) (r : Report) {P : Type 0}
    → (clean r ≡ true) ↔ P
    → (clean (only_if (is_defined u) r) ≡ true) ↔ ((u ≡ undefined) ⊎ P)
optional_iff undefined r e = (λ h. inl refl, λ p. refl)
optional_iff (known v) r e = (λ h. inr (e.0 h), λ p. elim p [ inl absent ↦ cc | inr ok ↦ e.1 ok ])
optional_iff method r e = (λ h. inr (e.0 h), λ p. elim p [ inl absent ↦ cc | inr ok ↦ e.1 ok ])

-- A list whose elements are all of a form, or nothing.
abbrev pub ListForm : (Value → Type 0) → Unknown → Type 0
ListForm P u = (u ≡ undefined) ⊎ ((vs : Items) × (u ≡ known (array vs)) × All P (elements vs))

elements_of : (vs ws : Items) → known (array vs) ≡ known (array ws) → elements ws ≡ elements vs
elements_of vs ws e = let same : vs ≡ ws = ground arith in ap elements (sym same)

-- The check of a field that is a list if it is given.
pub ListForm-iff :
    (u : Unknown) (m : Message) (body : ℕ → Value → Report) (P : Value → Type 0)
    → ((i : ℕ) (v : Value) → (clean (body i v) ≡ true) ↔ P v)
    → (clean (
          only_if
            (is_defined u)
            (elim (as_array u) [ none ↦ err m | some vs ↦ for_each body 0 vs ]))
        ≡ true)
      ↔ ListForm P u
ListForm-iff undefined m body P each = (λ h. inl refl, λ p. refl)
ListForm-iff (known (array vs)) m body P each = (
  λ h. inr (vs, refl, for_each_sound body (λ i v. (each i v).0) 0 (elements vs) h),
  λ p. elim p [
    | inl e ↦ cc
    | inr (ws, e, all) ↦
        for_each_complete body (λ i v. (each i v).1) 0 (elements vs)
          (subst (All P) (elements_of vs ws e) all)
  ],
)
ListForm-iff _ m body P each = (λ h. cc, λ p. elim p [ inl e ↦ cc | inr (ws, e, all) ↦ cc ])

-- A test that reports an error if it fails.
pub reject_iff : (b : Bool) (m : Message) → (clean (only_if (not b) (err m)) ≡ true) ↔ (b ≡ true)
reject_iff b m = ground arith
