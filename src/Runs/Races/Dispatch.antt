-- ===== src/Runs/Races/Dispatch.antt =====
-- What the deployment of instances promises, without rows or callers: an instance is given to the
-- deployment while it is available, and then it is available no more.
use dokkimi.Prelude.{
  ℕ, ◌≡◌, Bool, true, false, List, [], ◌∷◌, eqb, subst, All, All-imp, sym, Bool-cases, eqb_iff, inl,
  inr,
}

pub record Board : Type 0 where
  pub available : ℕ → Bool
  pub dispatched : List ℕ

-- Nothing becomes available.
abbrev pub Shrinks : Board → Board → Type 0
Shrinks b c = (x : ℕ) → c.available x ≡ true → b.available x ≡ true

pub data Dispatch : Board → Board → Type 0 where
  dispatch :
      {b c : Board} (id : ℕ)
      → b.available id ≡ true
      → c.available id ≡ false
      → Shrinks b c
      → c.dispatched ≡ id ∷ b.dispatched
      → Dispatch b c
  quiet : {b c : Board} → Shrinks b c → c.dispatched ≡ b.dispatched → Dispatch b c

pub data Dispatches : Board → Board → Type 0 where
  none_yet : {b : Board} → Dispatches b b
  more : {b c d : Board} → Dispatches b c → Dispatch c d → Dispatches b d

-- No id twice.
abbrev pub DistinctIds : List ℕ → Type 0
DistinctIds [] = Unit
DistinctIds (x ∷ xs) = All (λ (y : ℕ). eqb x y ≡ false) xs × DistinctIds xs

-- No instance is dispatched twice, and none that was dispatched is available.
abbrev pub Once : Board → Type 0
Once b = DistinctIds b.dispatched × All (λ (x : ℕ). b.available x ≡ false) b.dispatched

gone_at : (b c : Board) (x : ℕ) → Shrinks b c → b.available x ≡ false → c.available x ≡ false
gone_at b c x shrinks p = elim (Bool-cases (c.available x)) [
  | inl e ↦ let there = shrinks x e in cc
  | inr e ↦ e
]

apart_of :
    (b : Board) (id : ℕ) (xs : List ℕ)
    → b.available id ≡ true
    → All (λ (x : ℕ). b.available x ≡ false) xs
    → All (λ (y : ℕ). eqb id y ≡ false) xs
apart_of b id [] av h = tt
apart_of b id (x ∷ xs) av (p, h) = (
  elim (Bool-cases (eqb id x)) [
    | inl e ↦
        let same : id ≡ x = (eqb_iff id x).0 e in
        let there = subst (λ y. b.available y ≡ true) same av in cc
    | inr e ↦ e
  ],
  apart_of b id xs av h,
)

still_gone :
    (b c : Board) (xs : List ℕ)
    → Shrinks b c
    → All (λ (x : ℕ). b.available x ≡ false) xs
    → All (λ (x : ℕ). c.available x ≡ false) xs
still_gone b c xs shrinks h = All-imp (λ x p. gone_at b c x shrinks p) xs h

-- A dispatch keeps the board in order.
pub Dispatch-Once : {b c : Board} → Dispatch b c → Once b → Once c
Dispatch-Once {b} {c} (dispatch id av gone shrinks e) (apart, h) = (
  subst DistinctIds (sym e) (apart_of b id b.dispatched av h, apart),
  subst (All (λ (x : ℕ). c.available x ≡ false)) (sym e)
      (gone, still_gone b c b.dispatched shrinks h),
)
Dispatch-Once {b} {c} (quiet shrinks e) (apart, h) = (
  subst DistinctIds (sym e) apart,
  subst (All (λ (x : ℕ). c.available x ≡ false)) (sym e) (still_gone b c b.dispatched shrinks h),
)

pub Dispatches-Once : {b c : Board} → Dispatches b c → Once b → Once c
Dispatches-Once none_yet h = h
Dispatches-Once (more ds d) h = Dispatch-Once d (Dispatches-Once ds h)
