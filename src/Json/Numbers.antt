-- ===== src/Json/Numbers.antt =====
-- Numbers and what the code computes with them.
use dokkimi.Prelude.{ℕ, ◌+◌, ◌-◌, ◌*◌, Bool, true, false, eqb, if◌then◌else◌}
use dokkimi.Prelude.Int.{
  ℤ, pos, pos_part, neg_part, ◌+ℤ◌, ◌-ℤ◌, ◌*ℤ◌, ltb_ℤ, eqb_ℤ, floor_div, floor_mod,
}

-- `frac z p q` is z + (p + 1) / (p + q + 2), which is no integer.
pub data Number : Type 0 where
  int : ℤ → Number
  frac : ℤ → ℕ → ℕ → Number

-- `Number.isInteger(n)`.
abbrev pub is_integer : Number → Bool
is_integer (int z) = true
is_integer (frac z p q) = false

abbrev pub numer : Number → ℤ
numer (int z) = z
numer (frac z p q) = z *ℤ pos (p + q + 2) +ℤ pos (p + 1)

abbrev pub denom : Number → ℕ
denom (int z) = 1
denom (frac z p q) = p + q + 2

-- `a < b`.
abbrev pub is_less : Number → Number → Bool
is_less (int a) (int b) = ltb_ℤ a b
is_less a b = ltb_ℤ (numer a *ℤ pos (denom b)) (numer b *ℤ pos (denom a))

abbrev pub zero_number : Number
zero_number = int (pos 0)

-- `n === 0`.
abbrev pub is_zero : Number → Bool
is_zero (int z) = eqb_ℤ z (pos 0)
is_zero (frac z p q) = false

abbrev pub magnitude : ℤ → ℕ
magnitude z = pos_part z + neg_part z

-- `Math.floor((b - a) / s)` for a positive `s`, `Math.floor((b - a) / -s)` for a negative one.
abbrev pub floor_quotient : Number → Number → Number → ℤ
floor_quotient (int b) (int a) (int s) = floor_div (b -ℤ a) (magnitude s)
floor_quotient b a s =
    floor_div ((numer b *ℤ pos (denom a) -ℤ numer a *ℤ pos (denom b)) *ℤ pos (denom s))
      (denom a * denom b * magnitude (numer s))

-- n / d as a number, for 0 < d.
abbrev pub of_ratio : ℤ → ℕ → Number
of_ratio n d =
    let r = floor_mod n d in
    if eqb r 0 then int (floor_div n d) else frac (floor_div n d) (r - 1) (d - r - 1)

-- `b - a + 1`.
abbrev pub span : Number → Number → Number
span (int b) (int a) = int (b -ℤ a +ℤ pos 1)
span b a =
    of_ratio (numer b *ℤ pos (denom a) -ℤ numer a *ℤ pos (denom b) +ℤ pos (denom a * denom b))
      (denom a * denom b)
