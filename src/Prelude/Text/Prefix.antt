-- ===== src/Prelude/Text/Prefix.antt =====
-- A prefix test against concatenation.

use Prim.Native.String.{String, [], ◌∷◌, ◌++◌}
use mathlib.Core.Path.{◌≡◌, refl}
use mathlib.Core.Logic.{◌↔◌}
use mathlib.Core.Bool.{true}
use mathlib.Core.Option.{Option, none, some}
use native.Mathlib.Omega.{arith}
use text.Mathlib.TextEquality.{Char-path}
use text.Mathlib.TextLemmas.{nil-append, cons-append}
use dokkimi.Prelude.Text.{strip_prefix, has_prefix, is_present}

pub strip_prefix_sound : (p s : String) {r : String} → strip_prefix p s ≡ some r → s ≡ p ++ r
unfolding strip_prefix
strip_prefix_sound [] s h = ground (arith, nil-append s)
strip_prefix_sound (c ∷ p) [] h = cc
strip_prefix_sound (c ∷ p) (d ∷ s) {r} h =
    ground (arith, Char-path c d, strip_prefix_sound p s {r = r}, cons-append c p r)

pub strip_prefix-append : (p r : String) → strip_prefix p (p ++ r) ≡ some r
unfolding strip_prefix
strip_prefix-append [] r = rw nil-append refl
strip_prefix-append (c ∷ p) r = rw cons-append (ground (arith, strip_prefix-append p r))

present→some {ℓ} : {A : Type ℓ} (o : Option A) → is_present o ≡ true → (a : A) × (o ≡ some a)
present→some none h = cc
present→some (some a) h = (a, refl)

-- `s` begins with `p`: it is `p` and a rest.
pub has_prefix_iff : (p s : String) → (has_prefix p s ≡ true) ↔ ((r : String) × (s ≡ p ++ r))
has_prefix_iff p s = (
  λ h. let (r, e) = present→some (strip_prefix p s) h in (r, strip_prefix_sound p s e),
  λ e. rw (e.1, strip_prefix-append p e.0),
)
