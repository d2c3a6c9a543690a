-- ===== src/Report/Accepts.antt =====
-- What a report accepts: its absence of errors as a condition, put together statement by statement.
use dokkimi.Prelude.{
  ℕ, String, ◌≡◌, ◌↔◌, ◌⊎◌, inl, inr, refl, Bool, true, false, not, ◌&&◌, none, some, List, ◌++◌,
  arith, if◌then◌else◌,
}
use dokkimi.Json.{Value, Unknown, undefined, known, method, is_defined, as_array}
use dokkimi.Report.{Report, Message, clean, err, warn, pass, only_if, for_each, check_unknown_keys}
use dokkimi.Report.Clean.{
  clean-append, clean-seq_iff, clean-check_unknown_keys, optional_iff, reject_iff, ListForm,
  ListForm-iff,
}

-- The report has no error exactly if the condition holds.
pub record Accepts (r : Report) (P : Type 0) : Type 0 where
  pub iff : (clean r ≡ true) ↔ P

-- Two conditions, nested to the right.
infixr 40 ◌and◌
abbrev pub ◌and◌ : Type 0 → Type 0 → Type 0
P and Q = P × Q

pub accepts_seq :
    (a b : Report) {P Q : Type 0} → Accepts a P → Accepts b Q → Accepts (a ++ b) (P and Q)
accepts_seq a b p q =
    let both = clean-seq_iff a b in
    record {
      iff = (
        λ h. (p.iff.0 (both.0 h).0, q.iff.0 (both.0 h).1),
        λ k. both.1 (p.iff.1 k.0, q.iff.1 k.1),
      );
    }

-- A statement that reports no error on its own.
pub accepts_quiet : (a b : Report) {P : Type 0} → clean a ≡ true → Accepts b P → Accepts (a ++ b) P
accepts_quiet a b h p = let ok = p.iff in record { iff = ground (arith, clean-append a b) }

pub accepts_keys :
    (obj : Value) (valid_keys : List String) (ctx : Message) (r : Report) {P : Type 0}
    → Accepts r P
    → Accepts (check_unknown_keys obj valid_keys ctx ++ r) P
accepts_keys obj valid_keys ctx r p =
    accepts_quiet (check_unknown_keys obj valid_keys ctx) r
      (clean-check_unknown_keys obj valid_keys ctx) p

pub accepts_warn :
    (b : Bool) (m : Message) (r : Report) {P : Type 0}
    → Accepts r P
    → Accepts (only_if b (warn m) ++ r) P
accepts_warn true m r p = record { iff = p.iff }
accepts_warn false m r p = record { iff = p.iff }

pub accepts_optional :
    (u : Unknown) (r : Report) {P : Type 0}
    → Accepts r P
    → Accepts (only_if (is_defined u) r) ((u ≡ undefined) ⊎ P)
accepts_optional u r p = record { iff = optional_iff u r p.iff }

-- A test that reports an error if it fails.
pub accepts_test :
    (b : Bool) (m : Message) {P : Type 0} → (b ≡ true) ↔ P → Accepts (only_if (not b) (err m)) P
accepts_test b m e = let r = reject_iff b m in record { iff = ground arith }

-- The same for a field that may be left out.
pub accepts_optional_test :
    (u : Unknown) (b : Bool) (m : Message) {P : Type 0}
    → (b ≡ true) ↔ P
    → Accepts (only_if (is_defined u && not b) (err m)) ((u ≡ undefined) ⊎ P)
accepts_optional_test undefined b m e = record { iff = (λ h. inl refl, λ p. refl) }
accepts_optional_test (known v) b m e = record {
  iff = (
    λ h. inr (e.0 (ground arith)),
    λ p. elim p [ inl absent ↦ cc | inr ok ↦ let k = e.1 ok in ground arith ],
  );
}
accepts_optional_test method b m e = record {
  iff = (
    λ h. inr (e.0 (ground arith)),
    λ p. elim p [ inl absent ↦ cc | inr ok ↦ let k = e.1 ok in ground arith ],
  );
}

pub accepts_list :
    (u : Unknown) (m : Message) (body : ℕ → Value → Report) (P : Value → Type 0)
    → ((i : ℕ) (v : Value) → Accepts (body i v) (P v))
    → Accepts
        (only_if (is_defined u) (elim (as_array u) [ none ↦ err m | some vs ↦ for_each body 0 vs ]))
        (ListForm P u)
accepts_list u m body P each = record { iff = ListForm-iff u m body P (λ i v. (each i v).iff) }

-- Two fields that exclude each other.
pub accepts_either :
    (u v : Unknown) (m : Message)
    → Accepts (only_if (is_defined u && is_defined v) (err m)) ((u ≡ undefined) ⊎ (v ≡ undefined))
accepts_either undefined v m = record { iff = (λ h. inl refl, λ p. refl) }
accepts_either u undefined m = record { iff = (λ h. inr refl, λ p. ground arith) }
accepts_either _ _ m = record { iff = (λ h. cc, λ p. elim p [ inl e ↦ cc | inr e ↦ cc ]) }

pub accepts_choice :
    (b : Bool) (r s : Report) {P Q : Type 0}
    → Accepts r P
    → Accepts s Q
    → Accepts (if b then r else s) (if b then P else Q)
accepts_choice true r s p q = p
accepts_choice false r s p q = q

-- A test that reports an error and leaves, and what follows it.
pub accepts_guard :
    (b : Bool) (m : Message) (r : Report) {P Q : Type 0}
    → (b ≡ true) ↔ P
    → Accepts r Q
    → Accepts (if not b then err m else r) (P and Q)
accepts_guard true m r e q = record { iff = (λ h. (e.0 refl, q.iff.0 h), λ p. q.iff.1 p.1) }
accepts_guard false m r e q = record { iff = (λ h. cc, λ p. cc (e.1 p.0)) }

pub accepts_pass : Accepts pass Unit
accepts_pass = record { iff = (λ h. tt, λ p. refl) }
