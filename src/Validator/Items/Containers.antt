-- ===== src/Validator/Items/Containers.antt =====
-- Which commands, files and environments of services and workers are accepted.
use dokkimi.Prelude.{
  ℕ, ◌≡◌, ◌↔◌, inl, inr, refl, String, Bool, true, ◌||◌, not, Option, none, some, [], ◌∷◌, ◌++◌,
  arith, subst,
}
use dokkimi.Prelude.Text.{has_prefix, is_present}
use dokkimi.Json.{Value, string, array, object, Unknown, known, get, as_text, as_string}
use dokkimi.Json.Reads.{as_string-cases}
use dokkimi.Report.{Report, Message, clean, only_if, err, says, at, text}
use dokkimi.Report.Clean.{ListForm, ListForm-iff, reject_iff, clean-seq_iff, clean-seq_four_iff}
use dokkimi.Validator.Items.Parts.{
  validate_strings, validate_env, validate_env_entry, validate_mount_fields, validate_mount_file,
  validate_mount_files, with_text,
}
use dokkimi.Validator.Items.Kinds.{validate_container}

abbrev pub StringForm : Unknown → Type 0
StringForm u = (s : String) × (u ≡ known (string s))

abbrev pub EnvForm : Value → Type 0
EnvForm e = StringForm (get e "name") × StringForm (get e "value")

pub string_iff :
    (u : Unknown) (m : Message)
    → (clean (only_if (not (is_present (as_string u))) (err m)) ≡ true) ↔ StringForm u
string_iff u m = elim (as_string-cases u) [
  | inl e ↦ (λ h. absurd (ground arith), λ (s, p). absurd (ground arith))
  | inr (s, e) ↦ (λ h. (s, e), λ p. ground arith)
]

pub strings_iff :
    (name : String) (u : Unknown) (label : Message)
    → (clean (validate_strings name u label) ≡ true) ↔ ListForm (λ v. StringForm (known v)) u
unfolding validate_strings
strings_iff name u label =
    ListForm-iff u (label ++ text ": \"" ∷ text name ∷ text "\" must be an array of strings" ∷ [])
      (λ i v.
        only_if (not (is_present (as_string (known v))))
          (err (at (label ++ text ": " ∷ []) name i ++ text " must be a string" ∷ [])))
      (λ v. StringForm (known v))
      (λ i v.
        string_iff (known v) (at (label ++ text ": " ∷ []) name i ++ text " must be a string" ∷ []))

both_iff :
    (u w : Unknown) (m : Message)
    → (clean (only_if (not (is_present (as_string u)) || not (is_present (as_string w))) (err m))
        ≡ true)
      ↔ (StringForm u × StringForm w)
both_iff u w m = let a = string_iff u m in let b = string_iff w m in ground arith

pub env_iff :
    (u : Unknown) (label : Message) → (clean (validate_env u label) ≡ true) ↔ ListForm EnvForm u
unfolding validate_env validate_env_entry
env_iff u label =
    ListForm-iff u (says label ": \"env\" must be an array") (validate_env_entry label) EnvForm
      (λ i e.
        both_iff (get e "name") (get e "value")
          (at label ": env" i ++ text " must have \"name\" and \"value\" strings" ∷ []))

-- A text that is not empty, with a property of it.
abbrev pub TextForm : (String → Type 0) → Unknown → Type 0
TextForm P u = (s : String) × (as_text u ≡ some s) × P s

text_iff_of :
    (o : Option String) (m : Message) (check : String → Report) (P : String → Type 0)
    → ((s : String) → (clean (check s) ≡ true) ↔ P s)
    → (clean (elim o [ none ↦ err m | some s ↦ check s ]) ≡ true)
      ↔ ((s : String) × (o ≡ some s) × P s)
text_iff_of none m check P each = (λ h. cc, λ p. cc)
text_iff_of (some s) m check P each = (
  λ h. (s, refl, (each s).0 h),
  λ (t, e, p). let same : t ≡ s = ground arith in (each s).1 (subst P same p),
)

pub TextForm-iff :
    (u : Unknown) (m : Message) (check : String → Report) (P : String → Type 0)
    → ((s : String) → (clean (check s) ≡ true) ↔ P s)
    → (clean (with_text u (err m) check) ≡ true) ↔ TextForm P u
TextForm-iff u m check P each = text_iff_of (as_text u) m check P each

two_texts_iff :
    (u w : Unknown) (m n : Message) (c d : String → Report) (P Q : String → Type 0)
    → ((s : String) → (clean (c s) ≡ true) ↔ P s)
    → ((s : String) → (clean (d s) ≡ true) ↔ Q s)
    → (clean (with_text u (err m) c ++ with_text w (err n) d) ≡ true)
      ↔ (TextForm P u × TextForm Q w)
two_texts_iff u w m n c d P Q first second =
    let a = TextForm-iff u m c P first in
    let b = TextForm-iff w n d Q second in
    let both = clean-seq_iff (with_text u (err m) c) (with_text w (err n) d) in
    (λ h. (a.0 (both.0 h).0, b.0 (both.0 h).1), λ p. both.1 (a.1 p.0, b.1 p.1))

module _ (exists : String → Bool) (resolve : String → String → String) where
  -- A file that exists, mounted at an absolute path.
  abbrev pub MountFields : String → Value → Type 0
  MountFields from mf =
      TextForm (λ s. exists (resolve from s) ≡ true) (get mf "source")
      × TextForm (λ s. has_prefix "/" s ≡ true) (get mf "target")

  abbrev pub MountForm : String → Value → Type 0
  MountForm from (object fs) = MountFields from (object fs)
  MountForm from (array vs) = MountFields from (array vs)
  MountForm from _ = ⊥

  MountFields-iff :
      (mf : Value) (label : Message) (from : String) (i : ℕ)
      → (clean (validate_mount_fields exists resolve mf label from i) ≡ true) ↔ MountFields from mf
  unfolding validate_mount_fields
  MountFields-iff mf label from i =
      two_texts_iff (get mf "source") (get mf "target")
        (at label ": mountFiles" i ++ text " requires \"source\" (relative path to file)" ∷ [])
        (at label ": mountFiles" i ++ text " requires \"target\" (absolute path in container)" ∷ [])
        _ _ (λ s. exists (resolve from s) ≡ true) (λ s. has_prefix "/" s ≡ true)
        (λ s. reject_iff (exists (resolve from s)) _) (λ s. reject_iff (has_prefix "/" s) _)

  mount_iff :
      (label : Message) (from : String) (i : ℕ) (v : Value)
      → (clean (validate_mount_file exists resolve label from i v) ≡ true) ↔ MountForm from v
  unfolding validate_mount_file
  mount_iff label from i (object fs) = MountFields-iff (object fs) label from i
  mount_iff label from i (array vs) = MountFields-iff (array vs) label from i
  mount_iff label from i _ = (λ h. cc, λ p. elim p [ ])

  pub record IsContainer (item : Value) (from : String) : Type 0 where
    pub command : ListForm (λ v. StringForm (known v)) (get item "command")
    pub entrypoint : ListForm (λ v. StringForm (known v)) (get item "entrypoint")
    pub mounts : ListForm (MountForm from) (get item "mountFiles")
    pub env : ListForm EnvForm (get item "env")

  pub validate_container_iff :
      (item : Value) (label : Message) (from : String)
      → (clean (validate_container exists resolve item label from) ≡ true) ↔ IsContainer item from
  unfolding validate_container validate_mount_files
  validate_container_iff item label from =
      let a = strings_iff "command" (get item "command") label in
      let b = strings_iff "entrypoint" (get item "entrypoint") label in
      let c =
        ListForm-iff (get item "mountFiles") (says label ": \"mountFiles\" must be an array")
          (validate_mount_file exists resolve label from) (MountForm from) (mount_iff label from) in
      let d = env_iff (get item "env") label in
      let parts =
        clean-seq_four_iff (validate_strings "command" (get item "command") label)
          (validate_strings "entrypoint" (get item "entrypoint") label)
          (validate_mount_files exists resolve (get item "mountFiles") label from)
          (validate_env (get item "env") label) in
      (
        λ h.
            let (p, q, r, s) = parts.0 h in
            record { command = a.0 p; entrypoint = b.0 q; mounts = c.0 r; env = d.0 s },
        λ k. parts.1 (a.1 k.command, b.1 k.entrypoint, c.1 k.mounts, d.1 k.env),
      )
