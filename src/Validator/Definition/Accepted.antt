-- ===== src/Validator/Definition/Accepted.antt =====
-- What an accepted definition is.
use dokkimi.Prelude.{
  ◌≡◌, refl, ℕ, suc, String, Bool, true, false, Option, none, some, List, [], ◌∷◌, ◌++◌, arith, All,
  length, member, eqb, ◌==◌, some_of, not, if◌then◌else◌,
}
use dokkimi.Json.{Value, Unknown, get, as_string, as_array, is_defined}
use dokkimi.Report.{Report, clean, only_if, warn, text}
use dokkimi.Report.Written.{written-some}
use dokkimi.Report.Clean.{clean-append, clean-unknown_then, clean-seq_three_iff, clean-seq_four_iff}
use dokkimi.Validator.Screenshots.Distinct.{Distinct}
use dokkimi.Validator.Items.{validate_item}
use dokkimi.Validator.Items.Accepted.{ItemForm, validate_item_iff}
use dokkimi.Validator.Refs.Variables.{validate_variables_field}
use dokkimi.Validator.Refs.Variables.Laws.{VariablesForm, validate_variables_field_iff}
use dokkimi.Validator.Refs.ItemRefs.{ResolvedItem, resolve_refs}
use dokkimi.Validator.Refs.ItemRefs.Laws.{resolve_refs_settled}
use dokkimi.Validator.Keys.Items.{valid_definition_keys}
use dokkimi.Validator.Definition.{
  after, has_label, validate_optional_tests, check_duplicate, add_name, validate_items,
  validate_content, validate_parts, validate_definition, validate_definition_name, validate_config,
}

-- The names of the items that have a text as name.
with_name : Option String → List String → List String
with_name none ns = ns
with_name (some n) ns = n ∷ ns

unfoldable pub item_names : List ResolvedItem → List String
unfolding with_name
item_names [] = []
item_names (x ∷ xs) = with_name (as_string (get x.item "name")) (item_names xs)

abbrev New : List String → String → Type 0
New seen n = member n seen ≡ false

New-more :
    (name : String) (seen ns : List String)
    → All (New (name ∷ seen)) ns
    → All (λ (m : String). (name == m) ≡ false) ns × All (New seen) ns
unfolding member
New-more name seen [] h = (tt, tt)
New-more name seen (n ∷ ns) (p, h) =
    let (a, b) = New-more name seen ns h in ((ground arith, a), (ground arith, b))

names_step :
    (name : Option String) (seen : List String) (i : ℕ) (ns : List String)
    → clean (check_duplicate seen i name) ≡ true
    → All (New (add_name seen name)) ns
    → Distinct ns
    → All (New seen) (with_name name ns) × Distinct (with_name name ns)
unfolding check_duplicate add_name with_name
names_step none seen i ns c h d = (h, d)
names_step (some name) seen i ns c h d =
    let (apart, rest) = New-more name seen ns h in ((ground arith, rest), (apart, d))

pub after-some :
    (o : Option Report) (f : Report → Report) (r : Report)
    → after o f ≡ some r
    → (t : Report) × (o ≡ some t) × (r ≡ f t)
unfolding after
after-some none f r h = cc
after-some (some t) f r h = (t, refl, ground arith)

else-some :
    (b : Bool) (o : Option Report) (r : Report) → (if b then none else o) ≡ some r → o ≡ some r
else-some true o r h = cc
else-some false o r h = h

module _ (is_regex : String → Bool) (absolute : String → String)
    (resolve : String → String → String) (exists : String → Bool)
    (read : String → Option Unknown) where
  items_sound :
      (seen : List String) (i : ℕ) (xs : List ResolvedItem)
      → clean (validate_items is_regex absolute resolve exists read seen i xs) ≡ true
      → All (λ (x : ResolvedItem). ItemForm is_regex exists resolve x.item x.source_file) xs
        × All (New seen) (item_names xs)
        × Distinct (item_names xs)
  unfolding validate_items item_names
  items_sound seen i [] h = (tt, tt, tt)
  items_sound seen i (x ∷ xs) h =
      let name = as_string (get x.item "name") in
      let parts =
        clean-seq_three_iff (check_duplicate seen i name)
          (validate_item is_regex exists resolve x.item i x.source_file)
          (validate_items is_regex absolute resolve exists read (add_name seen name) (suc i) xs) in
      let (a, b, c) = parts.0 h in
      let (forms, fresh, apart) = items_sound (add_name seen name) (suc i) xs c in
      let (k, l) = names_step name seen i (item_names xs) a fresh apart in
      (((validate_item_iff is_regex exists resolve x.item i x.source_file).0 b, forms), k, l)

  -- An accepted definition: a list of items that all resolve to items of the form of their type, with
  -- different names, and variables that resolve to words.
  pub record IsDefinition (parsed : Value) (file_path : String) : Type 0 where
    pub items : List Value
    pub listed : as_array (get parsed "items") ≡ some items
    pub resolved :
        length (resolve_refs absolute resolve exists read items file_path).1 ≡ length items
    pub forms :
        All
          (λ (x : ResolvedItem). ItemForm is_regex exists resolve x.item x.source_file)
          (resolve_refs absolute resolve exists read items file_path).1
    pub names : Distinct (item_names (resolve_refs absolute resolve exists read items file_path).1)
    pub variables : VariablesForm absolute resolve exists read file_path (get parsed "variables")

  settled_length :
      (items : List Value) (file_path : String)
      → clean (resolve_refs absolute resolve exists read items file_path).0 ≡ true
      → length (resolve_refs absolute resolve exists read items file_path).1 ≡ length items
  settled_length items file_path h =
      let all = resolve_refs_settled absolute resolve exists read items file_path in
      ground (arith, all.0)

  content_sound :
      (parsed : Value) (items : List Value) (file_path : String)
      → as_array (get parsed "items") ≡ some items
      → clean (validate_content is_regex absolute resolve exists read parsed items file_path) ≡ true
      → IsDefinition parsed file_path
  unfolding validate_content
  content_sound parsed items file_path e h =
      let found = resolve_refs absolute resolve exists read items file_path in
      let checks = validate_items is_regex absolute resolve exists read [] 0 found.1 in
      let vars =
        validate_variables_field absolute resolve exists read (get parsed "variables")
          (text "definition" ∷ []) file_path in
      let (w, a, b, c) =
        (clean-seq_four_iff
            (only_if (eqb (length items) 0)
              (warn (text "\"items\" is empty — definition has no services or databases" ∷ [])))
            found.0 checks vars).0
          h in
      let (forms, fresh, apart) = items_sound [] 0 found.1 b in
      record {
        items = items;
        listed = e;
        resolved = settled_length items file_path a;
        forms = forms;
        names = apart;
        variables =
            (validate_variables_field_iff absolute resolve exists read (get parsed "variables")
                (text "definition" ∷ []) file_path).0
              c;
      }

  parts_sound :
      (parsed : Value) (o : Option (List Value)) (file_path : String) (r : Report)
      → as_array (get parsed "items") ≡ o
      → validate_parts is_regex absolute resolve exists read parsed file_path o ≡ some r
      → clean r ≡ true
      → IsDefinition parsed file_path
  unfolding validate_parts
  parts_sound parsed none file_path r e p c = absurd (ground arith)
  parts_sound parsed (some items) file_path r e p c =
      let found = resolve_refs absolute resolve exists read items file_path in
      let checks = λ (tests : Report).
        validate_content is_regex absolute resolve exists read parsed items file_path
        ++ (tests
            ++ only_if (is_defined (get parsed "config"))
                (validate_config (get parsed "config"))) in
      let result =
        after
          (validate_optional_tests is_regex absolute resolve exists read (get parsed "tests")
            file_path)
          checks in
      let returned =
        else-some (some_of (λ (x : ResolvedItem). not (has_label x.item)) found.1) result r p in
      let (tests, q, shape) = after-some _ checks r returned in
      let both =
        clean-append (validate_content is_regex absolute resolve exists read parsed items file_path)
          (tests
            ++ only_if (is_defined (get parsed "config"))
                (validate_config (get parsed "config"))) in
      content_sound parsed items file_path e (ground arith)

  -- For every test of regular expressions and whatever the files hold, a definition whose check
  -- returns a report without errors has a list of items that all resolve, to items that have the form
  -- of their type and names of which no two are the same, and its variables resolve to keys that are
  -- words.
  pub validate_definition_sound :
      (parsed : Value) (file_path : String) (r : Report)
      → validate_definition is_regex absolute resolve exists read parsed file_path ≡ some r
      → clean r ≡ true
      → IsDefinition parsed file_path
  unfolding validate_definition
  validate_definition_sound parsed file_path r p c =
      let returned = written-some _ r p in
      let (parts, q, shape) = after-some _ _ r returned in
      let name = validate_definition_name (get parsed "name") in
      let both = clean-append name parts in
      let keys =
        clean-unknown_then parsed valid_definition_keys (text "definition" ∷ []) (name ++ parts) in
      parts_sound parsed (as_array (get parsed "items")) file_path parts refl q (ground arith)
