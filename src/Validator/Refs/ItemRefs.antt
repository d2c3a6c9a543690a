-- ===== src/Validator/Refs/ItemRefs.antt =====
-- shared/definition-validator/validate-refs.ts: `resolveRefs`, with `getByDotPath` and
-- `expandRefSpreads`. The parameters and the fuel are those of Refs/Variables.
pub mod Laws
use dokkimi.Prelude.{
  ℕ, zero, suc, String, Bool, true, false, not, Option, none, some, List, [], ◌∷◌, ◌++◌, ltb, eqb,
  length, member, if◌then◌else◌,
}
use dokkimi.Prelude.Text.{is_empty, strip_prefix}
use dokkimi.Json.{
  Value, null, string, array, object, Fields, end, field, Unknown, undefined, known, method, get,
  elements, items_of, is_defined, as_object, as_array,
}
use dokkimi.Json.Merge.{merge, without, spread}
use dokkimi.Report.{Report, Message, text, quoted, says, at, err, pass, ◌>>◌}
use dokkimi.Validator.Keys.{max_ref_depth}
use dokkimi.Validator.Refs.Variables.{ref_list}
use Prim.Native.Char.{code}
use Prim.Native.String

pub record ResolvedItem : Type 0 where
  pub item : Value
  pub source_file : String

-- `s.split('.')`.
split_dots : String → String × List String
split_dots String.[] = ("", [])
split_dots (String.◌∷◌ c s) =
    let rest = split_dots s in
    if eqb (code c) b'.' then ("", rest.0 ∷ rest.1) else (String.◌∷◌ c rest.0, rest.1)

follow : Unknown → List String → Unknown
follow cur [] = cur
follow cur (seg ∷ segs) = elim (as_object cur) [
  | none ↦ follow undefined segs
  | some v ↦ follow (get v seg) segs
]

unfoldable pub get_by_dot_path : Value → String → Unknown
unfolding split_dots follow
get_by_dot_path obj dot_path =
    let parts = split_dots dot_path in follow (known obj) (parts.0 ∷ parts.1)

-- What an element of an overriding list stands for: `...$ref.path` for the list at that path.
spread_element : Fields → Value → List Value
spread_element ref_content (string s) = elim (strip_prefix "...$ref." s) [
  | none ↦ string s ∷ []
  | some path ↦
      if is_empty path
      then []
      else elim (as_array (get_by_dot_path (object ref_content) path)) [ none ↦ [] | some vs ↦ vs ]
]
spread_element ref_content v = v ∷ []

unfoldable pub expand_ref_spreads : List Value → Fields → List Value
unfolding spread_element
expand_ref_spreads [] ref_content = []
expand_ref_spreads (el ∷ els) ref_content =
    spread_element ref_content el ++ expand_ref_spreads els ref_content

-- The overrides, with the lists among them expanded.
unfoldable pub expand_overrides : Fields → Fields → Fields
unfolding expand_ref_spreads
expand_overrides ref_content end = end
expand_overrides ref_content (field k (array vs) fs) =
    field k (array (items_of (expand_ref_spreads (elements vs) ref_content)))
      (expand_overrides ref_content fs)
expand_overrides ref_content (field k v fs) = field k v (expand_overrides ref_content fs)

-- `lastRefPath || defFilePath`.
source_of : Option String → String → String
source_of none def = def
source_of (some p) def = if is_empty p then def else p

-- The fields of a referenced file, and the file they come from.
abbrev pub Content : Type 0
Content = Fields × String

-- What is merged so far, and `lastRefPath`; `none` after an error.
abbrev pub Merged : Type 0
Merged = Option (Fields × Option String)

unfoldable pub with_content : Option Content → Merged → Merged
with_content none merged = none
with_content (some c) none = none
with_content (some (new, p)) (some (fs, last)) = some (merge fs new, some p)

unfoldable pub merged_item : Fields → String → Merged → Option ResolvedItem
unfolding expand_overrides source_of
merged_item item source none = none
merged_item item source (some (content, last)) = some (record {
  item = object (merge content (expand_overrides content (without "$ref" item)));
  source_file = source_of last source;
})

-- The fields of the first resolved item, if there is one.
unfoldable pub first_content : Report × List ResolvedItem → Report × Option Content
first_content (r, []) = (r, none)
first_content (r, x ∷ xs) = (r, some (spread x.item, x.source_file))

-- The file's own fields, unless it has a reference itself.
unfoldable pub ref_fields : Value → Fields
ref_fields (object fs) = fs
ref_fields _ = end

unfoldable pub push_resolved :
    Report × Option ResolvedItem → Report × List ResolvedItem → Report × List ResolvedItem
push_resolved (r, none) (s, xs) = (r >> s, xs)
push_resolved (r, some x) (s, xs) = (r >> s, x ∷ xs)

module _ (absolute : String → String) (resolve : String → String → String) (exists : String → Bool)
    (read : String → Option Unknown) where
  -- `resolveRefs` with the visited paths, the file and the items.
  abbrev pub Resolver : Type 0
  Resolver = List String → String → List Value → Report × List ResolvedItem

  abbrev pub unparsed : ℕ → String → Report
  unparsed i s =
      err (at [] "items" i ++ text ": $ref \"" ∷ quoted s ∷ text "\" could not be parsed" ∷ [])

  unfoldable pub item_content :
      Resolver → List String → ℕ → String → String → Option Unknown → Report × Option Content
  unfolding first_content
  item_content rec visited i s p none = (unparsed i s, none)
  item_content rec visited i s p (some undefined) = (unparsed i s, none)
  item_content rec visited i s p (some (known null)) = (unparsed i s, none)
  item_content rec visited i s p (some (known v)) =
      if is_defined (get v "$ref")
      then first_content (rec (p ∷ visited) p (v ∷ []))
      else (pass, some (spread v, p))
  item_content rec visited i s p (some method) = (pass, some (end, p))

  unfoldable pub item_ref : Resolver → List String → String → ℕ → Value → Report × Option Content
  unfolding item_content
  item_ref rec visited source i (string s) =
      let p = resolve source s in
      if member p visited
      then (
        err (
            at [] "items" i
            ++ text ": circular $ref detected — \""
              ∷ quoted s
              ∷ text "\" already in resolution chain"
              ∷ []),
        none,
      )
      else if not (exists p)
      then (
        err (
            at [] "items" i
            ++ text ": $ref \""
              ∷ quoted s
              ∷ text "\" not found (resolved to "
              ∷ quoted p
              ∷ text ")"
              ∷ []),
        none,
      )
      else item_content rec visited i s p (read p)
  item_ref rec visited source i _ =
      (err (at [] "items" i ++ text ": $ref array entries must be strings" ∷ []), none)

  unfoldable pub item_refs :
      Resolver → List String → String → ℕ → List Value → Merged → Report × Merged
  unfolding item_ref with_content
  item_refs rec visited source i [] merged = (pass, merged)
  item_refs rec visited source i (ref ∷ refs) merged =
      let o = item_ref rec visited source i ref in
      let rest = item_refs rec visited source i refs (with_content o.1 merged) in
      (o.0 >> rest.0, rest.1)

  -- An item and its references, if it has any.
  unfoldable pub referenced :
      Resolver
      → List String
      → String
      → ℕ
      → Value
      → Option (List Value)
      → Report × Option ResolvedItem
  unfolding item_refs merged_item
  referenced rec visited source i item none =
      (pass, some (record { item = item; source_file = source }))
  referenced rec visited source i item (some refs) =
      let o = item_refs rec visited source i refs (some (end, none)) in
      (o.0, merged_item (ref_fields item) source o.1)

  -- One round of the loop over the items.
  unfoldable pub resolve_item :
      Resolver → List String → String → ℕ → Value → Report × Option ResolvedItem
  unfolding referenced
  resolve_item rec visited source i (object fs) =
      referenced rec visited source i (object fs) (ref_list (get (object fs) "$ref"))
  resolve_item rec visited source i (array vs) =
      referenced rec visited source i (array vs) (ref_list (get (array vs) "$ref"))
  resolve_item rec visited source i _ =
      (err (at [] "items" i ++ text ": must be an object" ∷ []), none)

  unfoldable pub resolve_items :
      Resolver → List String → String → ℕ → List Value → Report × List ResolvedItem
  unfolding resolve_item push_resolved
  resolve_items rec visited source i [] = (pass, [])
  resolve_items rec visited source i (v ∷ vs) =
      push_resolved (resolve_item rec visited source i v)
        (resolve_items rec visited source (suc i) vs)

  unfoldable pub refs_from : ℕ → List String → String → List Value → Report × List ResolvedItem
  unfolding resolve_items
  refs_from zero visited source items = (pass, [])
  refs_from (suc fuel) visited source items =
      if ltb max_ref_depth (length visited)
      then (err (text "$ref chain exceeds maximum depth of 10" ∷ []), [])
      else resolve_items (refs_from fuel) visited source 0 items

  unfoldable pub resolve_refs : List Value → String → Report × List ResolvedItem
  unfolding refs_from
  resolve_refs items source = refs_from (suc max_ref_depth) (absolute source ∷ []) source items
