-- ===== src/Json.antt =====
-- JavaScript values as the definition files give them: what `yaml.load` or `JSON.parse` returns,
-- and what the code observes of a value (`typeof`, truthiness, property reads, `Object.keys`).
-- A number is exact: an integer, or an integer and a proper fraction. NaN, the infinities and the
-- rounding of doubles are not modelled.
pub mod Numbers
pub mod Depth
pub mod Reads
pub mod Merge
use dokkimi.Prelude.{
  ℕ, zero, suc, ◌+◌, ◌-◌, ◌*◌, ◌/◌, ◌%◌, String, Bool, true, false, ◌&&◌, ◌||◌, not, Option, none,
  some, List, [], ◌∷◌, map, ◌==◌, if◌then◌else◌, ltb, leb, eqb, length, member, max,
}
use dokkimi.Prelude.Int.{ℤ, pos}
use dokkimi.Prelude.Text.{is_empty}
use Prim.Native.Char.{code}
use Prim.Native.String
use Numbers.{Number, int, is_integer, is_zero}

mutual
  pub data Value : Type 0 where
    null : Value
    boolean : Bool → Value
    number : Number → Value
    string : String → Value
    array : Items → Value
    object : Fields → Value

  pub data Items : Type 0 where
    nil : Items
    cons : Value → Items → Items

  pub data Fields : Type 0 where
    end : Fields
    field : String → Value → Fields → Fields

-- The `unknown` that a property read gives: nothing, a value of the file, or a method that every
-- array inherits (`a.keys` of an array is a function).
pub data Unknown : Type 0 where
  undefined : Unknown
  known : Value → Unknown
  method : Unknown

abbrev pub elements : Items → List Value
elements nil = []
elements (cons v vs) = v ∷ elements vs

abbrev pub items_of : List Value → Items
items_of [] = nil
items_of (v ∷ vs) = cons v (items_of vs)

abbrev pub entries : Fields → List (String × Value)
entries end = []
entries (field k v fs) = (k, v) ∷ entries fs

-- `o.key` of a plain object, by its own properties.
unfoldable pub own : Fields → String → Unknown
own end key = undefined
own (field k v fs) key = if k == key then known v else own fs key

digit : ℕ → String
digit d =
    if eqb d 0
    then "0"
    else if eqb d 1
    then "1"
    else if eqb d 2
    then "2"
    else if eqb d 3
    then "3"
    else if eqb d 4
    then "4"
    else if eqb d 5
    then "5"
    else if eqb d 6
    then "6"
    else if eqb d 7
    then "7"
    else if eqb d 8
    then "8"
    else "9"

decimal_from : ℕ → ℕ → String
decimal_from zero n = ""
decimal_from (suc f) n =
    let rest = decimal_from f (n / 10) in
    if ltb n 10 then digit n else String.◌++◌ rest (digit (n % 10))

-- An array's index as a property name.
unfoldable pub decimal : ℕ → String
unfolding digit decimal_from
decimal n = decimal_from (suc n) n

-- `String(i)`, read back: the index that a property name stands for.
digits_value : ℕ → String → Option ℕ
digits_value acc String.[] = some acc
digits_value acc (String.◌∷◌ c s) =
    if leb b'0' (code c) && leb (code c) b'9'
    then digits_value (acc * 10 + (code c - b'0')) s
    else none

array_index : String → Option ℕ
unfolding digits_value decimal
array_index key = elim (digits_value 0 key) [
  | none ↦ none
  | some i ↦ if decimal i == key then some i else none
]

element : List Value → ℕ → Unknown
element [] i = undefined
element (v ∷ vs) zero = known v
element (v ∷ vs) (suc i) = element vs i

-- The methods of `Array.prototype` and `Object.prototype`.
abbrev pub array_methods : List String
array_methods =
    "at" ∷ "concat" ∷ "copyWithin" ∷ "entries" ∷ "every" ∷ "fill" ∷ "filter" ∷ "find" ∷ "findIndex"
    ∷ "findLast" ∷ "findLastIndex" ∷ "flat" ∷ "flatMap" ∷ "forEach" ∷ "includes" ∷ "indexOf"
    ∷ "join" ∷ "keys" ∷ "lastIndexOf" ∷ "map" ∷ "pop" ∷ "push" ∷ "reduce" ∷ "reduceRight"
    ∷ "reverse" ∷ "shift" ∷ "slice" ∷ "some" ∷ "sort" ∷ "splice" ∷ "toLocaleString" ∷ "toReversed"
    ∷ "toSorted" ∷ "toSpliced" ∷ "toString" ∷ "unshift" ∷ "values" ∷ "with" ∷ "constructor"
    ∷ "hasOwnProperty" ∷ "isPrototypeOf" ∷ "propertyIsEnumerable" ∷ "valueOf" ∷ []

-- `v.key` of an array or a plain object. (The code reads fixed names, none of which a plain object
-- inherits.)
unfoldable pub get : Value → String → Unknown
unfolding own array_index element
get (object fs) key = own fs key
get (array vs) key = elim (array_index key) [
  | some i ↦ element (elements vs) i
  | none ↦
      if key == "length"
      then known (number (int (pos (length (elements vs)))))
      else if member key array_methods
      then method
      else undefined
]
get _ key = undefined

names : Fields → List String
names end = []
names (field k v fs) = k ∷ names fs

indices : ℕ → Items → List String
indices i nil = []
indices i (cons v vs) = decimal i ∷ indices (suc i) vs

-- `Object.keys(v)` of an array or a plain object.
unfoldable pub keys : Value → List String
unfolding names indices
keys (object fs) = names fs
keys (array vs) = indices 0 vs
keys _ = []

-- Whether `if (v)` takes its branch.
abbrev pub is_truthy : Value → Bool
is_truthy null = false
is_truthy (boolean b) = b
is_truthy (number n) = not (is_zero n)
is_truthy (string s) = not (is_empty s)
is_truthy (array vs) = true
is_truthy (object fs) = true

abbrev pub truthy : Unknown → Bool
truthy undefined = false
truthy (known v) = is_truthy v
truthy method = true

-- `u !== undefined`.
abbrev pub is_defined : Unknown → Bool
is_defined undefined = false
is_defined _ = true

-- `u && typeof u === 'object'`: an array or a plain object.
abbrev pub as_object : Unknown → Option Value
as_object (known (array vs)) = some (array vs)
as_object (known (object fs)) = some (object fs)
as_object _ = none

-- `u && typeof u === 'object' && !Array.isArray(u)`.
abbrev pub as_plain : Unknown → Option Value
as_plain (known (object fs)) = some (object fs)
as_plain _ = none

-- `Array.isArray(u)`.
abbrev pub as_array : Unknown → Option (List Value)
as_array (known (array vs)) = some (elements vs)
as_array _ = none

-- `typeof u === 'string'`.
abbrev pub as_string : Unknown → Option String
as_string (known (string s)) = some s
as_string _ = none

-- `typeof u === 'number'`.
abbrev pub as_number : Unknown → Option Number
as_number (known (number n)) = some n
as_number _ = none

-- `typeof u === 'number' && Number.isInteger(u)`.
abbrev pub as_integer : Unknown → Option ℤ
as_integer (known (number (int z))) = some z
as_integer _ = none

-- `u === 'text'`.
abbrev pub is_text : Unknown → String → Bool
is_text (known (string s)) t = s == t
is_text _ t = false

-- `list.includes(u)` for a list of strings.
unfoldable pub is_one_of : Unknown → List String → Bool
is_one_of (known (string s)) list = member s list
is_one_of _ list = false

-- `typeof u === 'string'` and not empty.
abbrev pub as_text : Unknown → Option String
as_text (known (string s)) = if is_empty s then none else some s
as_text _ = none

unfoldable mutual
  pub depth : Value → ℕ
  depth null = 0
  depth (boolean b) = 0
  depth (number n) = 0
  depth (string s) = 0
  depth (array vs) = suc (depth_items vs)
  depth (object fs) = suc (depth_fields fs)

  pub depth_items : Items → ℕ
  depth_items nil = 0
  depth_items (cons v vs) = max (depth v) (depth_items vs)

  pub depth_fields : Fields → ℕ
  depth_fields end = 0
  depth_fields (field k v fs) = max (depth v) (depth_fields fs)

abbrev pub depth_unknown : Unknown → ℕ
depth_unknown undefined = 0
depth_unknown (known v) = depth v
depth_unknown method = 0
