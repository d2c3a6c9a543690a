-- ===== src/Json/Merge.antt =====
-- Objects put together: `o[key] = value`, `{...a, ...b}` and `const {key, ...rest} = o`. A key that
-- is there keeps its place and a new one comes last; the order that JavaScript gives to keys that
-- look like an array's index, and the key `__proto__`, are not modelled.
use dokkimi.Prelude.{ℕ, suc, String, ◌==◌, List, [], ◌∷◌, if◌then◌else◌}
use dokkimi.Json.{Value, string, array, object, Fields, end, field, elements, decimal}

unfoldable pub set_field : Fields → String → Value → Fields
set_field end key value = field key value end
set_field (field k v fs) key value =
    let rest = set_field fs key value in if k == key then field k value fs else field k v rest

unfoldable pub merge : Fields → Fields → Fields
unfolding set_field
merge fs end = fs
merge fs (field k v more) = merge (set_field fs k v) more

unfoldable pub without : String → Fields → Fields
without key end = end
without key (field k v fs) = let rest = without key fs in if k == key then rest else field k v rest

element_fields : ℕ → List Value → Fields
element_fields i [] = end
element_fields i (v ∷ vs) = field (decimal i) v (element_fields (suc i) vs)

char_fields : ℕ → String → Fields
char_fields i String.[] = end
char_fields i (String.◌∷◌ c s) =
    field (decimal i) (string (String.◌∷◌ c String.[])) (char_fields (suc i) s)

-- What `...v` gives to an object. (A text's characters, for those of one UTF-16 unit.)
unfoldable pub spread : Value → Fields
unfolding element_fields char_fields
spread (object fs) = fs
spread (array vs) = element_fields 0 (elements vs)
spread (string s) = char_fields 0 s
spread _ = end
