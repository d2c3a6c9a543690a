-- ===== src/Json/Depth.antt =====
-- What is read out of a value is less deep than the value.
use dokkimi.Prelude.{◌≤◌, ◌<◌, ◌≡◌, String, arith, All, All-imp}
use dokkimi.Json.{
  Value, array, object, Items, nil, cons, Fields, end, field, known, elements, own, get, depth,
  depth_items, depth_fields, depth_unknown,
}

pub depth-own : (fs : Fields) (key : String) → depth_unknown (own fs key) ≤ depth_fields fs
unfolding own depth
depth-own end key = omega arith
depth-own (field k v fs) key = ground (arith, depth-own fs key)

-- A property of a plain object.
pub depth-get :
    (fs : Fields) (key : String) → depth_unknown (get (object fs) key) < depth (object fs)
unfolding get depth
depth-get fs key = omega (arith, depth-own fs key)

depth-elements : (vs : Items) → All (λ v. depth v ≤ depth_items vs) (elements vs)
unfolding depth
depth-elements nil = tt
depth-elements (cons v vs) =
    (omega arith, All-imp (λ x h. omega arith) (elements vs) (depth-elements vs))

-- An element of an array.
pub depth-element : (vs : Items) → All (λ v. depth v < depth (array vs)) (elements vs)
unfolding depth
depth-element vs = All-imp (λ x h. omega arith) (elements vs) (depth-elements vs)

pub depth-found :
    (fs : Fields) (key : String) (v : Value)
    → get (object fs) key ≡ known v
    → depth v < depth (object fs)
depth-found fs key v e = rw e at (depth-get fs key)

-- The elements of an array that stands under a key.
pub depth-found_elements :
    (fs : Fields) (key : String) (vs : Items)
    → get (object fs) key ≡ known (array vs)
    → All (λ v. depth v < depth (object fs)) (elements vs)
depth-found_elements fs key vs e =
    let below = depth-found fs key (array vs) e in
    All-imp (λ x h. omega arith) (elements vs) (depth-element vs)
