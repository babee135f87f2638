-- ===== src/Json/Laws.antt =====
-- Laws of dictionaries and of the conversions.
use mathlib.Core.Option
use agent_workflow_pack.Json.{
  Fields, Items, Value, arr, as_texts, bool, cons, end, eq_value, field, find, get, int, keys,
  lookup, nil, null, obj, of_list, put, text, to_list,
}
use agent_workflow_pack.Prelude.{
  Bool-cases, List, String, [], ap, arith, eq_iff, if-false, if◌then◌else◌, inl, inr, map, mem,
  refl, some, sym, true, ◌==◌, ◌||◌, ◌∙◌, ◌∷◌, ◌≡◌,
}

pub get-put :
    (d : Fields) (k j : String) (v : Value) → get (put k v d) j ≡ (if k == j then v else get d j)
get-put end k j v = refl
get-put (field i w d) k j v = ground (arith, eq_iff i k, eq_iff k j, eq_iff i j, get-put d k j v)

pub find-put :
    (d : Fields) (k j : String) (v : Value)
    → find (put k v d) j ≡ (if k == j then some v else find d j)
find-put end k j v = refl
find-put (field i w d) k j v = ground (arith, eq_iff i k, eq_iff k j, eq_iff i j, find-put d k j v)

pub to_list-of_list : (vs : List Value) → to_list (of_list vs) ≡ vs
to_list-of_list [] = refl
to_list-of_list (v ∷ vs) = ap (◌∷◌ v) (to_list-of_list vs)

pub of_list-to_list : (vs : Items) → of_list (to_list vs) ≡ vs
of_list-to_list nil = refl
of_list-to_list (cons v vs) = ap (cons v) (of_list-to_list vs)

pub as_texts-map : (ss : List String) → as_texts (map text ss) ≡ some ss
as_texts-map [] = refl
as_texts-map (s ∷ ss) = ap (Option.map (λ ts. s ∷ ts)) (as_texts-map ss)

pub get-find : (d : Fields) (k : String) (v : Value) → find d k ≡ some v → get d k ≡ v
get-find end k v h = cc
get-find (field j w d) k v h = ground (arith, get-find d k v)

pub keys-put :
    (d : Fields) (k j : String) (v : Value) → mem j (keys (put k v d)) ≡ (k == j || mem j (keys d))
keys-put end k j v = ground arith
keys-put (field i w d) k j v = ground (arith, eq_iff i k, eq_iff k j, eq_iff i j, keys-put d k j v)

-- What is equal to a text is that text.
pub eq_value-text : (v : Value) (s : String) → eq_value v (text s) ≡ true → v ≡ text s
unfolding eq_value
eq_value-text (text t) s h = ap text ((eq_iff t s).0 h)
eq_value-text null s h = cc
eq_value-text (bool b) s h = cc
eq_value-text (int n) s h = cc
eq_value-text (arr vs) s h = cc
eq_value-text (obj d) s h = cc

-- A key that is found is one of the keys.
pub lookup-mem {ℓ} :
    {A : Type ℓ} (m : List (String × A)) (id : String) (a : A)
    → lookup m id ≡ some a
    → mem id (map (λ (e : String × A). e.0) m) ≡ true
lookup-mem [] id a h = cc
lookup-mem ((j, b) ∷ m) id a h = elim (Bool-cases (j == id)) [
  | inl e ↦ ground (arith, e)
  | inr e ↦
      ground (arith, e, lookup-mem m id a (sym (if-false (j == id) (some b) (lookup m id) e) ∙ h))
]
