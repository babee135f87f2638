-- ===== src/Json.antt =====
-- The JSON documents of the program (`dict[str, object]` in the source), as Python reads them:
-- `d.get(k)`, `k in d`, `{**d, k: v}`, `set(d)`, `==`, `isinstance`. Numbers are integers: no document
-- of the program holds a fraction or an exponent.
use mathlib.Core.Option
use agent_workflow_pack.Prelude.{
  Bool, List, Option, String, [], eqb, false, if◌then◌else◌, map, mem, none, same_set, some, subset,
  true, ℕ, ◌&&◌, ◌==◌, ◌∷◌,
}
pub mod Laws

pub data ℤ : Type 0 where
  pos : ℕ → ℤ
  negsuc : ℕ → ℤ

unfoldable pub eq_ℤ : ℤ → ℤ → Bool
eq_ℤ (pos a) (pos b) = eqb a b
eq_ℤ (negsuc a) (negsuc b) = eqb a b
eq_ℤ _ _ = false

mutual
  pub data Value : Type 0 where
    null : Value
    bool : Bool → Value
    int : ℤ → Value
    text : String → Value
    obj : Fields → Value
    arr : Items → Value

  pub data Fields : Type 0 where
    end : Fields
    field : String → Value → Fields → Fields

  pub data Items : Type 0 where
    nil : Items
    cons : Value → Items → Items

abbrev pub num : ℕ → Value
num n = int (pos n)

abbrev pub to_list : Items → List Value
to_list nil = []
to_list (cons v vs) = v ∷ to_list vs

abbrev pub of_list : List Value → Items
of_list [] = nil
of_list (v ∷ vs) = cons v (of_list vs)

abbrev pub list : List Value → Value
list vs = arr (of_list vs)

abbrev pub texts : List String → Value
texts ss = list (map text ss)

-- `d.get(k)`; what is missing reads as `None`.
abbrev pub get : Fields → String → Value
get end k = null
get (field j v d) k = if j == k then v else get d k

-- `d[k]`, or `none` where Python raises `KeyError`.
abbrev pub find : Fields → String → Option Value
find end k = none
find (field j v d) k = if j == k then some v else find d k

-- `{**d, k: v}`, `d[k] = v`
abbrev pub put : String → Value → Fields → Fields
put k v end = field k v end
put k v (field j w d) = if j == k then field j v d else field j w (put k v d)

-- `{**d, **e}`
abbrev pub update : Fields → Fields → Fields
update d end = d
update d (field k v e) = update (put k v d) e

abbrev pub keys : Fields → List String
keys end = []
keys (field k v d) = k ∷ keys d

abbrev pub entries : Fields → List (String × Value)
entries end = []
entries (field k v d) = (k, v) ∷ entries d

abbrev pub of_entries : List (String × Value) → Fields
of_entries [] = end
of_entries ((k, v) ∷ d) = field k v (of_entries d)

-- `set(d) == names`
abbrev pub has_fields : Fields → List String → Bool
has_fields d names = same_set (keys d) names

abbrev pub as_text : Value → Option String
as_text (text s) = some s
as_text _ = none

abbrev pub as_arr : Value → Option (List Value)
as_arr (arr vs) = some (to_list vs)
as_arr _ = none

abbrev pub as_obj : Value → Option Fields
as_obj (obj d) = some d
as_obj _ = none

-- `all(isinstance(item, str) for item in items)`, with the texts.
abbrev pub as_texts : List Value → Option (List String)
as_texts [] = some []
as_texts (text s ∷ vs) = Option.map (λ ss. s ∷ ss) (as_texts vs)
as_texts (_ ∷ vs) = none

abbrev bit : Bool → ℤ
bit true = pos 1
bit false = pos 0

-- Python's `==`: `True == 1`, and a dictionary has no order.
unfoldable mutual
  unfolding eq_ℤ

  pub eq_value : Value → Value → Bool
  eq_value null null = true
  eq_value (bool a) (bool b) = eq_ℤ (bit a) (bit b)
  eq_value (bool a) (int n) = eq_ℤ (bit a) n
  eq_value (int n) (bool a) = eq_ℤ n (bit a)
  eq_value (int m) (int n) = eq_ℤ m n
  eq_value (text s) (text t) = s == t
  eq_value (arr vs) (arr ws) = eq_items vs ws
  eq_value (obj d) (obj e) = eq_fields d e && subset (keys e) (keys d)
  eq_value _ _ = false

  pub eq_items : Items → Items → Bool
  eq_items nil nil = true
  eq_items (cons v vs) (cons w ws) = eq_value v w && eq_items vs ws
  eq_items _ _ = false

  pub eq_fields : Fields → Fields → Bool
  eq_fields end e = true
  eq_fields (field k v d) e =
      let rest = eq_fields d e in
      let same = eq_value v in elim (find e k) [ none ↦ false | some w ↦ same w && rest ]

-- `isinstance(v, (list, dict))`: what Python cannot hash. A test `v in {...}` raises `TypeError` on it.
abbrev pub is_unhashable : Value → Bool
is_unhashable (arr _) = true
is_unhashable (obj _) = true
is_unhashable _ = false

-- `v in {"a", "b"}` for a value that can be hashed.
abbrev pub mem_value : Value → List String → Bool
mem_value (text s) names = mem s names
mem_value _ names = false

abbrev pub is_text : Value → Bool
is_text (text s) = true
is_text _ = false

abbrev pub is_null : Value → Bool
is_null null = true
is_null _ = false

-- A mapping with values of one type, as an association list.
abbrev pub lookup {ℓ} : {A : Type ℓ} → List (String × A) → String → Option A
lookup [] k = none
lookup ((j, a) ∷ m) k = if j == k then some a else lookup m k

abbrev pub optional_text : Option String → Value
optional_text none = null
optional_text (some s) = text s
