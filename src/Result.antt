-- ===== src/Result.antt =====
-- A Python call that may raise: the value that it returns, or the exception that leaves it. The
-- program's own exceptions carry a code and a message; their `details` are not modelled.
use agent_workflow_pack.Prelude.{
  Bool, List, Option, String, [], ap, false, none, refl, some, sym, true, ◌∷◌, ◌≡◌,
}

pub data Exn : Type 0 where
  failure : String → String → Exn
  type_error key_error value_error assertion_error os_error : Exn
  -- A loop that has not ended within the rounds given to it.
  out_of_fuel : Exn

pub data Result {ℓ} (A : Type ℓ) : Type ℓ where
  ok : A → Result A
  err : Exn → Result A

-- `if b: raise e`
abbrev pub reject : Bool → Exn → Result (Unit {0})
reject true e = err e
reject false e = ok tt

-- A value that has to be there.
abbrev pub present {ℓ} : {A : Type ℓ} → Option A → Exn → Result A
present none e = err e
present (some a) e = ok a

module _ {ℓ κ} {A : Type ℓ} {B : Type κ} where
  infixl 5 ◌>>=◌
  -- The next statement, unless this one has raised.
  abbrev pub ◌>>=◌ : Result A → (A → Result B) → Result B
  err e >>= rest = err e
  ok a >>= rest = rest a

module _ {κ} {B : Type κ} where
  infixl 5 ◌>>◌
  -- A statement whose value is not used.
  abbrev pub ◌>>◌ : Result (Unit {0}) → Result B → Result B
  statement >> rest = statement >>= λ _. rest

-- `if not b: raise e`
abbrev pub require : Bool → Exn → Result (Unit {0})
require true e = ok tt
require false e = err e

abbrev pub map_result {ℓ κ} : {A : Type ℓ} {B : Type κ} → (A → B) → Result A → Result B
map_result f (ok a) = ok (f a)
map_result f (err e) = err e

-- `[f(x) for x in xs]`, ended by the first exception.
abbrev pub traverse {ℓ κ} : {A : Type ℓ} {B : Type κ} → (A → Result B) → List A → Result (List B)
traverse f [] = ok []
traverse f (x ∷ xs) = f x >>= λ y. map_result (λ ys. y ∷ ys) (traverse f xs)

-- `try: ... except F: raise e`, where every exception of `m` is caught.
abbrev pub catching {ℓ} : {A : Type ℓ} → Result A → Exn → Result A
catching (ok a) e = ok a
catching (err _) e = err e

abbrev pub is_ok {ℓ} : {A : Type ℓ} → Result A → Bool
is_ok (ok a) = true
is_ok (err e) = false

module _ {ℓ κ} {A : Type ℓ} {B : Type κ} where
  -- A block that ended well: its first call returned a value, and the rest of it ended well.
  pub >>=-eq-ok :
      (call : Result A) (rest : A → Result B) {result : B}
      → (call >>= rest) ≡ ok result
      → (value : A) × (call ≡ ok value) × (rest value ≡ ok result)
  >>=-eq-ok (err e) rest h = cc
  >>=-eq-ok (ok value) rest h = (value, refl, h)

  -- A block whose first call returns a value.
  pub >>=-run :
      (call : Result A) (rest : A → Result B) {value : A}
      → call ≡ ok value
      → (call >>= rest) ≡ rest value
  >>=-run call rest h = ap (λ c. c >>= rest) h

-- What a passed guard says, and the rest of the block.
pub require-ok {ℓ} :
    {A : Type ℓ} (b : Bool) (e : Exn) (m : Result A) {a : A}
    → (require b e >> m) ≡ ok a
    → (b ≡ true) × (m ≡ ok a)
require-ok true e m h = (refl, h)
require-ok false e m h = cc

pub reject-ok {ℓ} :
    {A : Type ℓ} (b : Bool) (e : Exn) (m : Result A) {a : A}
    → (reject b e >> m) ≡ ok a
    → (b ≡ false) × (m ≡ ok a)
reject-ok true e m h = cc
reject-ok false e m h = (refl, h)

pub present-ok {ℓ κ} :
    {A : Type ℓ} {B : Type κ} (o : Option A) (e : Exn) (f : A → Result B) {b : B}
    → (present o e >>= f) ≡ ok b
    → (a : A) × (o ≡ some a) × (f a ≡ ok b)
present-ok (some a) e f h = (a, refl, h)
present-ok none e f h = cc

pub ok-injective {ℓ} : {A : Type ℓ} {a b : A} → ◌≡◌ {A = Result A} (ok a) (ok b) → a ≡ b
ok-injective {A} {a} {b} h = ap (λ r. value r) h
  where
    value : Result A → A
    value (ok x) = x
    value (err e) = a

pub map_result-ok {ℓ κ} :
    {A : Type ℓ} {B : Type κ} (f : A → B) (m : Result A) {b : B}
    → map_result f m ≡ ok b
    → (a : A) × (m ≡ ok a) × (b ≡ f a)
map_result-ok f (ok a) h = (a, refl, sym (ok-injective h))
map_result-ok f (err e) h = cc

pub require-run : (b : Bool) (e : Exn) → b ≡ true → require b e ≡ ok tt
require-run b e h = ap (λ x. require x e) h
