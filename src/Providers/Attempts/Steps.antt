-- ===== src/Providers/Attempts/Steps.antt =====
-- The successful methods of providers/attempts.py as moves of the journal.
use agent_workflow_pack.Canonical.{normalize_json_value}
use agent_workflow_pack.Io.{bind-ok}
use agent_workflow_pack.Json.{Fields, Value, as_arr, eq_value, get, list, obj, text}
use agent_workflow_pack.Json.Laws.{eq_value-text, get-put}
use agent_workflow_pack.Platform.{Platform}
use agent_workflow_pack.Prelude.{
  Bool-cases, List, Option, String, [], ap, arith, get_elem?, inl, inr, none, set, some, subst, suc,
  ℕ, ◌+◌, ◌∷◌, ◌≡◌,
}
use agent_workflow_pack.Providers.Attempts.{
  AttemptRecord, Plan, Store, attempts_of, find_from, json, listed_attempts, load,
  validate_attempts,
}
use agent_workflow_pack.Providers.Attempts.Methods.{replace_attempt, with_attempts, write}
use agent_workflow_pack.Providers.Attempts.Write.{write-ok}
use agent_workflow_pack.Result.{Exn, Result, assertion_error, ok, present}

abbrev FoundAt : ℕ → List Value → String → ℕ → Fields → Type 0
FoundAt k vs attempt_id i raw =
    (j : ℕ) × (i ≡ k + j)
    × (get_elem? vs j ≡ some (obj raw))
    × (get raw "attempt_id" ≡ text attempt_id)

FoundAt-cons :
    (k : ℕ) (v : Value) (vs : List Value) (id : String) (i : ℕ) (raw : Fields)
    → FoundAt (suc k) vs id i raw
    → FoundAt k (v ∷ vs) id i raw
FoundAt-cons k v vs id i raw (j, e, at, same) = (suc j, omega arith, at, same)

find_from-FoundAt :
    (k : ℕ) (vs : List Value) (id : String) (i : ℕ) (raw : Fields)
    → find_from k vs id ≡ ok (i, raw)
    → FoundAt k vs id i raw
unfolding find_from
find_from-FoundAt k [] id i raw h = cc
find_from-FoundAt k (obj r ∷ vs) id i raw h =
    elim (Bool-cases (eq_value (get r "attempt_id") (text id))) [
      | inl here ↦ (
        0,
        ground (arith, here, h),
        ground (arith, here, h),
        ground (arith, here, h, eq_value-text (get r "attempt_id") id here),
      )
      | inr later ↦
          FoundAt-cons k (obj r) vs id i raw
            (find_from-FoundAt (suc k) vs id i raw (ground (arith, later, h)))
    ]
find_from-FoundAt k (v ∷ vs) id i raw h =
    FoundAt-cons k v vs id i raw (find_from-FoundAt (suc k) vs id i raw h)

pub find_from-ok :
    (vs : List Value) (id : String) (found : ℕ × Fields)
    → find_from 0 vs id ≡ ok found
    → (get_elem? vs found.0 ≡ some (obj found.1)) × (get found.1 "attempt_id" ≡ text id)
find_from-ok vs id (i, raw) h =
    let (j, e, stands, same) = find_from-FoundAt 0 vs id i raw h in
    let same_index : j ≡ i = omega (arith, e) in
    (subst (λ k. get_elem? vs k ≡ some (obj raw)) same_index stands, same)

-- `_find` searches the list that the journal holds.
pub listed_attempts-ok :
    (document : Fields) (before : List Value)
    → listed_attempts document ≡ ok before
    → attempts_of document ≡ ok before
listed_attempts-ok document before h = go (as_arr (get document "attempts")) _ h
  where
    go :
        (o : Option (List Value)) (e : Exn)
        → present o e ≡ ok before
        → present o assertion_error ≡ ok before
    go (some vs) e h = h
    go none e h = cc

-- What a method that wrote the journal has done: `after` is what it validated and wrote.
pub record Written (py : Platform) (p : Plan) (s s' : Store) (before after : List Value)
    : Type 0 where
  pub document : Fields
  pub stored : Value
  pub loaded : load p s ≡ ok document
  pub held : attempts_of document ≡ ok before
  pub valid : validate_attempts (list after) ≡ ok tt
  pub normal : normalize_json_value py (obj (with_attempts document after)) ≡ ok stored
  pub journal : s'.journal ≡ some (json stored)

module _ (py : Platform) (p : Plan) (document : Fields) (s : Store) where
  pub write-Written :
      (t : Store) (before after : List Value) {u : Unit {0}} {s' : Store}
      → load p s ≡ ok document
      → attempts_of document ≡ ok before
      → write py (with_attempts document after) t ≡ (ok u, s')
      → Written py p s s' before after
  write-Written t before after loaded held h =
      let (v, valid, normal, shape) = write-ok py (with_attempts document after) t h in
      record {
        document = document;
        stored = v;
        loaded = loaded;
        held = held;
        valid =
            subst (λ w. validate_attempts w ≡ ok tt)
              (get-put document "attempts" "attempts" (list after)) valid;
        normal = normal;
        journal = ap (λ (x : Store). x.journal) shape;
      }

  pub replace_attempt-Written :
      (t : Store) (before : List Value) (i : ℕ) (changed : Fields) {r : AttemptRecord} {s' : Store}
      → load p s ≡ ok document
      → attempts_of document ≡ ok before
      → replace_attempt py p document before i changed t ≡ (ok r, s')
      → Written py p s s' before (set before i (obj changed))
  unfolding replace_attempt
  replace_attempt-Written t before i changed {r} {s'} loaded held h =
      let (u, middle, done, rest) =
        bind-ok (write py (with_attempts document (set before i (obj changed)))) _ t h in
      write-Written t before (set before i (obj changed)) loaded held (
        subst (λ x. write py (with_attempts document (set before i (obj changed))) t ≡ (ok u, x))
          (ap (λ (x : Result AttemptRecord × Store). x.1) rest) done)
