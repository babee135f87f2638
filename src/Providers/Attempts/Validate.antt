-- ===== src/Providers/Attempts/Validate.antt =====
-- What `_validate_attempts` of providers/attempts.py accepts.
use agent_workflow_pack.Ident.{is_sha256, is_uuid}
use agent_workflow_pack.Json.{
  Fields, Value, arr, bool, get, int, is_unhashable, list, mem_value, null, obj, text,
}
use agent_workflow_pack.Json.Laws.{to_list-of_list}
use agent_workflow_pack.Prelude.{
  Bool, List, String, [], all, arith, eq_iff, false, if◌then◌else◌, leb, mem, no_repeat, not, refl,
  suc, true, ℕ, ◌&&◌, ◌+◌, ◌||◌, ◌↔◌, ◌∷◌, ◌≡◌, ◌≤◌,
}
use agent_workflow_pack.Providers.Attempts.{
  attempt_states, is_live, str_of, validate_attempts, validate_from,
}
use agent_workflow_pack.Result.{ok}

-- An attempt by itself: a canonical UUID, a digest for a token, one of the five states.
unfoldable pub well_formed : Value → Bool
unfolding str_of
well_formed (obj raw) =
    is_uuid (str_of (get raw "attempt_id"))
    && is_sha256 (str_of (get raw "release_token_digest"))
    && mem_value (get raw "state") attempt_states
well_formed _ = false

unfoldable pub ids_of : List Value → List String
ids_of [] = []
ids_of (obj raw ∷ vs) = str_of (get raw "attempt_id") ∷ ids_of vs
ids_of (_ ∷ vs) = ids_of vs

unfoldable pub tokens_of : List Value → List String
tokens_of [] = []
tokens_of (obj raw ∷ vs) = str_of (get raw "release_token_digest") ∷ tokens_of vs
tokens_of (_ ∷ vs) = tokens_of vs

unfoldable pub live_count : List Value → ℕ
live_count [] = 0
live_count (v ∷ vs) = let rest = live_count vs in if is_live v then suc rest else rest

-- None of the second list is in the first.
abbrev fresh : List String → List String → Bool
fresh seen xs = all (λ x. not (mem x seen)) xs

fresh-cons :
    (x : String) (seen xs : List String) → fresh (x ∷ seen) xs ≡ (not (mem x xs) && fresh seen xs)
fresh-cons x seen [] = refl
fresh-cons x seen (y ∷ xs) = ground (arith, eq_iff x y, eq_iff y x, fresh-cons x seen xs)

fresh-nil : (xs : List String) → fresh [] xs ≡ true
fresh-nil [] = refl
fresh-nil (x ∷ xs) = fresh-nil xs

-- The whole list, behind what the loop has seen.
abbrev acceptable : List String → List String → ℕ → List Value → Bool
acceptable ids tokens live vs =
    all well_formed vs
    && (fresh ids (ids_of vs) && no_repeat (ids_of vs))
    && (fresh tokens (tokens_of vs) && no_repeat (tokens_of vs))
    && leb (live + live_count vs) 1

state_hashable : (v : Value) → mem_value v attempt_states ≡ true → is_unhashable v ≡ false
state_hashable null h = refl
state_hashable (bool b) h = refl
state_hashable (int n) h = refl
state_hashable (text s) h = refl
state_hashable (arr vs) h = cc
state_hashable (obj d) h = cc

abbrev bump : Value → ℕ → ℕ
bump v live = if is_live v then suc live else live

-- One attempt that passes, and the attempts behind it.
step_passes :
    (ids tokens : List String) (live : ℕ) (raw : Fields) (vs : List Value)
    → (validate_from ids tokens live (obj raw ∷ vs) ≡ ok tt) ↔ (
        (well_formed (obj raw) ≡ true)
        × ((mem (str_of (get raw "attempt_id")) ids
              || mem (str_of (get raw "release_token_digest")) tokens)
            ≡ false)
        × (validate_from
              (str_of (get raw "attempt_id") ∷ ids)
              (str_of (get raw "release_token_digest") ∷ tokens)
              (bump (obj raw) live)
              vs
            ≡ ok tt))
unfolding validate_from well_formed
step_passes ids tokens live raw vs = ground (arith, state_hashable (get raw "state"))

step_acceptable :
    (ids tokens : List String) (live : ℕ) (raw : Fields) (vs : List Value)
    → acceptable ids tokens live (obj raw ∷ vs) ≡ (
        well_formed (obj raw)
        && not (
            mem (str_of (get raw "attempt_id")) ids
            || mem (str_of (get raw "release_token_digest")) tokens)
        && acceptable
            (str_of (get raw "attempt_id") ∷ ids)
            (str_of (get raw "release_token_digest") ∷ tokens)
            (bump (obj raw) live)
            vs)
unfolding ids_of tokens_of live_count
step_acceptable ids tokens live raw vs = ground (
  arith,
  fresh-cons (str_of (get raw "attempt_id")) ids (ids_of vs),
  fresh-cons (str_of (get raw "release_token_digest")) tokens (tokens_of vs),
)

join :
    {P Q : Type 0} {a b c d : Bool}
    → P ↔ ((a ≡ true) × (b ≡ false) × Q)
    → d ≡ (a && not b && c)
    → Q ↔ (c ≡ true)
    → P ↔ (d ≡ true)
join p e q = (
  λ x. let (y, n, w) = p.0 x in let v = q.0 w in ground (arith, e, y, n, v),
  λ h. p.1 (ground (arith, e, h), ground (arith, e, h), q.1 (ground (arith, e, h))),
)

validate_from_iff :
    (ids tokens : List String) (live : ℕ) (vs : List Value)
    → (validate_from ids tokens live vs ≡ ok tt) ↔ (acceptable ids tokens live vs ≡ true)
unfolding validate_from ids_of tokens_of live_count well_formed
validate_from_iff ids tokens live [] = ground arith
validate_from_iff ids tokens live (obj raw ∷ vs) =
    join (step_passes ids tokens live raw vs) (step_acceptable ids tokens live raw vs) (
      validate_from_iff (str_of (get raw "attempt_id") ∷ ids)
        (str_of (get raw "release_token_digest") ∷ tokens) (bump (obj raw) live) vs)
validate_from_iff ids tokens live (null ∷ vs) = ground arith
validate_from_iff ids tokens live (bool b ∷ vs) = ground arith
validate_from_iff ids tokens live (int n ∷ vs) = ground arith
validate_from_iff ids tokens live (text s ∷ vs) = ground arith
validate_from_iff ids tokens live (arr ws ∷ vs) = ground arith

-- A list of attempts is accepted exactly when each attempt is well formed, no identity and no release
-- token repeats, and at most one attempt is prepared or released.
pub validate_attempts_iff :
    (vs : List Value)
    → (validate_attempts (list vs) ≡ ok tt) ↔ (
        (all well_formed vs ≡ true)
        × (no_repeat (ids_of vs) ≡ true)
        × (no_repeat (tokens_of vs) ≡ true)
        × (live_count vs ≤ 1))
unfolding validate_attempts
validate_attempts_iff vs =
    rw (to_list-of_list vs) (
      ground (arith, validate_from_iff [] [] 0 vs, fresh-nil (ids_of vs), fresh-nil (tokens_of vs)))
