-- ===== src/Core/Profile/Chain.antt =====
-- That the inheritance loop of core/profile.py ends.
-- How the walk along a chain may end: with the chain, or with the failure of a profile.
use agent_workflow_pack.Canonical.{distinct}
use agent_workflow_pack.Core.Profile.{
  Sources, chain_from, profile_chain, profile_failure, source_ids,
}
use agent_workflow_pack.Json.{Fields, as_text, get, lookup}
use agent_workflow_pack.Json.Laws.{lookup-mem}
use agent_workflow_pack.Prelude.{
  Bool, List, Option, String, [], ap, arith, false, inl, inr, length, mem, no_repeat, none, refl,
  some, subset, suc, true, true-&&, zero, ℕ, ◌+◌, ◌<◌, ◌∷◌, ◌≡◌, ◌⊎◌,
}
use agent_workflow_pack.Prelude.Text.Sets.{pigeonhole}
use agent_workflow_pack.Result.{Result, err, map_result, ok, present, reject, ◌>>=◌, ◌>>◌}

abbrev pub Ends : Result (List Fields) → Type 0
Ends r =
    ((chain : List Fields) × (r ≡ ok chain))
    ⊎ ((message : String) × (r ≡ err (profile_failure message)))

length-ids : (sources : Sources) → length (source_ids sources) ≡ length sources
length-ids [] = refl
length-ids (s ∷ sources) = ap suc (length-ids sources)

Ends-map :
    (current : Fields) (r : Result (List Fields))
    → Ends r
    → Ends (map_result (λ chain. current ∷ chain) r)
Ends-map current r (inl (chain, e)) = inl (current ∷ chain, ap (map_result (λ c. current ∷ c)) e)
Ends-map current r (inr (message, e)) = inr (message, ap (map_result (λ c. current ∷ c)) e)

-- One round: the identity has been seen, has no source, or the walk goes on.
chain_from-step :
    (n : ℕ) (sources : Sources) (visiting : List String) (id : String)
    → ((source : Fields)
        → lookup sources id ≡ some source
        → mem id visiting ≡ false
        → Ends (chain_from n sources (id ∷ visiting) (as_text (get source "extends"))))
    → Ends (chain_from (suc n) sources visiting (some id))
unfolding chain_from
chain_from-step n sources visiting id goes = by_visit (mem id visiting) (lookup sources id) goes
  where
    by_visit :
        (b : Bool) (o : Option Fields)
        → ((source : Fields)
            → o ≡ some source
            → b ≡ false
            → Ends (chain_from n sources (id ∷ visiting) (as_text (get source "extends"))))
        → Ends (
            reject b (profile_failure "profile inheritance cycle")
            >> (present o (profile_failure "profile parent does not exist") >>= λ current.
                map_result
                  (λ chain. current ∷ chain)
                  (chain_from n sources (id ∷ visiting) (as_text (get current "extends")))))
    by_visit true o goes = inr ("profile inheritance cycle", refl)
    by_visit false none goes = inr ("profile parent does not exist", refl)
    by_visit false (some source) goes =
        Ends-map source (chain_from n sources (id ∷ visiting) (as_text (get source "extends")))
          (goes source refl refl)

chain_from-Ends :
    (n : ℕ) (sources : Sources) (visiting : List String) (o : Option String)
    → no_repeat visiting ≡ true
    → subset visiting (source_ids sources) ≡ true
    → length (source_ids sources) < n + length visiting
    → Ends (chain_from n sources visiting o)
unfolding chain_from
chain_from-Ends n sources visiting none distinct known enough = inl ([], refl)
chain_from-Ends zero sources visiting (some id) distinct known enough =
    absurd (omega (arith, pigeonhole visiting (source_ids sources) distinct known, enough))
chain_from-Ends (suc n) sources visiting (some id) distinct known enough =
    chain_from-step n sources visiting id (λ source found new.
      chain_from-Ends n sources (id ∷ visiting) (as_text (get source "extends"))
        (ground (arith, new, distinct)) (true-&& _ _ (lookup-mem sources id source found) known)
        (omega (arith, enough)))

-- The walk from a profile to the root of its chain ends within one round more than there are sources,
-- with the chain or with a failure, a cycle of profiles included.
pub profile_chain-Ends : (sources : Sources) (id : String) → Ends (profile_chain sources id)
profile_chain-Ends sources id =
    chain_from-Ends (suc (length sources)) sources [] (some id) refl refl
      (omega (arith, length-ids sources))
