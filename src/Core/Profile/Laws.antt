-- ===== src/Core/Profile/Laws.antt =====
-- What a resolved profile of core/profile.py has.
-- The two sets of skills, before and after they are sorted.
use agent_workflow_pack.Core.Profile.{Sources, collect_sources, profile_chain}
use agent_workflow_pack.Core.Profile.Merge.{Draft, empty_draft, merge_sources}
use agent_workflow_pack.Core.Profile.Resolve.{ResolvedProfile, resolved, reversed}
use agent_workflow_pack.Json.{Fields, find, text}
use agent_workflow_pack.Platform.{Platform}
use agent_workflow_pack.Prelude.{List, String, [], any, false, mem, none, some, ◌∷◌, ◌≡◌}
use agent_workflow_pack.Result.{Result, ok}

-- The artifact policy of the nearest source of a chain that names one.
abbrev pub nearest_policy : List Fields → String
nearest_policy [] = "default"
nearest_policy (source ∷ rest) =
    let further = nearest_policy rest in
    elim (find source "artifact_policy") [
      | none ↦ further
      | some v ↦ elim v [ text s ↦ s | _ ↦ further ]
    ]

-- What a resolution that returned has passed.
record Made (py : Platform) (profile_sources : List Fields) (selected : String)
    (r : ResolvedProfile) : Type 0 where
  sources : Sources
  collected : collect_sources [] profile_sources ≡ ok sources
  chain : List Fields
  walked : profile_chain sources selected ≡ ok chain
  draft : Draft
  merged : merge_sources py empty_draft (reversed chain) ≡ ok draft
  apart : any (λ s. mem s draft.disabled) draft.enabled ≡ false
  made : resolved selected draft ≡ r
