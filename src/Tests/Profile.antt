-- ===== src/Tests/Profile.antt =====
-- Runs of core/profile.py.
use agent_workflow_pack.Core.Profile.{Sources, profile_chain}
use agent_workflow_pack.Core.Profile.Chain.{Ends, profile_chain-Ends}
use agent_workflow_pack.Core.Profile.Merge.{empty_draft}
use agent_workflow_pack.Core.Profile.Resolve.{ResolvedProfile, resolve_profile, resolved}
use agent_workflow_pack.Json.{Fields, end, field, num, obj, text, texts}
use agent_workflow_pack.Prelude.{String, [], ◌∷◌}
use agent_workflow_pack.Tests.Samples.{sample_py, value_of}

abbrev source_of : String → Fields → Fields
source_of id rest =
    field "schema_id" (text "agent-workflow.profile")
      (field "schema_version" (num 1) (field "id" (text id) rest))

abbrev base : Fields
base = source_of "base" (
    field "artifact_policy" (text "strict")
      (field "skills" (obj (field "enable" (texts ("plan" ∷ [])) end)) end))

abbrev child : Fields
child = source_of "child" (
    field "extends" (text "base") (
      field "artifact_policy" (text "loose")
        (field "skills" (obj (field "disable" (texts ("ship" ∷ [])) end)) end)))

abbrev both : Sources
both = ("base", base) ∷ ("child", child) ∷ []

abbrev no_profile : ResolvedProfile
no_profile = resolved "" empty_draft

unfoldable profile : ResolvedProfile
profile = value_of no_profile (resolve_profile sample_py (base ∷ child ∷ []) "child")

profile_chain-Ends_example : Ends (profile_chain both "child")
profile_chain-Ends_example = profile_chain-Ends both "child"
