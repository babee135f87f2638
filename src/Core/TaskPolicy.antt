-- ===== src/Core/TaskPolicy.antt =====
-- src/agent_stack/core/task_policy.py: its facts and the checks of single values. The label with which a
-- message begins, and the `details` of a failure, are left out.
pub mod Snapshot
pub mod Findings
pub mod Evidence
pub mod Quiescence
pub mod Gate
use agent_workflow_pack.Canonical.{normalize_path}
use agent_workflow_pack.Ident.{is_sha256, is_uuid}
use agent_workflow_pack.Json.{
  Fields, Value, as_arr, as_obj, bool, get, has_fields, int, is_unhashable, mem_value, text,
}
use agent_workflow_pack.Platform.{Platform}
use agent_workflow_pack.Prelude.{
  Bool, List, Option, String, [], false, if◌then◌else◌, leb_text, map, no_repeat, true, ◌&&◌, ◌==◌,
  ◌∷◌,
}
use agent_workflow_pack.Prelude.Sort.{sorted}
use agent_workflow_pack.Result.{
  Exn, Result, catching, err, failure, ok, present, require, traverse, type_error, ◌>>=◌, ◌>>◌,
}

abbrev pub schema_failure : String → Exn
schema_failure message = failure "AWP_SCHEMA_INVALID" message

abbrev pub ambiguous_kinds : List String
ambiguous_kinds =
    "layout-ambiguous" ∷ "unknown-entry" ∷ "collision" ∷ "scan-limit" ∷ "interpretation-conflict"
    ∷ []

abbrev pub blocked_kinds : List String
blocked_kinds = "unfinished-task-transaction" ∷ "non-archived-task" ∷ "layout-state-stranded" ∷ []

abbrev pub gate_operations : List String
gate_operations = "init" ∷ "sync" ∷ "repair" ∷ "upgrade" ∷ "workspace-migrate" ∷ []

abbrev pub non_archived_statuses : List String
non_archived_statuses = "admitting" ∷ "active" ∷ "blocked" ∷ "completed" ∷ "archiving" ∷ []

pub record SurfacePin : Type 0 where
  pub surface_id : String
  pub surface_digest : String

pub record TaskFact : Type 0 where
  pub task_id : String
  pub current_path : String
  pub lifecycle_status : String
  pub mode : String
  pub pinned_surfaces : List SurfacePin

pub record FindingFact : Type 0 where
  pub kind : String
  pub finding_id : String
  pub task_id : Option String
  pub path : Option String
  pub lifecycle_status : Option String
  pub mode : Option String
  pub pinned_surfaces : List SurfacePin

-- `_mapping`
abbrev pub policy_mapping : Value → Result Fields
policy_mapping v = present (as_obj v) (schema_failure "must be a string-keyed object")

-- `_array`
abbrev pub policy_array : Value → Result (List Value)
policy_array v = present (as_arr v) (schema_failure "must be an array")

-- `_string`
abbrev pub policy_string : Value → Result String
policy_string (text s) = if s == "" then err (schema_failure "must be a nonempty string") else ok s
policy_string _ = err (schema_failure "must be a nonempty string")

-- `_sha256`
abbrev pub policy_sha256 : Value → Result String
policy_sha256 (text s) =
    if is_sha256 s then ok s else err (schema_failure "must be lowercase SHA-256")
policy_sha256 _ = err (schema_failure "must be lowercase SHA-256")

-- `_uuid`
abbrev pub policy_uuid : Value → Result String
policy_uuid v = do
  s ← policy_string v
  if is_uuid s then ok s else err (schema_failure "must be a canonical UUID")

-- `_path`
abbrev pub policy_path : Platform → Value → Result String
policy_path py v =
    catching (do s ← policy_string v; normalize_path py s)
      (schema_failure "must be a normalized repository path")

-- `value not in {...}`, where a list or a dictionary cannot be hashed
abbrev pub check_in : List String → Value → Exn → Result (Unit {0})
check_in names v e = if is_unhashable v then err type_error else require (mem_value v names) e

-- `isinstance(value, int)`: a Boolean is one.
abbrev pub is_int : Value → Bool
is_int (int n) = true
is_int (bool b) = true
is_int _ = false

abbrev pub is_bool : Value → Bool
is_bool (bool b) = true
is_bool _ = false

abbrev pub surface_pin : Value → Result SurfacePin
surface_pin raw = do
  pin ← policy_mapping raw
  require (has_fields pin ("surface_id" ∷ "surface_digest" ∷ []))
      (schema_failure "fields are not closed")
  surface_id ← policy_string (get pin "surface_id")
  surface_digest ← policy_sha256 (get pin "surface_digest")
  ok (record { surface_id = surface_id; surface_digest = surface_digest })

abbrev pub same_pin : SurfacePin → SurfacePin → Bool
same_pin p q = p.surface_id == q.surface_id && p.surface_digest == q.surface_digest

unfoldable pub same_pins : List SurfacePin → List SurfacePin → Bool
same_pins [] [] = true
same_pins (p ∷ ps) (q ∷ qs) = same_pin p q && same_pins ps qs
same_pins _ _ = false

abbrev pub pin_ids : List SurfacePin → List String
pin_ids pins = map (λ (p : SurfacePin). p.surface_id) pins

unfoldable pub surface_pins : Value → Result (List SurfacePin)
surface_pins v = do
  raws ← policy_array v
  pins ← traverse surface_pin raws
  let ordered = sorted (λ (p q : SurfacePin). leb_text p.surface_id q.surface_id) pins
  require (same_pins pins ordered && no_repeat (pin_ids pins))
      (schema_failure "must be unique and sorted by surface_id")
  ok ordered
