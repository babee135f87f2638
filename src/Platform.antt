-- ===== src/Platform.antt =====
-- What the program takes from Python's standard library and does not implement: Unicode
-- normalisation, SHA-256, and UUIDs of version 5 in the route namespace. They are parameters.
use agent_workflow_pack.Prelude.{String}

pub record Platform : Type 0 where
  -- `unicodedata.normalize("NFC", s)`
  pub nfc : String → String
  -- `hashlib.sha256(s.encode("utf-8")).hexdigest()`
  pub sha256 : String → String
  -- `str(uuid.uuid5(_ROUTE_NAMESPACE, s))`
  pub uuid5 : String → String
