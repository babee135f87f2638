-- ===== src/Runtime/Outbox/Laws.antt =====
-- What an accepted item of runtime/outbox.py says of its delivery.
-- The parts of an accepted delivery.
use mathlib.Core.Option.{some-injective}
use agent_workflow_pack.Canonical.{digest}
use agent_workflow_pack.Ident.{is_sha256}
use agent_workflow_pack.Json.{
  Fields, Value, arr, as_obj, bool, eq_value, get, has_fields, int, negsuc, null, num, obj, pos,
  text,
}
use agent_workflow_pack.Platform.{Platform}
use agent_workflow_pack.Prelude.{
  Bool-cases, String, ap, arith, eq_iff, if-false, if-true, inl, inr, mem, refl, some, subst, sym,
  true, ℕ, ◌&&◌, ◌==◌, ◌↔◌, ◌∙◌, ◌≡◌,
}
use agent_workflow_pack.Result.{
  >>=-eq-ok, Exn, Result, err, ok, ok-injective, present-ok, require-ok,
}
use agent_workflow_pack.Runtime.Outbox.{
  OutboxItem, check_delivery, check_effect, count_of, delivery_fields, delivery_states,
  evidence_agrees, outbox_fields, outbox_sha256, outbox_token, outbox_uuid, state_name,
  validate_item,
}

pub record Delivery (value : Value) (state : String) (count : ℕ) : Type 0 where
  pub delivery : Fields
  pub shape : value ≡ obj delivery
  pub has_state : get delivery "state" ≡ text state
  pub known : mem state delivery_states ≡ true
  pub has_count : get delivery "attempt_count" ≡ num count
  pub agrees : evidence_agrees state count delivery ≡ true

as_obj-some : (v : Value) (d : Fields) → as_obj v ≡ some d → v ≡ obj d
as_obj-some (obj e) d h = ap obj (some-injective e d h)
as_obj-some null d h = cc
as_obj-some (bool b) d h = cc
as_obj-some (int n) d h = cc
as_obj-some (text s) d h = cc
as_obj-some (arr vs) d h = cc

state_name-ok :
    (v : Value) (s : String) → state_name v ≡ ok s → (v ≡ text s) × (mem s delivery_states ≡ true)
unfolding state_name
state_name-ok (text t) s h = elim (Bool-cases (mem t delivery_states)) [
  | inl e ↦
      let same = ok-injective (sym (if-true (mem t delivery_states) _ _ e) ∙ h) in
      (ap text same, subst (λ x. mem x delivery_states ≡ true) same e)
  | inr e ↦ absurd (no_error (sym (if-false (mem t delivery_states) _ _ e) ∙ h))
]
  where
    no_error : {x : Exn} → ◌≡◌ {A = Result String} (err x) (ok s) → ⊥
    no_error k = cc
state_name-ok null s h = cc
state_name-ok (bool b) s h = cc
state_name-ok (int n) s h = cc
state_name-ok (arr vs) s h = cc
state_name-ok (obj d) s h = cc

count_of-ok : (v : Value) (n : ℕ) → count_of v ≡ ok n → v ≡ num n
unfolding count_of
count_of-ok (int (pos m)) n h = ap num (ok-injective h)
count_of-ok (int (negsuc m)) n h = cc
count_of-ok null n h = cc
count_of-ok (bool b) n h = cc
count_of-ok (text t) n h = cc
count_of-ok (arr vs) n h = cc
count_of-ok (obj d) n h = cc

pub check_delivery-Delivery :
    (value : Value) (state : String) (count : ℕ)
    → check_delivery value ≡ ok (state, count)
    → Delivery value state count
unfolding check_delivery
check_delivery-Delivery value state count h =
    let (delivery, shape, h₁) = present-ok (as_obj value) _ _ h in
    let (_, h₂) = require-ok (has_fields delivery delivery_fields) _ _ h₁ in
    let (s, named, h₃) = >>=-eq-ok (state_name (get delivery "state")) _ h₂ in
    let (n, counted, h₄) = >>=-eq-ok (count_of (get delivery "attempt_count")) _ h₃ in
    let (agrees, h₅) = require-ok (evidence_agrees s n delivery) _ _ h₄ in
    let same : (s, n) ≡ (state, count) = ok-injective h₅ in
    let (read, known) = state_name-ok (get delivery "state") s named in
    subst (λ (p : String × ℕ). Delivery value p.0 p.1) same
      (record {
        delivery = delivery;
        shape = as_obj-some value delivery shape;
        has_state = read;
        known = known;
        has_count = count_of-ok (get delivery "attempt_count") n counted;
        agrees = agrees;
      })

outbox_sha256-ok : (v : Value) (s : String) → outbox_sha256 v ≡ ok s → v ≡ text s
outbox_sha256-ok (text t) s h = elim (Bool-cases (is_sha256 t)) [
  | inl e ↦ ap text (ok-injective (sym (if-true (is_sha256 t) _ _ e) ∙ h))
  | inr e ↦ absurd (no_error (sym (if-false (is_sha256 t) _ _ e) ∙ h))
]
  where
    no_error : {x : Exn} → ◌≡◌ {A = Result String} (err x) (ok s) → ⊥
    no_error k = cc
outbox_sha256-ok null s h = cc
outbox_sha256-ok (bool b) s h = cc
outbox_sha256-ok (int n) s h = cc
outbox_sha256-ok (arr vs) s h = cc
outbox_sha256-ok (obj d) s h = cc

check_effect-key :
    (py : Platform) (document : Fields) (effect_id key : String)
    → check_effect py document effect_id ≡ ok key
    → get document "idempotency_key" ≡ text key
unfolding check_effect
check_effect-key py document effect_id key h =
    let (_, h₁) = require-ok (has_fields document outbox_fields) _ _ h in
    let (_, h₂) =
      require-ok
        (eq_value (get document "schema_id") (text "agent-workflow.task-outbox")
          && eq_value (get document "schema_version") (num 1))
        _ _ h₁ in
    let (_, h₃) = require-ok (eq_value (get document "effect_id") (text effect_id)) _ _ h₂ in
    let (_, _, h₄) = >>=-eq-ok (outbox_uuid (get document "task_id")) _ h₃ in
    let (_, _, h₅) = >>=-eq-ok (outbox_uuid (get document "transaction_id")) _ h₄ in
    let (_, _, h₆) = >>=-eq-ok (outbox_token (get document "operation")) _ h₅ in
    let (_, _, h₇) = >>=-eq-ok (outbox_token (get document "effect_kind")) _ h₆ in
    let (_, _, h₈) = >>=-eq-ok (outbox_token (get document "handler_id")) _ h₇ in
    let (_, _, h₉) = >>=-eq-ok (outbox_token (get document "handler_version")) _ h₈ in
    let (_, _, h₁₀) = >>=-eq-ok (outbox_token (get document "created_at")) _ h₉ in
    let (payload_digest, _, h₁₁) =
      >>=-eq-ok (outbox_sha256 (get document "payload_digest")) _ h₁₀ in
    let (actual, _, h₁₂) =
      >>=-eq-ok (digest py "agent-workflow.task-outbox-payload.v1" (get document "payload")) _
        h₁₁ in
    let (_, h₁₃) = require-ok (actual == payload_digest) _ _ h₁₂ in
    outbox_sha256-ok (get document "idempotency_key") key h₁₃

-- The parts of an accepted item.
pub record Accepted (document : Fields) (effect_id : String) (item : OutboxItem) : Type 0 where
  pub same_id : item.effect_id ≡ effect_id
  pub same_document : item.document ≡ document
  pub key : get document "idempotency_key" ≡ text item.idempotency_key
  pub delivery : Delivery (get document "delivery") item.delivery_state item.attempt_count

pub validate_item-Accepted :
    (py : Platform) (document : Fields) (effect_id : String) (item : OutboxItem)
    → validate_item py document effect_id ≡ ok item
    → Accepted document effect_id item
unfolding validate_item
validate_item-Accepted py document effect_id item h =
    let (key, effect, h₁) = >>=-eq-ok (check_effect py document effect_id) _ h in
    let (delivery, delivered, h₂) = >>=-eq-ok (check_delivery (get document "delivery")) _ h₁ in
    subst (Accepted document effect_id) (ok-injective h₂) (record {
      same_id = refl;
      same_document = refl;
      key = check_effect-key py document effect_id key effect;
      delivery = check_delivery-Delivery (get document "delivery") delivery.0 delivery.1 delivered;
    })

pending-count :
    (state : String) (count : ℕ) (delivery : Fields)
    → evidence_agrees state count delivery ≡ true
    → (state ≡ "pending") ↔ (count ≡ 0)
unfolding evidence_agrees
pending-count state count delivery h = (
  (λ e. ground (arith, (eq_iff state "pending").1 e)),
  (λ e. (eq_iff state "pending").0 (ground (arith, e))),
)

-- An accepted item is pending exactly when nothing has been attempted.
pub validate_item-pending :
    (py : Platform) (document : Fields) (effect_id : String) (item : OutboxItem)
    → validate_item py document effect_id ≡ ok item
    → (item.delivery_state ≡ "pending") ↔ (item.attempt_count ≡ 0)
validate_item-pending py document effect_id item h =
    let a = validate_item-Accepted py document effect_id item h in
    pending-count item.delivery_state item.attempt_count a.delivery.delivery a.delivery.agrees

pub obj-injective : {d e : Fields} → obj d ≡ obj e → d ≡ e
obj-injective {d} {e} h = ap (λ v. from v) h
  where
    from : Value → Fields
    from (obj x) = x
    from _ = d

pub num-injective : {m n : ℕ} → num m ≡ num n → m ≡ n
num-injective {m} {n} h = ap (λ v. from v) h
  where
    from : Value → ℕ
    from (int (pos x)) = x
    from _ = m
