-- ===== src/Runtime/Outbox/Attempt.antt =====
-- What a delivery of runtime/outbox.py has done when it returns, and what an enqueued effect is.
use agent_workflow_pack.Canonical.{canonical_json}
use agent_workflow_pack.Canonical.Chars.{chars, octal?}
use agent_workflow_pack.Io.{bind-ok, lift-ok, pure}
use agent_workflow_pack.Json.{Fields, Value, get, num, obj, put, text}
use agent_workflow_pack.Json.Laws.{get-put}
use agent_workflow_pack.Platform.{Platform}
use agent_workflow_pack.Prelude.{
  Bool, Option, String, ap, eq_iff, false, if-false, if◌then◌else◌, inl, inr, none, refl, some,
  subst, sym, true, ℕ, ◌+◌, ◌==◌, ◌∙◌, ◌≡◌, ◌⊎◌,
}
use agent_workflow_pack.Reconcile.Cas.{compare_and_swap}
use agent_workflow_pack.Reconcile.Cas.Laws.{Seen, compare_and_swap-ok}
use agent_workflow_pack.Reconcile.Cas.Stored.{Holds, compare_and_swap-Holds}
use agent_workflow_pack.Reconcile.Files.{FileState, Tree}
use agent_workflow_pack.Result.{Exn, Result, ok, ok-injective, require}
use agent_workflow_pack.Route.Calculator.{is_none}
use agent_workflow_pack.Runtime.Outbox.{
  OutboxItem, format_time, item_state, outbox_failure, read_item, validate_item,
}
use agent_workflow_pack.Runtime.Outbox.Deliver.{
  Handler, HandlerError, attempt_effect, deliver_effect, delivered_time, delivery_of,
  failure_document, outcome_state, settle_attempt, settled_delivery, settled_document, store_item,
}
use agent_workflow_pack.Runtime.Outbox.Laws.{
  Delivery, num-injective, obj-injective, validate_item-Accepted,
}
use agent_workflow_pack.Runtime.Replay.Ledger.{rethrow}
use agent_workflow_pack.Runtime.Replay.Writes.{rethrow-ok}
use agent_workflow_pack.Runtime.TaskJournal.Check.{text-injective}

store_item-ok :
    (py : Platform) (before after : FileState) (payload message : String) (s : Tree) {u : Unit {0}}
    {s' : Tree}
    → after.present_ ≡ true
    → octal? (chars after.mode) ≡ some 384
    → store_item py before after payload message s ≡ (ok u, s')
    → Seen py before.managed_block_hash before s × Holds py s before s' payload
unfolding store_item
store_item-ok py before after payload message s {u} {s'} there private h =
    let (f, t, swapped, rest) =
      bind-ok (rethrow (compare_and_swap py before after (some payload)) (outbox_failure message))
        (λ _. pure tt) s h in
    let swap =
      rethrow-ok (compare_and_swap py before after (some payload) s) (outbox_failure message) f t
        swapped in
    (
      (compare_and_swap-ok py before after (some payload) s swap).3,
      subst (λ x. Holds py s before x payload) (ap (λ (x : Result (Unit {0}) × Tree). x.1) rest)
          (compare_and_swap-Holds py before after payload s there private swap),
    )

-- The file at a state's path holds the text of a document that reads as an item.
pub Stored : Platform → String → OutboxItem → FileState → Tree → Tree → Type 0
Stored py effect_id r observed before after =
    (document : Fields) × (payload : String) × (validate_item py document effect_id ≡ ok r)
    × (canonical_json py (obj document) ≡ ok payload)
    × Holds py before observed after payload

-- The delivery of the document after an attempt.
settled-Delivery :
    (item : OutboxItem) (time : String) (outcome : Option HandlerError) (state : String) (count : ℕ)
    → Delivery (get (settled_document item time outcome) "delivery") state count
    → (state ≡ outcome_state outcome) × (count ≡ item.attempt_count + 1)
settled-Delivery item time outcome state count d =
    let old = delivery_of item.document in
    let new = settled_delivery old time (item.attempt_count + 1) outcome in
    let first : Fields = put "state" (text (outcome_state outcome)) old in
    let second : Fields = put "attempt_count" (num (item.attempt_count + 1)) first in
    let third : Fields = put "last_attempt_at" (text time) second in
    let fourth : Fields = put "delivered_at" (delivered_time outcome time) third in
    let same : d.delivery ≡ new =
      obj-injective (sym d.shape ∙ get-put item.document "delivery" "delivery" (obj new)) in
    let later =
      λ (k : String) (e : ("failure" == k) ≡ false) (e' : ("delivered_at" == k) ≡ false)
          (e'' : ("last_attempt_at" == k) ≡ false).
        get-put fourth "failure" k (failure_document outcome)
        ∙ if-false _ _ _ e
        ∙ get-put third "delivered_at" k (delivered_time outcome time)
        ∙ if-false _ _ _ e'
        ∙ get-put second "last_attempt_at" k (text time)
        ∙ if-false _ _ _ e'' in
    (
      text-injective (
          sym d.has_state
          ∙ ap (λ x. get x "state") same
          ∙ later "state" refl refl refl
          ∙ get-put first "attempt_count" "state" (num (item.attempt_count + 1))
          ∙ get-put old "state" "state" (text (outcome_state outcome))),
      num-injective (
          sym d.has_count
          ∙ ap (λ x. get x "attempt_count") same
          ∙ later "attempt_count" refl refl refl
          ∙ get-put first "attempt_count" "attempt_count" (num (item.attempt_count + 1))),
    )

no_error : (o : Option HandlerError) (e : Exn) {u : Unit} → require (is_none o) e ≡ ok u → o ≡ none
no_error none e h = refl
no_error (some x) e h = cc

-- What an attempt that returned has done.
pub record Attempted (py : Platform) (item : OutboxItem) (observed : FileState) (handler : Handler)
    (tree : Tree) (r : OutboxItem) (tree' : Tree) : Type 0 where
  pub delivered : r.delivery_state ≡ "delivered"
  pub counted : r.attempt_count ≡ item.attempt_count + 1
  pub same_id : r.effect_id ≡ item.effect_id
  pub same_key : get item.document "idempotency_key" ≡ text r.idempotency_key
  pub handled : (handler item.document tree).0 ≡ none
  pub seen : Seen py observed.managed_block_hash observed (handler item.document tree).1
  pub stored : Stored py item.effect_id r observed (handler item.document tree).1 tree'

-- What follows a call of the handler, where it returned.
record Settled (py : Platform) (item : OutboxItem) (observed : FileState)
    (outcome : Option HandlerError) (tree : Tree) (r : OutboxItem) (tree' : Tree) : Type 0 where
  state : r.delivery_state ≡ outcome_state outcome
  count : r.attempt_count ≡ item.attempt_count + 1
  id : r.effect_id ≡ item.effect_id
  key : get item.document "idempotency_key" ≡ text r.idempotency_key
  quiet : outcome ≡ none
  saw : Seen py observed.managed_block_hash observed tree
  left : Stored py item.effect_id r observed tree tree'

settle_attempt-Settled :
    (py : Platform) (item : OutboxItem) (observed : FileState) (time : String)
    (outcome : Option HandlerError) (tree : Tree) (r : OutboxItem) (tree' : Tree)
    → settle_attempt py item observed time outcome tree ≡ (ok r, tree')
    → Settled py item observed outcome tree r tree'
unfolding settle_attempt Stored
settle_attempt-Settled py item observed time outcome tree r tree' h =
    let document = settled_document item time outcome in
    let (payload, written, h₁) = lift-ok (canonical_json py (obj document)) _ tree h in
    let (_, t, stored, h₂) =
      bind-ok
        (store_item py observed (item_state py observed.path payload) payload
          "outbox item changed during delivery CAS")
        _ tree h₁ in
    let (result, valid, h₃) = lift-ok (validate_item py document item.effect_id) _ t h₂ in
    let (_, clear, h₄) =
      lift-ok
        (require (is_none outcome)
          (outbox_failure "outbox handler failed; effect remains retryable"))
        (λ _. pure result) t h₃ in
    let a = validate_item-Accepted py document item.effect_id result valid in
    let (state, count) =
      settled-Delivery item time outcome result.delivery_state result.attempt_count a.delivery in
    let (saw, holds) = store_item-ok py observed _ payload _ tree refl refl stored in
    let still : t ≡ tree' = ap (λ (x : Result OutboxItem × Tree). x.1) h₄ in
    subst (λ x. Settled py item observed outcome tree x tree')
      (ok-injective (ap (λ (x : Result OutboxItem × Tree). x.0) h₄))
      (record {
        state = state;
        count = count;
        id = a.same_id;
        key = sym (get-put item.document "delivery" "idempotency_key" _) ∙ a.key;
        quiet = no_error outcome _ clear;
        saw = saw;
        left = (
          document,
          payload,
          valid,
          written,
          subst (λ x. Holds py tree observed x payload) still holds,
        );
      })

attempt_effect-Attempted :
    (py : Platform) (item : OutboxItem) (observed : FileState) (attempted_at : Option String)
    (handler : Handler) (tree : Tree) (r : OutboxItem) (tree' : Tree)
    → attempt_effect py item observed attempted_at handler tree ≡ (ok r, tree')
    → Attempted py item observed handler tree r tree'
unfolding attempt_effect
attempt_effect-Attempted py item observed attempted_at handler tree r tree' h =
    let (time, _, h₁) = lift-ok (format_time attempted_at) _ tree h in
    let s =
      settle_attempt-Settled py item observed time (handler item.document tree).0
        (handler item.document tree).1 r tree' h₁ in
    record {
      delivered = s.state ∙ ap outcome_state s.quiet;
      counted = s.count;
      same_id = s.id;
      same_key = s.key;
      handled = s.quiet;
      seen = s.saw;
      stored = s.left;
    }

deliver_cases :
    (py : Platform) (item : OutboxItem) (observed : FileState) (attempted_at : Option String)
    (handler : Handler) (tree : Tree) (r : OutboxItem) (tree' : Tree) (b : Bool)
    → (item.delivery_state == "delivered") ≡ b
    → (if b then pure item else attempt_effect py item observed attempted_at handler) tree
      ≡ (ok r, tree')
    → ((item.delivery_state ≡ "delivered") × (r ≡ item) × (tree' ≡ tree))
      ⊎ Attempted py item observed handler tree r tree'
deliver_cases py item observed attempted_at handler tree r tree' true e h = inl (
  (eq_iff item.delivery_state "delivered").0 e,
  sym (ok-injective (ap (λ (x : Result OutboxItem × Tree). x.0) h)),
  sym (ap (λ (x : Result OutboxItem × Tree). x.1) h),
)
deliver_cases py item observed attempted_at handler tree r tree' false e h =
    inr (attempt_effect-Attempted py item observed attempted_at handler tree r tree' h)

-- A delivery that returns leaves a delivered item. Either it was delivered before, and nothing was
-- called or written; or the handler was called and raised nothing, one attempt more is counted, the
-- identity and the idempotency key are those that were read, and the file, which was still as it had
-- been read when the handler had run, now holds the text of a document that reads as that item.
pub deliver_effect-delivers :
    (py : Platform) (json_loads : String → Option Value) (effect_id : String)
    (attempted_at : Option String) (handler : Handler) (tree : Tree) (r : OutboxItem) (tree' : Tree)
    → deliver_effect py json_loads effect_id attempted_at handler tree ≡ (ok r, tree')
    → (r.delivery_state ≡ "delivered")
      × ((item : OutboxItem) × (observed : FileState) × (read_item py json_loads effect_id tree
            ≡ ok (item, observed))
          × (((item.delivery_state ≡ "delivered") × (r ≡ item) × (tree' ≡ tree))
              ⊎ Attempted py item observed handler tree r tree'))
unfolding deliver_effect
deliver_effect-delivers py json_loads effect_id attempted_at handler tree r tree' h =
    let (read, found, h₁) =
      lift-ok (read_item py json_loads effect_id tree)
        (λ x.
          if x.0.delivery_state == "delivered"
          then pure x.0
          else attempt_effect py x.0 x.1 attempted_at handler)
        tree h in
    let cases =
      deliver_cases py read.0 read.1 attempted_at handler tree r tree'
        (read.0.delivery_state == "delivered") refl h₁ in
    (
      elim cases [
        | inl (e, same, _) ↦ ap (λ (x : OutboxItem). x.delivery_state) same ∙ e
        | inr a ↦ a.delivered
      ],
      (read.0, read.1, found, cases),
    )
