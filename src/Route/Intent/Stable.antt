-- ===== src/Route/Intent/Stable.antt =====
-- An intent that route/intent.py has validated validates again, to itself.
use Prim.Native.String
use mathlib.Core.Option
use mathlib.Core.Option.{some-injective}
use agent_workflow_pack.Canonical.{digest}
use agent_workflow_pack.Canonical.Chars.{strip}
use agent_workflow_pack.Json.{
  Fields, Value, arr, as_arr, as_texts, bool, eq_value, get, has_fields, int, null, obj,
  optional_text, text,
}
use agent_workflow_pack.Json.Laws.{to_list-of_list}
use agent_workflow_pack.Platform.{Platform}
use agent_workflow_pack.Prelude.{
  Bool-cases, List, Option, String, [], ap, arith, false, inl, inr, ltb, map, mem, none, refl, some,
  subst, sym, ◌&&◌, ◌==◌, ◌||◌, ◌∙◌, ◌∷◌, ◌≡◌,
}
use agent_workflow_pack.Result.{>>=-eq-ok, ok, ok-injective, present-ok, require-ok}
use agent_workflow_pack.Route.Intent.{
  VerifiedTaskIntent, intent_fields, intent_modes, intent_text, intent_texts, normalized_intent,
  requested_mode_of, validate_task_intent, verified_intent,
}
use agent_workflow_pack.Route.Intent.Laws.{strip_idem}
use agent_workflow_pack.Route.Signals.{CompiledRoutePolicy, nonempty_texts, normalize_signals}
use agent_workflow_pack.Route.Signals.Laws.{normalize_signals_idem}

as_texts-ok : (vs : List Value) (ss : List String) → as_texts vs ≡ some ss → vs ≡ map text ss
as_texts-ok [] ss h = ap (map text) (some-injective [] ss h)
as_texts-ok (text s ∷ vs) ss h = go (as_texts vs) ss refl h (as_texts-ok vs)
  where
    go :
        (o : Option (List String)) (rs : List String)
        → as_texts vs ≡ o
        → Option.map (λ ts. s ∷ ts) o ≡ some rs
        → ((ts : List String) → as_texts vs ≡ some ts → vs ≡ map text ts)
        → text s ∷ vs ≡ map text rs
    go none rs e k rest = cc
    go (some ts) rs e k rest =
        ap (λ ws. text s ∷ ws) (rest ts e) ∙ ap (map text) (some-injective (s ∷ ts) rs k)
as_texts-ok (null ∷ vs) ss h = cc
as_texts-ok (bool b ∷ vs) ss h = cc
as_texts-ok (int n ∷ vs) ss h = cc
as_texts-ok (arr ws ∷ vs) ss h = cc
as_texts-ok (obj d ∷ vs) ss h = cc

nonempty_texts-ok :
    (vs : List Value) {ss : List String} → nonempty_texts vs ≡ some ss → vs ≡ map text ss
nonempty_texts-ok vs {ss} h = as_texts-ok vs ss (ground (arith, h))

-- An accepted signal list, whatever it held, is accepted again in its normal form.
normalize_signals-stable :
    (vs : List Value) (p : CompiledRoutePolicy) {r : List String}
    → normalize_signals vs p ≡ ok r
    → normalize_signals (map text r) p ≡ ok r
unfolding normalize_signals
normalize_signals-stable vs p {r} h =
    let (xs, found, _) = present-ok (nonempty_texts vs) _ _ h in
    normalize_signals_idem xs p r
      (subst (λ ws. normalize_signals ws p ≡ ok r) (nonempty_texts-ok vs found) h)

requested_mode_of-stable :
    (v : Value) {o : Option String}
    → requested_mode_of v ≡ ok o
    → requested_mode_of (optional_text o) ≡ ok o
requested_mode_of-stable null {o} h =
    subst (λ m. requested_mode_of (optional_text m) ≡ ok m) (ok-injective h) refl
requested_mode_of-stable (text s) {o} h = elim (Bool-cases (mem s intent_modes)) [
  | inl e ↦
      subst (λ m. requested_mode_of (optional_text m) ≡ ok m)
        (ok-injective {a = some s} (ground (arith, e, h))) (ground (arith, e))
  | inr e ↦ ground (arith, e, h)
]
requested_mode_of-stable (bool b) h = cc
requested_mode_of-stable (int n) h = cc
requested_mode_of-stable (arr vs) h = cc
requested_mode_of-stable (obj d) h = cc

-- The stages of an accepted intent.
pub record Validated (py : Platform) (document : Fields) (policy : CompiledRoutePolicy)
    (intent : VerifiedTaskIntent) : Type 0 where
  pub requested : Option String
  pub raw : List Value
  pub signals : List String
  pub mode_ok : requested_mode_of (get document "requested_mode") ≡ ok requested
  pub signals_ok : normalize_signals raw policy ≡ ok signals
  pub rest : intent_texts py requested signals document ≡ ok intent

pub validate_task_intent-ok :
    (py : Platform) (document : Fields) (policy : CompiledRoutePolicy) {intent : VerifiedTaskIntent}
    → validate_task_intent py document policy none ≡ ok intent
    → Validated py document policy intent
unfolding validate_task_intent
validate_task_intent-ok py document policy h =
    let (_, h₁) = require-ok (has_fields document intent_fields) _ _ h in
    let (_, h₂) =
      require-ok
        (eq_value (get document "schema_id") _ && eq_value (get document "schema_version") _) _ _
        h₁ in
    let (requested, mode_ok, h₃) =
      >>=-eq-ok (requested_mode_of (get document "requested_mode")) _ h₂ in
    let (raw, _, h₄) = present-ok (as_arr (get document "signals")) _ _ h₃ in
    let (signals, signals_ok, rest) = >>=-eq-ok (normalize_signals raw policy) _ h₄ in
    record {
      requested = requested;
      raw = raw;
      signals = signals;
      mode_ok = mode_ok;
      signals_ok = signals_ok;
      rest = rest;
    }

verified_intent-document :
    (py : Platform) (requested : Option String) (signals : List String) (i t o a : String)
    {intent : VerifiedTaskIntent}
    → verified_intent py requested signals i t o a ≡ ok intent
    → intent.document ≡ normalized_intent py requested signals i t o a
unfolding verified_intent
verified_intent-document py requested signals i t o a {intent} h =
    let (_, _, shape) = >>=-eq-ok (digest py "agent-workflow.task-intent.v1" _) _ h in
    ap (λ (v : VerifiedTaskIntent). v.document) (sym (ok-injective shape))

module _ (py : Platform)
    (nfc_piece : (s : String) → py.nfc (strip (py.nfc s)) ≡ strip (py.nfc s)) where
  intent_text-stable :
      (v : Value) {t : String} → intent_text py v ≡ ok t → intent_text py (text t) ≡ ok t
  unfolding intent_text
  intent_text-stable (text s) {t} h =
      elim (Bool-cases (strip (py.nfc s) == "" || ltb 4096 (String.len (strip (py.nfc s))))) [
        | inl bad ↦ ground (arith, bad, h)
        | inr good ↦
            subst (λ w. intent_text py (text w) ≡ ok w)
              (ok-injective {a = strip (py.nfc s)} (ground (arith, good, h))) (again good)
      ]
    where
      again :
          (strip (py.nfc s) == "" || ltb 4096 (String.len (strip (py.nfc s)))) ≡ false
          → intent_text py (text (strip (py.nfc s))) ≡ ok (strip (py.nfc s))
      again good = rw (nfc_piece s, strip_idem (py.nfc s), good) refl
  intent_text-stable null h = cc
  intent_text-stable (bool b) h = cc
  intent_text-stable (int n) h = cc
  intent_text-stable (arr vs) h = cc
  intent_text-stable (obj d) h = cc

  -- The texts of an accepted intent are accepted again, in the document that was made of them.
  intent_texts-stable :
      (requested : Option String) (signals : List String) (document : Fields)
      {intent : VerifiedTaskIntent}
      → intent_texts py requested signals document ≡ ok intent
      → (i : String) × (t : String) × (o : String) × (a : String) × (intent.document
          ≡ normalized_intent py requested signals i t o a)
        × (intent_texts py requested signals (normalized_intent py requested signals i t o a)
            ≡ ok intent)
  unfolding intent_texts
  intent_texts-stable requested signals document {intent} h =
      let (i, i_ok, h₁) = >>=-eq-ok (intent_text py (get document "intent_id")) _ h in
      let (t, t_ok, h₂) = >>=-eq-ok (intent_text py (get document "title")) _ h₁ in
      let (o, o_ok, h₃) = >>=-eq-ok (intent_text py (get document "objective")) _ h₂ in
      let (a, a_ok, h₄) = >>=-eq-ok (intent_text py (get document "acceptance_summary")) _ h₃ in
      (
        i,
        t,
        o,
        a,
        verified_intent-document py requested signals i t o a h₄,
        rw
            (
              intent_text-stable (get document "intent_id") i_ok,
              intent_text-stable (get document "title") t_ok,
              intent_text-stable (get document "objective") o_ok,
              intent_text-stable (get document "acceptance_summary") a_ok,
            )
            h₄,
      )

  intent_head-stable :
      (policy : CompiledRoutePolicy) (requested : Option String) (signals : List String)
      (i t o a : String)
      → requested_mode_of (optional_text requested) ≡ ok requested
      → normalize_signals (map text signals) policy ≡ ok signals
      → validate_task_intent py (normalized_intent py requested signals i t o a) policy none
        ≡ intent_texts py requested signals (normalized_intent py requested signals i t o a)
  unfolding validate_task_intent intent_texts
  intent_head-stable policy requested signals i t o a mode_ok signals_ok =
      rw (mode_ok, to_list-of_list (map text signals), signals_ok) refl

  -- A validated intent is in normal form: its own document is accepted again, with the same
  -- identity, mode, signals and digest. (Whatever NFC gives, trimmed, is in NFC.)
  pub validate_task_intent-stable :
      (document : Fields) (policy : CompiledRoutePolicy) (intent : VerifiedTaskIntent)
      → validate_task_intent py document policy none ≡ ok intent
      → validate_task_intent py intent.document policy none ≡ ok intent
  validate_task_intent-stable document policy intent h =
      let v = validate_task_intent-ok py document policy h in
      let (i, t, o, a, shape, again) = intent_texts-stable v.requested v.signals document v.rest in
      subst (λ d. validate_task_intent py d policy none ≡ ok intent) (sym shape)
        (intent_head-stable policy v.requested v.signals i t o a
            (requested_mode_of-stable (get document "requested_mode") v.mode_ok)
            (normalize_signals-stable v.raw policy v.signals_ok)
          ∙ again)
