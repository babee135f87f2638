-- ===== src/Core/Catalog/Order/Ends.antt =====
-- That `_stable_topological_order` of core/catalog.py ends.
-- How a call may end: with a value, or with a failure of the catalogue.
use agent_workflow_pack.Core.Catalog.{catalog_failure}
use agent_workflow_pack.Core.Catalog.Entries.{Entries}
use agent_workflow_pack.Core.Catalog.Order.{
  Counts, check_prerequisites, consumers_of, count_of, drain, indegrees, lower, none_left,
  prerequisites_of, stable_topological_order,
}
use agent_workflow_pack.Core.Profile.Merge.{assign}
use agent_workflow_pack.Json.{entries}
use agent_workflow_pack.Prelude.{
  Bool, Bool-cases, List, Option, String, [], ap, arith, eqb, false, if-false, if-true,
  if◌then◌else◌, inl, inr, leb_text, length, none, refl, some, sorted_texts, subset, subst, suc,
  sym, true, zero, ℕ, ◌++◌, ◌+◌, ◌-◌, ◌<◌, ◌==◌, ◌∙◌, ◌∷◌, ◌≡◌, ◌≤◌, ◌⊎◌,
}
use agent_workflow_pack.Prelude.Sort.{insert, sorted}
use agent_workflow_pack.Result.{Result, err, ok, present, reject, require, ◌>>=◌}

abbrev pub Settles {ℓ} : {A : Type ℓ} → Result A → Type ℓ
Settles {A} r = ((a : A) × (r ≡ ok a)) ⊎ ((message : String) × (r ≡ err (catalog_failure message)))

pub Settles->>= {ℓ κ} :
    {A : Type ℓ} {B : Type κ} (m : Result A) (f : A → Result B)
    → Settles m
    → ((a : A) → m ≡ ok a → Settles (f a))
    → Settles (m >>= f)
Settles->>= m f (inl (a, e)) goes = subst (λ r. Settles (r >>= f)) (sym e) (goes a e)
Settles->>= m f (inr (message, e)) goes = inr (message, ap (λ r. r >>= f) e)

pub Settles-reject : (b : Bool) (message : String) → Settles (reject b (catalog_failure message))
Settles-reject true message = inr (message, refl)
Settles-reject false message = inl (tt, refl)

pub Settles-require : (b : Bool) (message : String) → Settles (require b (catalog_failure message))
Settles-require true message = inl (tt, refl)
Settles-require false message = inr (message, refl)

pub Settles-present {ℓ} :
    {A : Type ℓ} (o : Option A) (message : String) → Settles (present o (catalog_failure message))
Settles-present none message = inr (message, refl)
Settles-present (some a) message = inl (a, refl)

-- How many counts are not 0.
abbrev left : ℕ → ℕ
left n = if eqb n 0 then 0 else 1

abbrev waiting : Counts → ℕ
waiting [] = 0
waiting ((id, n) ∷ counts) = left n + waiting counts

waiting-assign :
    (c : String) (n : ℕ) (counts : Counts)
    → waiting (assign c n counts) + left (count_of counts c) ≡ waiting counts + left n
waiting-assign c n [] = omega arith
waiting-assign c n ((id, m) ∷ counts) = elim (Bool-cases (id == c)) [
  | inl e ↦ ground (arith, e)
  | inr e ↦ ground (arith, e, waiting-assign c n counts)
]

length-insert : (s : String) (ss : List String) → length (insert leb_text s ss) ≡ suc (length ss)
unfolding insert
length-insert s [] = refl
length-insert s (t ∷ ts) = ground (arith, length-insert s ts)

length-sorted : (ss : List String) → length (sorted_texts ss) ≡ length ss
unfolding sorted
length-sorted [] = refl
length-sorted (s ∷ ss) = length-insert s (sorted_texts ss) ∙ ap suc (length-sorted ss)

-- One lowered count adds to `ready` no more than what it takes from the counts.
lower-step :
    (c : String) (counts : Counts) (ready : List String)
    → length (if eqb (count_of counts c) 1 then insert leb_text c ready else ready)
        + waiting (assign c (count_of counts c - 1) counts)
      ≤ length ready + waiting counts
lower-step c counts ready =
    let n = count_of counts c in
    let sum = waiting-assign c (n - 1) counts in
    elim (Bool-cases (eqb n 1)) [
      | inl e ↦
          let more = ap length (if-true (eqb n 1) (insert leb_text c ready) ready e) in
          ground (arith, e, more, length-insert c ready, sum)
      | inr e ↦
          let same = ap length (if-false (eqb n 1) (insert leb_text c ready) ready e) in
          ground (arith, e, same, sum)
    ]

lower-measure :
    (cs : List String) (counts : Counts) (ready : List String)
    → length (lower cs counts ready).1 + waiting (lower cs counts ready).0
      ≤ length ready + waiting counts
lower-measure [] counts ready = omega arith
lower-measure (c ∷ cs) counts ready = omega (
  arith,
  lower-step c counts ready,
  lower-measure cs (assign c (count_of counts c - 1) counts)
      (if eqb (count_of counts c) 1 then insert leb_text c ready else ready),
)

drain-Settles :
    (entries : Entries) (selected : List String) (n : ℕ) (counts : Counts)
    (ready ordered : List String)
    → length ready + waiting counts < n
    → (result : List String) × (drain entries selected n counts ready ordered ≡ ok result)
unfolding drain
drain-Settles entries selected zero counts ready ordered enough = absurd (omega (arith, enough))
drain-Settles entries selected (suc n) counts [] ordered enough = (ordered, refl)
drain-Settles entries selected (suc n) counts (id ∷ ready) ordered enough =
    let cs = consumers_of entries selected id in
    drain-Settles entries selected n (lower cs counts ready).0 (lower cs counts ready).1
      (ordered ++ id ∷ []) (omega (arith, enough, lower-measure cs counts ready))

-- At the start, `ready` and the counts that are not 0 are as many as the counts.
start-measure :
    (entries : Entries) (ids : List String)
    → length (none_left (indegrees entries ids)) + waiting (indegrees entries ids) ≡ length ids
start-measure entries [] = omega arith
start-measure entries (id ∷ ids) =
    elim (Bool-cases (eqb (length (prerequisites_of entries id)) 0)) [
      | inl e ↦ ground (arith, e, start-measure entries ids)
      | inr e ↦ ground (arith, e, start-measure entries ids)
    ]

check_prerequisites-Settles :
    (entries : Entries) (selected ids : List String)
    → Settles (check_prerequisites entries selected ids)
unfolding check_prerequisites
check_prerequisites-Settles entries selected [] = inl (tt, refl)
check_prerequisites-Settles entries selected (id ∷ ids) =
    Settles->>=
      (require (subset (prerequisites_of entries id) selected)
        (catalog_failure "closure prerequisite was not selected"))
      (λ _. check_prerequisites entries selected ids) (Settles-require _ _)
      (λ _ _. check_prerequisites-Settles entries selected ids)

-- The order ends, with the identities or with a failure of the catalogue, a cycle included.
pub stable_topological_order-Settles :
    (selected : List String) (entries : Entries)
    → Settles (stable_topological_order selected entries)
unfolding stable_topological_order
stable_topological_order-Settles selected entries =
    let counts = indegrees entries selected in
    let ready = sorted_texts (none_left counts) in
    Settles->>= (check_prerequisites entries selected selected) _
      (check_prerequisites-Settles entries selected selected)
      (λ _ _.
        Settles->>= (drain entries selected (suc (length selected)) counts ready []) _
          (inl (
            drain-Settles entries selected (suc (length selected)) counts ready []
              (omega (arith, start-measure entries selected, length-sorted (none_left counts)))))
          (λ ordered _.
            Settles->>=
              (require (eqb (length ordered) (length selected))
                (catalog_failure "catalog dependency/reference cycle"))
              _ (Settles-require _ _) (λ _ _. inl (ordered, refl))))
