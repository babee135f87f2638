-- ===== src/Prelude/Text/Sets.antt =====
-- Lists of texts read as sets: what does not depend on the order of the list.
use mathlib.Core.HLevel.{hedberg}
use mathlib.Core.List.{Perm, Permᴰ}
use mathlib.Core.Logic.{∥∥₁_elim}
use agent_workflow_pack.Prelude.{
  Bool, List, String, [], any, ap, arith, eq_iff, eq_refl, eq_texts, false, if◌then◌else◌, leb_text,
  length, mem, no_repeat, not, refl, same_set, sorted_texts, subset, suc, sym, text_order, true,
  ◌&&◌, ◌==◌, ◌||◌, ◌∙◌, ◌∷◌, ◌≡◌, ◌≤◌,
}
use agent_workflow_pack.Prelude.Sort.{any-sorted, sorted-eq_of_perm, sorted-perm}

pub String-discrete : Discrete String
String-discrete s t = decide (s == t) (eq_iff s t).0 (eq_iff s t).1
  where
    decide : (b : Bool) → (b ≡ true → s ≡ t) → (s ≡ t → b ≡ true) → Dec (s ≡ t)
    decide true f g = yes (f refl)
    decide false f g = no (λ e. cc (g e))

-- Two literals that differ.
pub texts_apart : (s t : String) → (s == t) ≡ false → s ≡ t → ⊥
texts_apart s t h e = ground (arith, eq_iff s t)

pub String-set : IsSet String
String-set = hedberg String-discrete

pub Texts-set : IsSet (List String)
Texts-set = hlevel String-set

pub Bool-set : IsSet Bool
Bool-set = hlevel

-- A quantifier does not see the order of the list.
any-permᴰ {ℓ} : {A : Type ℓ} (p : A → Bool) {xs ys : List A} → Permᴰ xs ys → any p xs ≡ any p ys
any-permᴰ p Permᴰ.nil = refl
any-permᴰ p (Permᴰ.cons e d) = λ i. p (e i) || any-permᴰ p d i
any-permᴰ p (Permᴰ.swap {a} {b} {a'} {b'} {l} e f) =
    flip (p a) (p b) (any p l) ∙ (λ i. p (f i) || (p (e i) || any p l))
  where
    flip : (x y z : Bool) → (x || (y || z)) ≡ (y || (x || z))
    flip x y z = ground arith
any-permᴰ p (Permᴰ.trans d e) = any-permᴰ p d ∙ any-permᴰ p e

pub any-perm {ℓ} : {A : Type ℓ} (p : A → Bool) {xs ys : List A} → Perm xs ys → any p xs ≡ any p ys
any-perm p d = ∥∥₁_elim d (Bool-set _ _) (any-permᴰ p)

pub mem-perm : (x : String) {xs ys : List String} → Perm xs ys → mem x xs ≡ mem x ys
mem-perm x d = any-perm (λ y. y == x) d

pub mem-sorted : (x : String) (xs : List String) → mem x (sorted_texts xs) ≡ mem x xs
mem-sorted x xs = any-sorted leb_text (λ y. y == x) xs

no_repeat-permᴰ : {xs ys : List String} → Permᴰ xs ys → no_repeat xs ≡ no_repeat ys
no_repeat-permᴰ Permᴰ.nil = refl
no_repeat-permᴰ (Permᴰ.cons e d) = λ i. not (any-permᴰ (λ y. y == e i) d i) && no_repeat-permᴰ d i
no_repeat-permᴰ (Permᴰ.swap {a} {b} {a'} {b'} {l} e f) =
    ground (arith, eq_iff a b, eq_iff b a) ∙ (λ i. no_repeat (f i ∷ e i ∷ l))
no_repeat-permᴰ (Permᴰ.trans d e) = no_repeat-permᴰ d ∙ no_repeat-permᴰ e

pub no_repeat-perm : {xs ys : List String} → Perm xs ys → no_repeat xs ≡ no_repeat ys
no_repeat-perm d = ∥∥₁_elim d (Bool-set _ _) no_repeat-permᴰ

subset-permᴰ : {xs ys : List String} (zs : List String) → Permᴰ xs ys → subset xs zs ≡ subset ys zs
subset-permᴰ zs Permᴰ.nil = refl
subset-permᴰ zs (Permᴰ.cons e d) = λ i. mem (e i) zs && subset-permᴰ zs d i
subset-permᴰ zs (Permᴰ.swap {a} {b} {a'} {b'} {l} e f) =
    ground arith ∙ (λ i. subset (f i ∷ e i ∷ l) zs)
subset-permᴰ zs (Permᴰ.trans d e) = subset-permᴰ zs d ∙ subset-permᴰ zs e

pub subset-perm :
    {xs ys : List String} (zs : List String) → Perm xs ys → subset xs zs ≡ subset ys zs
subset-perm zs d = ∥∥₁_elim d (Bool-set _ _) (subset-permᴰ zs)

pub sorted_texts-perm : {xs ys : List String} → Perm xs ys → sorted_texts xs ≡ sorted_texts ys
sorted_texts-perm d = sorted-eq_of_perm text_order Texts-set d

-- Subset is inclusion of members.
pub mem_of_subset :
    (x : String) (xs ys : List String) → subset xs ys ≡ true → mem x xs ≡ true → mem x ys ≡ true
mem_of_subset x [] ys h k = ground arith
mem_of_subset x (y ∷ xs) ys h k =
    ground (arith, mem_of_subset x xs ys, λ (e : y ≡ x). ap (λ z. mem z ys) e, eq_iff y x)

pub subset_of_mem :
    (xs ys : List String) → ((x : String) → mem x xs ≡ true → mem x ys ≡ true) → subset xs ys ≡ true
subset_of_mem [] ys h = refl
subset_of_mem (x ∷ xs) ys h =
    ground (arith, h x, eq_refl x, subset_of_mem xs ys (λ z k. h z (ground (arith, k))))

pub subset_refl : (xs : List String) → subset xs xs ≡ true
subset_refl xs = subset_of_mem xs xs (λ x h. h)

pub subset_trans :
    (xs ys zs : List String) → subset xs ys ≡ true → subset ys zs ≡ true → subset xs zs ≡ true
subset_trans xs ys zs h k =
    subset_of_mem xs zs (λ x m. mem_of_subset x ys zs k (mem_of_subset x xs ys h m))

pub sorted-same_set : (xs : List String) → same_set (sorted_texts xs) xs ≡ true
sorted-same_set xs = ground (
  arith,
  subset_of_mem (sorted_texts xs) xs (λ x m. sym (mem-sorted x xs) ∙ m),
  subset_of_mem xs (sorted_texts xs) (λ x m. mem-sorted x xs ∙ m),
)

pub no_repeat-sorted : (xs : List String) → no_repeat (sorted_texts xs) ≡ no_repeat xs
no_repeat-sorted xs = no_repeat-perm (sorted-perm leb_text xs)

pub eq_texts_iff : (xs ys : List String) → eq_texts xs ys ≡ true → xs ≡ ys
unfolding eq_texts
eq_texts_iff [] [] h = refl
eq_texts_iff (x ∷ xs) (y ∷ ys) h = ground (arith, eq_iff x y, eq_texts_iff xs ys)
eq_texts_iff [] (y ∷ ys) h = cc
eq_texts_iff (x ∷ xs) [] h = cc

pub eq_texts_refl : (xs : List String) → eq_texts xs xs ≡ true
unfolding eq_texts
eq_texts_refl [] = refl
eq_texts_refl (x ∷ xs) = ground (arith, eq_refl x, eq_texts_refl xs)

-- One occurrence less.
abbrev without : String → List String → List String
without x [] = []
without x (y ∷ ys) = let rest = without x ys in if y == x then ys else y ∷ rest

length-without :
    (x : String) (ys : List String) → mem x ys ≡ true → suc (length (without x ys)) ≡ length ys
length-without x [] h = cc
length-without x (y ∷ ys) h = ground (arith, length-without x ys)

mem-without :
    (x z : String) (ys : List String)
    → (z == x) ≡ false
    → mem z ys ≡ true
    → mem z (without x ys) ≡ true
mem-without x z [] h k = k
mem-without x z (y ∷ ys) h k =
    ground (arith, eq_iff y x, eq_iff y z, eq_iff z x, mem-without x z ys)

subset-without :
    (x : String) (xs ys : List String)
    → mem x xs ≡ false
    → subset xs ys ≡ true
    → subset xs (without x ys) ≡ true
subset-without x [] ys h k = refl
subset-without x (z ∷ xs) ys h k = ground (arith, mem-without x z ys, subset-without x xs ys)

-- Distinct texts that all lie in a list are no more than the list.
pub pigeonhole :
    (xs ys : List String) → no_repeat xs ≡ true → subset xs ys ≡ true → length xs ≤ length ys
pigeonhole [] ys h k = omega arith
pigeonhole (x ∷ xs) ys h k =
    ground (arith, length-without x ys, subset-without x xs ys, pigeonhole xs (without x ys))
