-- ===== src/Prelude/Sort.antt =====
-- `sorted(xs, key=...)`: a stable insertion sort over a test `le` of the keys.
use mathlib.Core.Path.{◌≡◌, refl, ap, ◌∙◌}
use mathlib.Core.Logic.{∥∥₁_elim, inl, inr}
use mathlib.Core.Bool.{Bool, true, false, ◌&&◌}
use mathlib.Core.List.{List, [], ◌∷◌, Perm, Permᴰ}
use mathlib.Core.List.Perm
use native.Mathlib.Omega.{arith}
use agent_workflow_pack.Prelude.Tests.{Bool-cases, if◌then◌else◌}
use agent_workflow_pack.Prelude.Lists.{all, any}

module _ {ℓ} {A : Type ℓ} (le : A → A → Bool) where
  unfoldable pub insert : A → List A → List A
  insert x [] = x ∷ []
  insert x (y ∷ ys) = if le x y then x ∷ y ∷ ys else y ∷ insert x ys

  unfoldable pub sorted : List A → List A
  unfolding insert
  sorted [] = []
  sorted (x ∷ xs) = insert x (sorted xs)

  -- Each element is below all that follow it.
  abbrev pub IsAscending : List A → Type 0
  IsAscending [] = Unit
  IsAscending (x ∷ xs) = (all (le x) xs ≡ true) × IsAscending xs

  all-insert : (p : A → Bool) (x : A) (xs : List A) → all p (insert x xs) ≡ (p x && all p xs)
  unfolding insert
  all-insert p x [] = refl
  all-insert p x (y ∷ ys) = ground (arith, all-insert p x ys)

  pub all-sorted : (p : A → Bool) (xs : List A) → all p (sorted xs) ≡ all p xs
  unfolding sorted
  all-sorted p [] = refl
  all-sorted p (x ∷ xs) = all-insert p x (sorted xs) ∙ ap (λ b. p x && b) (all-sorted p xs)

  any-insert : (p : A → Bool) (x : A) (xs : List A) → any p (insert x xs) ≡ any p (x ∷ xs)
  unfolding insert
  any-insert p x [] = refl
  any-insert p x (y ∷ ys) = ground (arith, any-insert p x ys)

  pub any-sorted : (p : A → Bool) (xs : List A) → any p (sorted xs) ≡ any p xs
  unfolding sorted
  any-sorted p [] = refl
  any-sorted p (x ∷ xs) = ground (arith, any-insert p x (sorted xs), any-sorted p xs)

  insert-perm : (x : A) (xs : List A) → Perm (insert x xs) (x ∷ xs)
  unfolding insert
  insert-perm x [] = Perm.refl (x ∷ [])
  insert-perm x (y ∷ ys) = elim (Bool-cases (le x y)) [
    | inl e ↦ rw e (Perm.refl (x ∷ y ∷ ys))
    | inr e ↦ rw e (Perm.trans (Perm.cons y (insert-perm x ys)) (Perm.swap x y ys))
  ]

  pub sorted-perm : (xs : List A) → Perm (sorted xs) xs
  unfolding sorted
  sorted-perm [] = Perm.refl []
  sorted-perm (x ∷ xs) = Perm.trans (insert-perm x (sorted xs)) (Perm.cons x (sorted-perm xs))

-- What makes the result of a sort unique.
pub record IsOrder {ℓ} {A : Type ℓ} (le : A → A → Bool) : Type ℓ where
  pub total : (a b : A) → le a b ≡ false → le b a ≡ true
  pub trans : (a b c : A) → le a b ≡ true → le b c ≡ true → le a c ≡ true
  pub antisym : (a b : A) → le a b ≡ true → le b a ≡ true → a ≡ b

module _ {ℓ} {A : Type ℓ} (le : A → A → Bool)
    (le_total : (a b : A) → le a b ≡ false → le b a ≡ true)
    (le_trans : (a b c : A) → le a b ≡ true → le b c ≡ true → le a c ≡ true) where
  all_trans : (x y : A) (xs : List A) → le x y ≡ true → all (le y) xs ≡ true → all (le x) xs ≡ true
  all_trans x y [] h k = refl
  all_trans x y (z ∷ zs) h k = ground (arith, le_trans x y z, all_trans x y zs h)

  insert-IsAscending : (x : A) (xs : List A) → IsAscending le xs → IsAscending le (insert le x xs)
  unfolding insert
  insert-IsAscending x [] h = (refl, tt)
  insert-IsAscending x (y ∷ ys) h = elim (Bool-cases (le x y)) [
    | inl e ↦ rw e (ground (arith, all_trans x y ys e h.0), h)
    | inr e ↦
        rw e
          (ground (arith, all-insert le (le y) x ys, le_total x y e), insert-IsAscending x ys h.1)
  ]

  pub sorted-IsAscending : (xs : List A) → IsAscending le (sorted le xs)
  unfolding sorted
  sorted-IsAscending [] = tt
  sorted-IsAscending (x ∷ xs) = insert-IsAscending x (sorted le xs) (sorted-IsAscending xs)

module _ {ℓ} {A : Type ℓ} {le : A → A → Bool} (order : IsOrder le) where
  open order use {total, trans, antisym}

  insert_swap :
      (x y : A) (xs : List A) → insert le x (insert le y xs) ≡ insert le y (insert le x xs)
  unfolding insert
  insert_swap x y [] = ground (arith, total x y, antisym x y)
  insert_swap x y (z ∷ zs) = ground (
    arith,
    total x y,
    antisym x y,
    total x z,
    total y z,
    trans x y z,
    trans y x z,
    insert_swap x y zs,
  )

  -- An ascending list is its own sort.
  pub sorted_of_IsAscending : (xs : List A) → IsAscending le xs → sorted le xs ≡ xs
  unfolding sorted
  sorted_of_IsAscending [] h = refl
  sorted_of_IsAscending (x ∷ xs) h = ap (insert le x) (sorted_of_IsAscending xs h.1) ∙ front xs h.0
    where
      front : (ys : List A) → all (le x) ys ≡ true → insert le x ys ≡ x ∷ ys
      front [] k = refl
      front (y ∷ ys) k = ground arith

  sorted-permᴰ : {xs ys : List A} → Permᴰ xs ys → sorted le xs ≡ sorted le ys
  unfolding sorted
  sorted-permᴰ Permᴰ.nil = refl
  sorted-permᴰ (Permᴰ.cons {a} {b} e p) = λ i. insert le (e i) (sorted-permᴰ p i)
  sorted-permᴰ (Permᴰ.swap {a} {b} {a'} {b'} {l} e f) =
      insert_swap a b (sorted le l) ∙ (λ i. insert le (f i) (insert le (e i) (sorted le l)))
  sorted-permᴰ (Permᴰ.trans p q) = sorted-permᴰ p ∙ sorted-permᴰ q

  -- The sort forgets the order of its input.
  pub sorted-eq_of_perm :
      IsSet (List A) → {xs ys : List A} → Perm xs ys → sorted le xs ≡ sorted le ys
  sorted-eq_of_perm s {xs} {ys} p = ∥∥₁_elim p (s (sorted le xs) (sorted le ys)) sorted-permᴰ
