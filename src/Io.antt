-- ===== src/Io.antt =====
-- A Python call that reads and writes a store and may raise: what was written before the exception
-- stays written.
use agent_workflow_pack.Prelude.{ap, refl, ◌≡◌}
use agent_workflow_pack.Result.{Exn, Result, err, ok}

abbrev pub Io : Type 0 → Type 0 → Type 0
Io S A = S → Result A × S

module _ {S A B : Type 0} where
  abbrev pub continue : Result A → (A → Io S B) → Io S B
  continue (ok a) f s = f a s
  continue (err e) f s = (err e, s)

  infixl 5 ◌>>=◌ ◌>>◌
  abbrev pub ◌>>=◌ : Io S A → (A → Io S B) → Io S B
  ◌>>=◌ m f s = continue (m s).0 f (m s).1

  abbrev pub ◌>>◌ : Io S A → Io S B → Io S B
  m >> k = m >>= λ _. k

module _ {S A : Type 0} where
  -- A call that touches no store.
  abbrev pub lift : Result A → Io S A
  lift r s = (r, s)

  abbrev pub pure : A → Io S A
  pure a s = (ok a, s)

  abbrev pub raise : Exn → Io S A
  raise e s = (err e, s)

  abbrev pub asks : (S → Result A) → Io S A
  asks f s = (f s, s)

-- A call that succeeded, in two steps.
module _ {S A B : Type 0} where
  pub bind-ok :
      (m : Io S A) (f : A → Io S B) (s : S) {b : B} {s' : S}
      → (m >>= f) s ≡ (ok b, s')
      → (a : A) × (t : S) × (m s ≡ (ok a, t)) × (f a t ≡ (ok b, s'))
  bind-ok m f s h = go (m s) refl h
    where
      go :
          (r : Result A × S) {b : B} {s' : S}
          → m s ≡ r
          → continue r.0 f r.1 ≡ (ok b, s')
          → (a : A) × (t : S) × (m s ≡ (ok a, t)) × (f a t ≡ (ok b, s'))
      go (ok a, t) e k = (a, t, e, k)
      go (err x, t) e k = cc

  -- A call that touches no store, and the rest.
  pub lift-ok :
      (r : Result A) (f : A → Io S B) (s : S) {b : B} {s' : S}
      → (lift r >>= f) s ≡ (ok b, s')
      → (a : A) × (r ≡ ok a) × (f a s ≡ (ok b, s'))
  lift-ok (ok a) f s h = (a, refl, h)
  lift-ok (err e) f s h = cc

-- A property of how a call ends, from its two ways on.
module _ {S A B : Type 0} where
  pub lift-ind {κ} :
      (P : Result B × S → Type κ) (r : Result A) (f : A → Io S B) (s : S)
      → ((e : Exn) → P (err e, s))
      → ((a : A) → r ≡ ok a → P (f a s))
      → P ((lift r >>= f) s)
  lift-ind P (ok a) f s fails goes = goes a refl
  lift-ind P (err e) f s fails goes = fails e

  pub bind-ind {κ} :
      (P : Result B × S → Type κ) (m : Io S A) (f : A → Io S B) (s : S)
      → ((e : Exn) → (m s).0 ≡ err e → P (err e, (m s).1))
      → ((a : A) → (m s).0 ≡ ok a → P (f a (m s).1))
      → P ((m >>= f) s)
  bind-ind P m f s fails goes = go (m s).0 fails goes
    where
      go :
          (r : Result A)
          → ((e : Exn) → r ≡ err e → P (err e, (m s).1))
          → ((a : A) → r ≡ ok a → P (f a (m s).1))
          → P (continue r f (m s).1)
      go (ok a) fails goes = goes a refl
      go (err e) fails goes = fails e refl

-- A call whose first step is known to succeed.
module _ {S A B : Type 0} where
  pub bind-run :
      (m : Io S A) (f : A → Io S B) (s : S) {a : A} {t : S} → m s ≡ (ok a, t) → (m >>= f) s ≡ f a t
  bind-run m f s h = ap (λ (r : Result A × S). continue r.0 f r.1) h

  pub lift-run :
      (r : Result A) (f : A → Io S B) (s : S) {a : A} → r ≡ ok a → (lift r >>= f) s ≡ f a s
  lift-run r f s h = ap (λ x. continue x f s) h
