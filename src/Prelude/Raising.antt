-- ===== src/Prelude/Raising.antt =====
-- A call that returns a value or raises an exception.
use mathlib.Core.Path.{◌≡◌, refl, subst}
use mathlib.Core.Logic.{◌⊎◌, inl, inr}
use mathlib.Core.Bool.{Bool, true, false}
use package.xfl_clash.Prelude.Tests.{if◌then◌else◌}
use mathlib.Core.List.{List, [], ◌∷◌}

pub data Result {ℓ κ} (E : Type κ) (A : Type ℓ) : Type (ℓ ⊔ κ) where
  ok : A → Result E A
  err : E → Result E A

infixl 5 ◌>>=◌ ◌>>◌
abbrev pub ◌>>=◌ {ℓ κ μ} :
    {E : Type μ} {A : Type ℓ} {B : Type κ} → Result E A → (A → Result E B) → Result E B
ok a >>= f = f a
err e >>= f = err e

abbrev pub ◌>>◌ {ℓ μ} : {E : Type μ} {B : Type ℓ} → Result E (Unit {0}) → Result E B → Result E B
m >> k = m >>= λ _. k

-- `if b: raise e`
abbrev pub raise_if {μ} : {E : Type μ} → Bool → E → Result E (Unit {0})
raise_if true e = err e
raise_if false e = ok tt

-- A loop whose body may raise, over the elements of a collection.
unfoldable pub for_each {ℓ κ μ} :
    {E : Type μ} {S : Type ℓ} {A : Type κ} → (S → A → Result E S) → S → List A → Result E S
for_each step s [] = ok s
for_each step s (x ∷ xs) = step s x >>= λ s'. for_each step s' xs

-- What a value that is returned satisfies, and what an exception does.
abbrev pub Ensures {ℓ κ μ} :
    {E : Type μ} {A : Type ℓ} → (E → Type κ) → (A → Type κ) → Result E A → Type κ
Ensures R P (ok a) = P a
Ensures R P (err e) = R e

module _ {ℓ κ μ} {E : Type μ} {A : Type ℓ} (R : E → Type κ) (P : A → Type κ) where
  pub Ensures-raise_if :
      (b : Bool) (e : E) (m : Result E A)
      → R e
      → (b ≡ false → Ensures R P m)
      → Ensures R P (raise_if b e >> m)
  Ensures-raise_if true e m r h = r
  Ensures-raise_if false e m r h = h refl

  pub Ensures-bind {ν} :
      {B : Type ν} (Q : B → Type κ) (m : Result E B) (f : B → Result E A)
      → Ensures R Q m
      → ((b : B) → m ≡ ok b → Q b → Ensures R P (f b))
      → Ensures R P (m >>= f)
  Ensures-bind Q (ok b) f h k = k b refl h
  Ensures-bind Q (err e) f h k = h

  pub Ensures-mono :
      (Q : A → Type κ) (m : Result E A) → ((a : A) → Q a → P a) → Ensures R Q m → Ensures R P m
  Ensures-mono Q (ok a) f h = f a h
  Ensures-mono Q (err e) f h = h

  -- A test that raises, and a value otherwise.
  pub Ensures-if :
      (b : Bool) (a : A) (e : E) → (b ≡ true → P a) → R e → Ensures R P (if b then ok a else err e)
  Ensures-if true a e p r = p refl
  Ensures-if false a e p r = r

  pub Ensures-for_each {ν} :
      {B : Type ν} (step : A → B → Result E A) (s : A) (xs : List B)
      → P s
      → ((a : A) (x : B) → P a → Ensures R P (step a x))
      → Ensures R P (for_each step s xs)
  unfolding for_each
  Ensures-for_each step s [] h k = h
  Ensures-for_each step s (x ∷ xs) h k =
      Ensures-bind P (step s x) (λ s'. for_each step s' xs) (k s x h)
        (λ s' _ h'. Ensures-for_each step s' xs h' k)

  pub Ensures-ok : (m : Result E A) (a : A) → m ≡ ok a → Ensures R P m → P a
  Ensures-ok (ok b) a e h = subst (Ensures R P) e h
  Ensures-ok (err x) a e h = subst (Ensures R P) e h

-- Inversion of a bind that succeeds or fails.
module _ {ℓ κ μ} {E : Type μ} {A : Type ℓ} {B : Type κ} where
  pub bind-eq-ok :
      (m : Result E A) (f : A → Result E B) {b : B}
      → (m >>= f) ≡ ok b
      → (a : A) × (m ≡ ok a) × (f a ≡ ok b)
  bind-eq-ok (ok a) f h = (a, refl, h)
  bind-eq-ok (err e) f h = cc

  pub bind-eq-err :
      (m : Result E A) (f : A → Result E B) {e : E}
      → (m >>= f) ≡ err e
      → (m ≡ err e) ⊎ ((a : A) × (m ≡ ok a) × (f a ≡ err e))
  bind-eq-err (ok a) f h = inr (a, refl, h)
  bind-eq-err (err e) f h = inl cc

pub raise_if-ok {μ} :
    {E : Type μ} (b : Bool) (e : E) {u : Unit {0}} → raise_if b e ≡ ok u → b ≡ false
raise_if-ok true e h = cc
raise_if-ok false e h = refl

-- What a value that is returned satisfies, whatever is raised.
module _ {ℓ κ μ} {E : Type μ} {A : Type ℓ} (P : A → Type κ) where
  abbrev pub Returns : Result E A → Type κ
  Returns m = Ensures (λ _. Unit) P m

  pub Returns-guard :
      (b : Bool) (e : E) (m : Result E A) → (b ≡ false → Returns m) → Returns (raise_if b e >> m)
  Returns-guard b e m h = Ensures-raise_if (λ _. Unit) P b e m tt h

  pub Returns-bind {ν} :
      {B : Type ν} (m : Result E B) (f : B → Result E A)
      → ((b : B) → m ≡ ok b → Returns (f b))
      → Returns (m >>= f)
  Returns-bind (ok b) f h = h b refl
  Returns-bind (err e) f h = tt

-- A result of no value satisfies what follows from its return.
pub returned {κ μ} :
    {E : Type μ} {P : Type κ} (m : Result E (Unit {0})) → (m ≡ ok tt → P) → Returns (λ _. P) m
returned (ok u) h = h refl
returned (err e) h = tt
