-- ===== src/Prelude/Lists.antt =====
-- Lists measured and indexed by native numbers, under the library's names.
use Prim.Native.Nat.{ℕ, zero, suc, ◌+◌, ◌-◌, ◌≤◌, min}
use mathlib.Core.Path.{◌≡◌, refl, ap, sym, ◌∙◌}
use mathlib.Core.Bool.{Bool, true, false, ◌&&◌, ◌||◌, false≢true}
use mathlib.Core.List.{List, [], ◌∷◌, ◌++◌}
use mathlib.Core.Logic.{◌⊎◌, inl, inr}
use mathlib.Core.Option.{Option, none, some}
use package.xfl_clash.Prelude.Tests.{or_false, Bool-cases}
use native.Mathlib.Omega.{arith}

module _ {ℓ} {A : Type ℓ} where
  abbrev pub length : List A → ℕ
  length [] = 0
  length (x ∷ xs) = suc (length xs)

  abbrev pub get_elem? : List A → ℕ → Option A
  get_elem? [] i = none
  get_elem? (x ∷ xs) zero = some x
  get_elem? (x ∷ xs) (suc i) = get_elem? xs i

  abbrev pub take : ℕ → List A → List A
  take zero xs = []
  take (suc n) [] = []
  take (suc n) (x ∷ xs) = x ∷ take n xs

  abbrev pub drop : ℕ → List A → List A
  drop zero xs = xs
  drop (suc n) [] = []
  drop (suc n) (x ∷ xs) = drop n xs

  pub length-append : (xs ys : List A) → length (xs ++ ys) ≡ length xs + length ys
  length-append [] ys = omega arith
  length-append (x ∷ xs) ys = omega (arith, length-append xs ys)

  pub take-drop : (n : ℕ) (xs : List A) → take n xs ++ drop n xs ≡ xs
  take-drop zero xs = refl
  take-drop (suc n) [] = refl
  take-drop (suc n) (x ∷ xs) = ap (◌∷◌ x) (take-drop n xs)

  pub length-take : (n : ℕ) (xs : List A) → length (take n xs) ≡ min n (length xs)
  length-take zero xs = omega arith
  length-take (suc n) [] = omega arith
  length-take (suc n) (x ∷ xs) = omega (arith, length-take n xs)

  pub length-drop : (n : ℕ) (xs : List A) → length (drop n xs) ≡ length xs - n
  length-drop zero xs = omega arith
  length-drop (suc n) [] = omega arith
  length-drop (suc n) (x ∷ xs) = omega (arith, length-drop n xs)

  -- `any` and `all` of a generator expression.
  abbrev pub any : (A → Bool) → List A → Bool
  any p [] = false
  any p (x ∷ xs) = p x || any p xs

  abbrev pub all : (A → Bool) → List A → Bool
  all p [] = true
  all p (x ∷ xs) = p x && all p xs

  -- A list comprehension with one condition.
  abbrev pub keep : (A → Bool) → List A → List A
  keep p [] = []
  keep p (x ∷ xs) = elim (p x) [ true ↦ x ∷ keep p xs | false ↦ keep p xs ]

  -- The predicate holds of each element.
  abbrev pub All {κ} : (A → Type κ) → List A → Type κ
  All P [] = Unit
  All P (x ∷ xs) = P x × All P xs

module _ {ℓ κ} {A : Type ℓ} (P : A → Type κ) where
  pub All-append : (xs ys : List A) → All P xs → All P ys → All P (xs ++ ys)
  All-append [] ys h k = k
  All-append (x ∷ xs) ys h k = (h.0, All-append xs ys h.1 k)

  pub All-mono {μ} : (Q : A → Type μ) (xs : List A) → ((x : A) → P x → Q x) → All P xs → All Q xs
  All-mono Q [] f h = tt
  All-mono Q (x ∷ xs) f h = (f x h.0, All-mono Q xs f h.1)

-- The relation holds of each element and every later one.
abbrev pub Pairs {ℓ κ} : {A : Type ℓ} → (A → A → Type κ) → List A → Type κ
Pairs R [] = Unit
Pairs R (x ∷ xs) = All (R x) xs × Pairs R xs

module _ {ℓ κ} {A : Type ℓ} (R : A → A → Type κ) where
  pub Pairs-snoc : (xs : List A) (a : A) → Pairs R xs → All (λ x. R x a) xs → Pairs R (xs ++ a ∷ [])
  Pairs-snoc [] a p h = (tt, tt)
  Pairs-snoc (x ∷ xs) a p h = (All-append (R x) xs (a ∷ []) p.0 (h.0, tt), Pairs-snoc xs a p.1 h.1)

module _ {ℓ κ} {A : Type ℓ} (P : A → Type κ) (p : A → Bool) where
  -- What no element passes.
  pub any-All : (xs : List A) → ((x : A) → p x ≡ false → P x) → any p xs ≡ false → All P xs
  any-All [] f h = tt
  any-All (x ∷ xs) f h = let (a, b) = or_false (p x) (any p xs) h in (f x a, any-All xs f b)

-- An element of a list.
abbrev pub In : {A : Type 0} → A → List A → Type 0
In a [] = ⊥
In a (x ∷ xs) = (x ≡ a) ⊎ In a xs

module _ {A : Type 0} (p : A → Bool) where
  pub In-keep : (a : A) (xs : List A) → p a ≡ true → In a xs → In a (keep p xs)
  In-keep a (x ∷ xs) h m = elim (Bool-cases (p x)) [
    | inl e ↦ rw (e, keep) (elim m [ inl same ↦ inl same | inr rest ↦ inr (In-keep a xs h rest) ])
    | inr e ↦
        rw (e, keep)
          (elim m [ inl same ↦ absurd (clash x same e) | inr rest ↦ In-keep a xs h rest ])
  ]
    where
      clash : (x : A) → x ≡ a → p x ≡ false → ⊥
      clash x same e = false≢true (sym e ∙ ap p same ∙ h)
  In-keep a [] h m = absurd m

  pub length-keep : (xs : List A) → length (keep p xs) ≤ length xs
  length-keep [] = omega arith
  length-keep (x ∷ xs) = elim (Bool-cases (p x)) [
    | inl e ↦ rw (e, keep) (omega (arith, length-keep xs))
    | inr e ↦ rw (e, keep) (omega (arith, length-keep xs))
  ]
