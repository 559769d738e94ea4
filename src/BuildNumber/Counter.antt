-- ===== src/BuildNumber/Counter.antt =====
-- The numbers that release_build_number.py reads, resolves and writes back.
use xfl_clash.Prelude.{
  ℕ, suc, ◌+◌, ◌≤◌, ◌<◌, ◌^◌, true, [], ◌∷◌, ◌≡◌, ◌≢◌, ◌⊎◌, inl, inr, ◌∙◌, ap, sym, max, Text,
  to_number, length, arith, ok, bind-eq-ok, refl,
}
use xfl_clash.Prelude.Decimal.{
  leads, show, show-to_number, to_number-show, leads-show, length-show, leads-pos,
}
use xfl_clash.BuildNumber.{integer, resolve, next_counter, max_build_number, is_number_text}

leads_of_shape : (k : ℕ) (s : Text) → is_number_text k s ≡ true → leads s ≡ true
leads_of_shape k [] h = cc
leads_of_shape k (c ∷ s) h = ground arith

shape_of_leads : (k : ℕ) (s : Text) → leads s ≡ true → length s ≤ suc k → is_number_text k s ≡ true
shape_of_leads k [] h l = cc
shape_of_leads k (c ∷ s) h l = ground arith

integer-shape :
    (m : ℕ) (s : Text) (n : ℕ)
    → integer m s ≡ ok n
    → (is_number_text 9 s ≡ true) × (to_number 0 s ≡ n) × (n ≤ m)
unfolding integer
integer-shape m s n h = ground arith

-- A text that integer accepts is the canonical print of its number, which lies between 1 and the
-- maximum.
pub integer-canonical :
    (m : ℕ) (s : Text) (n : ℕ) → integer m s ≡ ok n → (s ≡ show n) × (1 ≤ n) × (n ≤ m)
integer-canonical m s n h =
    let (shape, number, within) = integer-shape m s n h in
    let l = leads_of_shape 9 s shape in
    (rw (← number) (sym (show-to_number s l)), rw number at (leads-pos s l), within)

integer_accepts :
    (m : ℕ) (s : Text)
    → is_number_text 9 s ≡ true
    → to_number 0 s ≤ m
    → integer m s ≡ ok (to_number 0 s)
unfolding integer
integer_accepts m s h k = ground arith

-- integer reads back every number between 1 and the maximum, up to ten digits, from its print.
pub integer-show : (m n : ℕ) → 1 ≤ n → n ≤ m → n < 10 ^ 10 → integer m (show n) ≡ ok n
integer-show m n p h l =
    let shape = shape_of_leads 9 (show n) (leads-show n p) (length-show n 9 l) in
    rw to_number-show at (integer_accepts m (show n) shape (rw to_number-show h))

integer-bounds : (m : ℕ) (s : Text) (n : ℕ) → integer m s ≡ ok n → (1 ≤ n) × (n ≤ m)
integer-bounds m s n h = let (_, low, high) = integer-canonical m s n h in (low, high)

-- A resolved number is in range and not below the counter, which it equals when none was requested.
pub resolve-in_range :
    (current requested : Text) (n : ℕ)
    → resolve current requested ≡ ok n
    → (available : ℕ) × (integer max_build_number current ≡ ok available)
      × (available ≤ n)
      × (n ≤ max_build_number)
      × ((requested ≢ []) ⊎ (n ≡ available))
unfolding resolve
resolve-in_range current [] n h =
    (n, h, omega arith, (integer-bounds max_build_number current n h).1, inr refl)
resolve-in_range current (c ∷ requested) n h =
    let (available, counted, rest) = bind-eq-ok (integer max_build_number current) _ h in
    let (number, wanted, checked) = bind-eq-ok (integer max_build_number (c ∷ requested)) _ rest in
    let b = integer-bounds max_build_number (c ∷ requested) number wanted in
    (available, counted, ground arith, ground arith, inl (λ e. cc))

integer_wider :
    (s : Text) (n : ℕ) → integer max_build_number s ≡ ok n → integer (max_build_number + 1) s ≡ ok n
unfolding integer
integer_wider s n h = ground arith

next_counter_of :
    (c b : Text) (i j : ℕ)
    → integer (max_build_number + 1) c ≡ ok i
    → integer max_build_number b ≡ ok j
    → next_counter c b ≡ ok (max i (j + 1))
unfolding next_counter
next_counter_of c b i j h k = rw (h, k) refl

max_eq : (a n : ℕ) → a ≤ n → max a (n + 1) ≡ n + 1
max_eq a n h = omega arith

later_is_larger :
    (n : ℕ) (later : Text) (k : ℕ)
    → integer (max_build_number + 1) (show (n + 1)) ≡ ok (n + 1)
    → resolve (show (n + 1)) later ≡ ok k
    → n < k
later_is_larger n later k written r =
    let (available, counted, low, _, _) = resolve-in_range (show (n + 1)) later k r in
    let same = integer_wider (show (n + 1)) available counted in ground arith

-- After a build with a resolved number the counter is that number plus one and can be read back,
-- and a build that a later run resolves from the counter has a larger number.
pub resolve-next_counter :
    (current requested later : Text) (n k : ℕ)
    → resolve current requested ≡ ok n
    → resolve (show (n + 1)) later ≡ ok k
    → (next_counter current (show n) ≡ ok (n + 1))
      × (integer (max_build_number + 1) (show (n + 1)) ≡ ok (n + 1))
      × (n < k)
resolve-next_counter current requested later n k h r =
    let (available, counted, low, high, _) = resolve-in_range current requested n h in
    let (pos, _) = integer-bounds max_build_number current available counted in
    let own = integer-show max_build_number n (omega arith) high (omega arith) in
    let written =
      integer-show (max_build_number + 1) (n + 1) (omega arith) (omega arith) (omega arith) in
    (
      next_counter_of current (show n) available n (integer_wider current available counted) own
          ∙ ap ok (max_eq available n low),
      written,
      later_is_larger n later k written r,
    )
