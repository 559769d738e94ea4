-- ===== src/Prelude/Decimal.antt =====
-- `str` of a natural number, and `int` of decimal digits read back.
use Prim.Native.Nat.{ℕ, zero, suc, ◌+◌, ◌-◌, ◌*◌, ◌/◌, ◌%◌, ◌^◌, ◌≤◌, ◌<◌}
use native.Mathlib.Nat.{pow-suc}
use mathlib.Core.Path.{◌≡◌, refl, ap}
use mathlib.Core.Bool.{Bool, true, false, ◌&&◌}
use mathlib.Core.List.{[], ◌∷◌, ◌++◌}
use native.Mathlib.Omega.{arith}
use package.xfl_clash.Prelude.Tests.{leb, ltb, if◌then◌else◌, le→ltb}
use package.xfl_clash.Prelude.Lists.{all, length, length-append}
use package.xfl_clash.Prelude.Bytes.{Text, is_digit, to_number}

-- The digits of `n`, most significant first; the fuel bounds their count.
unfoldable pub decimal : ℕ → ℕ → Text
decimal zero n = []
decimal (suc f) n =
    let front = decimal f (n / 10) in
    if ltb n 10 then (48 + n) ∷ [] else front ++ (48 + n % 10) ∷ []

-- `str(n)`
unfoldable pub show : ℕ → Text
unfolding decimal
show n = decimal (suc n) n

pub to_number-append :
    (acc : ℕ) (s : Text) (c : ℕ) → to_number acc (s ++ c ∷ []) ≡ to_number acc s * 10 + (c - 48)
unfolding to_number
to_number-append acc [] c = refl
to_number-append acc (x ∷ s) c = to_number-append (acc * 10 + (x - 48)) s c

to_number-decimal : (f n : ℕ) → n < f → to_number 0 (decimal f n) ≡ n
unfolding to_number decimal
to_number-decimal zero n h = absurd (omega arith)
to_number-decimal (suc f) n h =
    ground
      (arith, to_number-append 0 (decimal f (n / 10)) (48 + n % 10), to_number-decimal f (n / 10))

-- Reading back what `str` prints.
pub to_number-show : (n : ℕ) → to_number 0 (show n) ≡ n
unfolding show
to_number-show n = to_number-decimal (suc n) n (omega arith)

all-append :
    (s : Text) (c : ℕ)
    → all is_digit s ≡ true
    → is_digit c ≡ true
    → all is_digit (s ++ c ∷ []) ≡ true
all-append [] c h k = ground arith
all-append (x ∷ s) c h k = ground (arith, all-append s c)

-- One to nine, then digits: the shape of a positive number with no leading zero.
abbrev pub leads : Text → Bool
leads [] = false
leads (c ∷ s) = (leb b'1' c && leb c b'9') && all is_digit s

leads-append : (s : Text) (c : ℕ) → leads s ≡ true → is_digit c ≡ true → leads (s ++ c ∷ []) ≡ true
leads-append [] c h k = cc
leads-append (x ∷ s) c h k = ground (arith, all-append s c)

leads-decimal : (f n : ℕ) → 0 < n → n < f → leads (decimal f n) ≡ true
unfolding decimal
leads-decimal zero n p h = absurd (omega arith)
leads-decimal (suc f) n p h =
    ground (arith, leads-append (decimal f (n / 10)) (48 + n % 10), leads-decimal f (n / 10))

pub leads-show : (n : ℕ) → 0 < n → leads (show n) ≡ true
unfolding show
leads-show n p = leads-decimal (suc n) n p (omega arith)

length-decimal : (f n k : ℕ) → n < 10 ^ suc k → length (decimal f n) ≤ suc k
unfolding decimal
length-decimal zero n k h = omega arith
length-decimal (suc f) n zero h = ground arith
length-decimal (suc f) n (suc k) h = ground (
  arith,
  pow-suc 10 (suc k),
  length-append (decimal f (n / 10)) ((48 + n % 10) ∷ []),
  length-decimal f (n / 10) k,
)

-- A number below 10 ^ k is printed with at most k digits.
pub length-show : (n k : ℕ) → n < 10 ^ suc k → length (show n) ≤ suc k
unfolding show
length-show n k h = length-decimal (suc n) n k h

-- A text is empty, or another text and its last character.
data Ends : Text → Type 0 where
  nothing : {s : Text} → s ≡ [] → Ends s
  snoc : {s : Text} (front : Text) (c : ℕ) → s ≡ front ++ c ∷ [] → Ends s

Ends-cons : (x : ℕ) (s : Text) → Ends s → Ends (x ∷ s)
Ends-cons x s (nothing e) = snoc [] x (ap (λ t. x ∷ t) e)
Ends-cons x s (snoc front c e) = snoc (x ∷ front) c (ap (λ t. x ∷ t) e)

ends : (s : Text) → Ends s
ends [] = nothing refl
ends (x ∷ s) = Ends-cons x s (ends s)

all-append_left :
    (s : Text) (c : ℕ)
    → all is_digit (s ++ c ∷ []) ≡ true
    → (all is_digit s ≡ true) × (is_digit c ≡ true)
all-append_left [] c h = ground arith
all-append_left (x ∷ s) c h = ground (arith, all-append_left s c)

-- The last character of a number is a digit, and what stands before it has the shape of a number.
leads-append_left :
    (x : ℕ) (s : Text) (c : ℕ)
    → leads (x ∷ (s ++ c ∷ [])) ≡ true
    → (leads (x ∷ s) ≡ true) × (is_digit c ≡ true)
leads-append_left x s c h = ground (arith, all-append_left s c)

le-to_number : (acc : ℕ) (s : Text) → acc ≤ to_number acc s
unfolding to_number
le-to_number acc [] = omega arith
le-to_number acc (c ∷ s) = omega (arith, le-to_number (acc * 10 + (c - 48)) s)

pub leads-pos : (s : Text) → leads s ≡ true → 1 ≤ to_number 0 s
unfolding to_number
leads-pos [] h = cc
leads-pos (c ∷ s) h = ground (arith, le-to_number (0 * 10 + (c - 48)) s)

mod_ten : (m d : ℕ) → d < 10 → ((m * 10 + d) / 10 ≡ m) × ((m * 10 + d) % 10 ≡ d)
mod_ten m d h = omega arith

decimal-snoc :
    (f m d : ℕ) → 1 ≤ m → d < 10 → decimal (suc f) (m * 10 + d) ≡ decimal f m ++ (48 + d) ∷ []
unfolding decimal
decimal-snoc f m d p h =
    rw (le→ltb (m * 10 + d) 10 (omega arith), (mod_ten m d h).0, (mod_ten m d h).1) refl

decimal_one : (f c : ℕ) → leads (c ∷ []) ≡ true → decimal (suc f) (to_number 0 (c ∷ [])) ≡ c ∷ []
unfolding decimal to_number
decimal_one f c h = ground arith

code_of_digit : (c : ℕ) → is_digit c ≡ true → (48 + (c - 48) ≡ c) × (c - 48 < 10)
code_of_digit c h = ground arith

decimal_many :
    (f c : ℕ) (t : Text)
    → 1 ≤ to_number 0 t
    → is_digit c ≡ true
    → decimal f (to_number 0 t) ≡ t
    → decimal (suc f) (to_number 0 (t ++ c ∷ [])) ≡ t ++ c ∷ []
decimal_many f c t p d ih = rw to_number-append (
    rw (decimal-snoc f (to_number 0 t) (c - 48) p (code_of_digit c d).1)
      (rw (ih, (code_of_digit c d).0) refl))

last-lt : (m c f : ℕ) → 1 ≤ m → m * 10 + c < suc f → m < f
last-lt m c f p h = omega arith

-- One step of reading back: the digits before the last one are read back already.
read_back :
    (f : ℕ) (s : Text)
    → ((t : Text) → leads t ≡ true → to_number 0 t < f → decimal f (to_number 0 t) ≡ t)
    → Ends s
    → leads s ≡ true
    → to_number 0 s < suc f
    → decimal (suc f) (to_number 0 s) ≡ s
read_back f s ih (nothing e) h k = let no_digit : leads [] ≡ true = rw e at h in cc
read_back f s ih (snoc [] c e) h k = rw e (decimal_one f c (rw e at h))
read_back f s ih (snoc (x ∷ front) c e) h k =
    let (l, d) = leads-append_left x front c (rw e at h) in
    let p = leads-pos (x ∷ front) l in
    let k' : to_number 0 (x ∷ front ++ c ∷ []) < suc f = rw e at k in
    rw e (
      decimal_many f c (x ∷ front) p d (
        ih (x ∷ front) l
          (last-lt (to_number 0 (x ∷ front)) (c - 48) f p (rw to_number-append at k'))))

decimal-to_number :
    (f : ℕ) (s : Text) → leads s ≡ true → to_number 0 s < f → decimal f (to_number 0 s) ≡ s
decimal-to_number zero s h k = absurd (omega arith)
decimal-to_number (suc f) s h k = read_back f s (decimal-to_number f) (ends s) h k

-- Printing back what was read.
pub show-to_number : (s : Text) → leads s ≡ true → show (to_number 0 s) ≡ s
unfolding show
show-to_number s h = decimal-to_number (suc (to_number 0 s)) s h (omega arith)
