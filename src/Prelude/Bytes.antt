-- ===== src/Prelude/Bytes.antt =====
-- Texts and byte strings as lists of code points, compared and searched as Python does.
use Prim.Native.Nat.{ℕ, ◌+◌, ◌-◌, ◌*◌}
use Prim.Native.Char.{code}
use Prim.Native.String.{String}
use mathlib.Core.Path.{◌≡◌, refl, ap₂}
use mathlib.Core.Bool.{Bool, true, false, ◌&&◌, ◌||◌}
use mathlib.Core.List.{List, [], ◌∷◌, ◌++◌}
use native.Mathlib.Omega.{arith}
use package.xfl_clash.Prelude.Tests.{◌==◌, leb, and_true}
use package.xfl_clash.Prelude.Lists.{all}

abbrev pub Text : Type 0
Text = List ℕ

-- The code points of a literal.
abbrev pub codes : String → Text
codes String.[] = []
codes (String.◌∷◌ c s) = code c ∷ codes s

infix 50 ◌==ₜ◌
-- `==` of two texts.
unfoldable pub ◌==ₜ◌ : Text → Text → Bool
[] ==ₜ [] = true
[] ==ₜ (y ∷ ys) = false
(x ∷ xs) ==ₜ [] = false
(x ∷ xs) ==ₜ (y ∷ ys) = x == y && xs ==ₜ ys

pub ==ₜ_sound : (s t : Text) → (s ==ₜ t) ≡ true → s ≡ t
unfolding ◌==ₜ◌
==ₜ_sound [] [] h = refl
==ₜ_sound [] (y ∷ ys) h = cc
==ₜ_sound (x ∷ xs) [] h = cc
==ₜ_sound (x ∷ xs) (y ∷ ys) h = ground (arith, ==ₜ_sound xs ys)

pub ==ₜ_refl : (s : Text) → (s ==ₜ s) ≡ true
unfolding ◌==ₜ◌
==ₜ_refl [] = refl
==ₜ_refl (x ∷ xs) = ground (arith, ==ₜ_refl xs)

-- `s.startswith(p)`
unfoldable pub starts_with : Text → Text → Bool
starts_with s [] = true
starts_with [] (c ∷ p) = false
starts_with (x ∷ s) (c ∷ p) = x == c && starts_with s p

-- `p in s` for texts
unfoldable pub contains : Text → Text → Bool
unfolding starts_with
contains [] p = starts_with [] p
contains (x ∷ s) p = starts_with (x ∷ s) p || contains s p

-- `x in (…)` for a tuple or a set of texts
unfoldable pub is_one_of : Text → List Text → Bool
unfolding ◌==ₜ◌
is_one_of s [] = false
is_one_of s (t ∷ ts) = s ==ₜ t || is_one_of s ts

abbrev pub is_digit : ℕ → Bool
is_digit c = leb b'0' c && leb c b'9'

-- `s.isdigit()` of bytes: not empty, and decimal digits only.
unfoldable pub all_digits : Text → Bool
all_digits [] = false
all_digits (c ∷ s) = is_digit c && all is_digit s

-- `int(s)` of decimal digits.
unfoldable pub to_number : ℕ → Text → ℕ
to_number n [] = n
to_number n (c ∷ s) = to_number (n * 10 + (c - 48)) s

-- The characters that `str` takes for white space, and those that `bytes` does.
unfoldable pub is_space : ℕ → Bool
is_space c =
    (leb 9 c && leb c 13)
    || (leb 28 c && leb c 32)
    || c == 0x85
    || c == 0xa0
    || c == 0x1680
    || (leb 0x2000 c && leb c 0x200a)
    || c == 0x2028
    || c == 0x2029
    || c == 0x202f
    || c == 0x205f
    || c == 0x3000

unfoldable pub is_space_byte : ℕ → Bool
is_space_byte c = (leb 9 c && leb c 13) || c == 32

-- `s.lstrip`, `s.rstrip` and `s.strip`, by a class of characters.
unfoldable pub lstrip : (ℕ → Bool) → Text → Text
lstrip p [] = []
lstrip p (c ∷ s) = elim (p c) [ true ↦ lstrip p s | false ↦ c ∷ s ]

abbrev rstrip_cons : Bool → ℕ → Text → Text
rstrip_cons true c [] = []
rstrip_cons true c (d ∷ s) = c ∷ d ∷ s
rstrip_cons false c s = c ∷ s

unfoldable pub rstrip : (ℕ → Bool) → Text → Text
rstrip p [] = []
rstrip p (c ∷ s) = rstrip_cons (p c) c (rstrip p s)

unfoldable pub strip : (ℕ → Bool) → Text → Text
unfolding lstrip rstrip
strip p s = rstrip p (lstrip p s)

abbrev close_word : Text → List Text → List Text
close_word [] ws = ws
close_word (c ∷ w) ws = (c ∷ w) ∷ ws

abbrev words : Text → Text → List Text
words w [] = close_word w []
words w (c ∷ s) = elim (is_space c) [
  | true ↦ close_word w (words [] s)
  | false ↦ words (w ++ c ∷ []) s
]

-- `s.split()`
unfoldable pub split : Text → List Text
unfolding is_space
split s = words [] s

-- `==` of two lists of texts.
unfoldable pub same_texts : List Text → List Text → Bool
unfolding ◌==ₜ◌
same_texts [] [] = true
same_texts [] (t ∷ ts) = false
same_texts (s ∷ ss) [] = false
same_texts (s ∷ ss) (t ∷ ts) = s ==ₜ t && same_texts ss ts

pub same_texts_sound : (ss ts : List Text) → same_texts ss ts ≡ true → ss ≡ ts
unfolding same_texts
same_texts_sound [] [] h = refl
same_texts_sound [] (t ∷ ts) h = cc
same_texts_sound (s ∷ ss) [] h = cc
same_texts_sound (s ∷ ss) (t ∷ ts) h =
    let (e, f) = and_true (s ==ₜ t) (same_texts ss ts) h in
    ap₂ ◌∷◌ (==ₜ_sound s t e) (same_texts_sound ss ts f)
