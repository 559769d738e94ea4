-- ===== src/Prelude/Int.antt =====
-- Signed integers over the native numbers, and the two's complement reading of a 32-bit word.
use Prim.Native.Nat.{ℕ, ◌-◌, ◌%◌, ◌^◌}
use mathlib.Core.Path.{◌≡◌}
use mathlib.Core.Bool.{Bool, true, false}
use native.Mathlib.Omega.{arith}
use package.xfl_clash.Prelude.Tests.{◌==◌, ltb, if◌then◌else◌}

-- `negsuc n` is -(n + 1).
pub data ℤ : Type 0 where
  pos : ℕ → ℤ
  negsuc : ℕ → ℤ

infix 50 ◌==ℤ◌
abbrev pub ◌==ℤ◌ : ℤ → ℤ → Bool
pos a ==ℤ pos b = a == b
pos a ==ℤ negsuc b = false
negsuc a ==ℤ pos b = false
negsuc a ==ℤ negsuc b = a == b

pub ==ℤ_sound : (a b : ℤ) → (a ==ℤ b) ≡ true → a ≡ b
==ℤ_sound (pos a) (pos b) h = ground arith
==ℤ_sound (negsuc a) (negsuc b) h = ground arith
==ℤ_sound (pos a) (negsuc b) h = cc
==ℤ_sound (negsuc a) (pos b) h = cc

pub ==ℤ_refl : (a : ℤ) → (a ==ℤ a) ≡ true
==ℤ_refl (pos a) = ground arith
==ℤ_refl (negsuc a) = ground arith

-- The struct format `i`: a 32-bit word as a signed number.
abbrev pub signed_32 : ℕ → ℤ
signed_32 n = if ltb n (2 ^ 31) then pos n else negsuc (2 ^ 32 - 1 - n)

-- `x & 0x00ffffff`, which Python computes on the infinite two's complement.
abbrev pub low_24 : ℤ → ℕ
low_24 (pos n) = n % 2 ^ 24
low_24 (negsuc n) = 2 ^ 24 - 1 - n % 2 ^ 24
