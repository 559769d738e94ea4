-- ===== src/Binary.antt =====
-- The parts of Python's `struct` and of byte slices that the object-file readers of tool/ use.
use xfl_clash.Prelude.{
  ℕ, zero, suc, ◌+◌, ◌-◌, ◌*◌, ◌/◌, ◌%◌, ◌≤◌, ◌<◌, true, false, List, [], ◌∷◌, ◌≡◌, refl, Option,
  none, some, ltb, leb, ◌==◌, if◌then◌else◌, length, take, drop, length-take, length-drop, arith,
  Result, ok, err, Ensures, Text, ◌⊎◌, inl, inr, Bool-cases,
}

abbrev pub Bytes : Type 0
Bytes = List ℕ

-- `data[i:j]`
abbrev pub slice : Bytes → ℕ → ℕ → Bytes
slice bytes i j = take (j - i) (drop i bytes)

pub data Endian : Type 0 where
  little big : Endian

abbrev pub little_number : Bytes → ℕ
little_number [] = 0
little_number (b ∷ bs) = b + 256 * little_number bs

abbrev pub big_number : ℕ → Bytes → ℕ
big_number n [] = n
big_number n (b ∷ bs) = big_number (n * 256 + b) bs

abbrev pub number : Endian → Bytes → ℕ
number little bs = little_number bs
number big bs = big_number 0 bs

-- A format: `word 2`, `word 4`, `word 8` for H, I and i, Q; `text n` for a field `ns`.
pub data Field : Type 0 where
  word text : ℕ → Field

pub data Value : Type 0 where
  num : ℕ → Value
  raw : Bytes → Value

abbrev pub width : Field → ℕ
width (word n) = n
width (text n) = n

-- `Struct.size`, with no padding under an explicit byte order.
abbrev pub size : List Field → ℕ
size [] = 0
size (f ∷ fs) = width f + size fs

abbrev pub decode : Endian → Field → Bytes → Value
decode e (word n) bs = num (number e bs)
decode e (text n) bs = raw bs

abbrev pub decode_all : Endian → List Field → Bytes → List Value
decode_all e [] bs = []
decode_all e (f ∷ fs) bs = decode e f (take (width f) bs) ∷ decode_all e fs (drop (width f) bs)

-- Exceptions that are not the reader's own: `struct.error`, `IndexError`, `KeyError`, and a loop
-- that outlives the rounds that the model grants it.
pub data Fault (E : Type 0) : Type 0 where
  rejected : E → Fault E
  struct_error index_error key_error no_rounds : Fault E

-- The reader's own exception class, and no other.
abbrev pub IsRejection : {E : Type 0} → Fault E → Type 0
IsRejection (rejected e) = Unit
IsRejection struct_error = ⊥
IsRejection index_error = ⊥
IsRejection key_error = ⊥
IsRejection no_rounds = ⊥

-- `Struct.unpack_from`
unfoldable pub unpack_from :
    {E : Type 0} → Endian → List Field → Bytes → ℕ → Result (Fault E) (List Value)
unpack_from e fs bytes offset =
    if leb (offset + size fs) (length bytes)
    then ok (decode_all e fs (drop offset bytes))
    else err struct_error

-- `data[i]`
unfoldable pub byte_at : {E : Type 0} → Bytes → ℕ → Result (Fault E) ℕ
byte_at [] i = err index_error
byte_at (b ∷ bs) zero = ok b
byte_at (b ∷ bs) (suc i) = byte_at bs i

-- `fields[i]` where the format has a number, or a text, at that place.
abbrev pub num_at : List Value → ℕ → ℕ
num_at [] i = 0
num_at (num n ∷ vs) zero = n
num_at (raw bs ∷ vs) zero = 0
num_at (v ∷ vs) (suc i) = num_at vs i

abbrev pub raw_at : List Value → ℕ → Bytes
raw_at [] i = []
raw_at (num n ∷ vs) zero = []
raw_at (raw bs ∷ vs) zero = bs
raw_at (v ∷ vs) (suc i) = raw_at vs i

pub unpack_from-eq_ok :
    {E : Type 0} (e : Endian) (fs : List Field) (bytes : Bytes) (offset : ℕ)
    → offset + size fs ≤ length bytes
    → unpack_from {E = E} e fs bytes offset ≡ ok (decode_all e fs (drop offset bytes))
unfolding unpack_from
unpack_from-eq_ok e fs bytes offset h = ground arith

pub byte_at-eq_ok :
    {E : Type 0} (bytes : Bytes) (i : ℕ)
    → i < length bytes
    → (b : ℕ) × (byte_at {E = E} bytes i ≡ ok b)
unfolding byte_at
byte_at-eq_ok [] i h = elim h [ ]
byte_at-eq_ok (b ∷ bs) zero h = (b, refl)
byte_at-eq_ok (b ∷ bs) (suc i) h = byte_at-eq_ok bs i (omega arith)

pub length-slice :
    (bytes : Bytes) (i j : ℕ) → i ≤ j → j ≤ length bytes → length (slice bytes i j) ≡ j - i
length-slice bytes i j h k = omega (arith, length-take (j - i) (drop i bytes), length-drop i bytes)

abbrev prepend : ℕ → Option Bytes → Option Bytes
prepend b none = none
prepend b (some s) = some (b ∷ s)

-- The bytes before the first one equal to `c`, `none` where there is no such byte.
unfoldable pub until : ℕ → Bytes → Option Bytes
until c [] = none
until c (b ∷ bs) = elim (b == c) [ true ↦ some [] | false ↦ prepend b (until c bs) ]

abbrev pub hex_digit : ℕ → ℕ
hex_digit n = if ltb n 10 then 48 + n else 87 + n

-- `bytes.hex()`
unfoldable pub hex : Bytes → Text
hex [] = []
hex (b ∷ bs) = hex_digit (b / 16) ∷ hex_digit (b % 16) ∷ hex bs

-- The digit of a number below 16 in a hexadecimal text in lower case.
abbrev pub IsDigitOf : ℕ → ℕ → Type 0
IsDigitOf n c = ((n < 10) × (c ≡ b'0' + n)) ⊎ ((10 ≤ n) × (c + 10 ≡ b'a' + n))

-- A text gives the bytes by two digits each.
abbrev pub IsHexOf : Bytes → Text → Type 0
IsHexOf [] [] = Unit
IsHexOf [] (c ∷ t) = ⊥
IsHexOf (b ∷ bs) [] = ⊥
IsHexOf (b ∷ bs) (c ∷ []) = ⊥
IsHexOf (b ∷ bs) (c ∷ d ∷ t) = IsDigitOf (b / 16) c × IsDigitOf (b % 16) d × IsHexOf bs t

hex_digit-IsDigitOf : (n : ℕ) → IsDigitOf n (hex_digit n)
hex_digit-IsDigitOf n = elim (Bool-cases (ltb n 10)) [
  | inl e ↦ inl (ground (arith, e), ground (arith, e))
  | inr e ↦ inr (ground (arith, e), ground (arith, e))
]

pub hex-IsHexOf : (bs : Bytes) → IsHexOf bs (hex bs)
unfolding hex
hex-IsHexOf [] = tt
hex-IsHexOf (b ∷ bs) = (hex_digit-IsDigitOf (b / 16), hex_digit-IsDigitOf (b % 16), hex-IsHexOf bs)

pub length-hex : (bs : Bytes) → length (hex bs) ≡ 2 * length bs
unfolding hex
length-hex [] = refl
length-hex (b ∷ bs) = omega (arith, length-hex bs)

-- A read inside the bytes does not raise.
pub unpack_from-Ensures :
    (E : Type 0) (e : Endian) (fs : List Field) (bytes : Bytes) (offset : ℕ)
    → offset + size fs ≤ length bytes
    → Ensures (IsRejection {E = E}) (λ _. Unit) (unpack_from e fs bytes offset)
unpack_from-Ensures E e fs bytes offset h = rw (unpack_from-eq_ok {E = E} e fs bytes offset h) tt
