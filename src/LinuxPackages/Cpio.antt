-- ===== src/LinuxPackages/Cpio.antt =====
-- `safe_name` and `cpio_members` of tool/verify_linux_packages.py. `int(…, 16)` and `bytes.decode`
-- are parameters.
pub mod Roundtrip
pub mod Ends
use xfl_clash.Prelude.{
  ℕ, zero, suc, ◌+◌, ◌-◌, ◌*◌, ◌%◌, Bool, true, false, not, ◌&&◌, ◌||◌, Option, none, some, List,
  [], ◌∷◌, ◌++◌, ltb, leb, ◌==◌, if◌then◌else◌, Text, codes, ◌==ₜ◌, any, take, drop, length,
  starts_with, is_one_of, Result, ok, err, ◌>>=◌, ◌>>◌, raise_if,
}
use xfl_clash.Prelude.Int.{ℤ, pos, negsuc}
use xfl_clash.Binary.{Bytes}
use xfl_clash.LinuxPackages.Error.{
  PackageError, unsafe_package_path, unsafe_cpio_size, truncated_cpio, unsupported_cpio,
  invalid_cpio_header, unsafe_cpio_name, invalid_cpio_name, not_utf8, index_error, no_rounds,
}

-- The parts of a path between its slashes.
abbrev pub parts : Text → Text → List Text
parts w [] = w ∷ []
parts w (c ∷ s) = elim (c == b'/') [ true ↦ w ∷ parts [] s | false ↦ parts (w ++ c ∷ []) s ]

-- `raw.removeprefix('./')`
abbrev pub without_dot : Text → Text
without_dot [] = []
without_dot (c ∷ []) = c ∷ []
without_dot (c ∷ d ∷ s) = if c == b'.' && d == b'/' then s else c ∷ d ∷ s

abbrev pub is_unsafe : Text → Bool
is_unsafe name =
    starts_with name (codes "/")
    || any (λ p. p ==ₜ codes "..") (parts [] name)
    || any (λ c. c == 92 || c == 0) name

unfoldable pub safe_name : Text → Result PackageError Text
safe_name raw = raise_if (is_unsafe (without_dot raw)) unsafe_package_path >> ok (without_dot raw)

pub record Member : Type 0 where
  pub name : Text
  pub mode : ℤ
  pub content : Bytes

-- A generator of members: what it yields, and how it ends.
pub data Stream : Type 0 where
  finished : Stream
  broken : PackageError → Stream
  yields : Member → Stream → Stream

abbrev pub max_size : ℕ
max_size = 512 * 1024 * 1024

-- `exact`: the bytes read, and those that are left.
unfoldable pub exact : ℕ → Bytes → Result PackageError (Bytes × Bytes)
exact size bytes = do
  raise_if (ltb max_size size) unsafe_cpio_size
  raise_if (ltb (length bytes) size) truncated_cpio
  ok (take size bytes, drop size bytes)

-- A size that the header gives may be negative.
abbrev pub exact_int : ℤ → Bytes → Result PackageError (Bytes × Bytes)
exact_int (pos n) bytes = exact n bytes
exact_int (negsuc n) bytes = err unsafe_cpio_size

-- `-n % 4`
abbrev pub padding : ℕ → ℕ
padding n = (4 - n % 4) % 4

abbrev pub name_size : ℤ → Result PackageError ℕ
name_size (negsuc n) = err unsafe_cpio_name
name_size (pos n) = if leb 1 n && leb n 4096 then ok n else err unsafe_cpio_name

abbrev pub size_of : ℤ → ℕ
size_of (pos n) = n
size_of (negsuc n) = 0

-- The bytes but the last, where the last is zero.
abbrev pub terminated : Bytes → Result PackageError Bytes
terminated [] = err invalid_cpio_name
terminated (b ∷ []) = if b == 0 then ok [] else err invalid_cpio_name
terminated (b ∷ c ∷ bs) = terminated (c ∷ bs) >>= λ rest. ok (b ∷ rest)

abbrev pub magics : List Bytes
magics = codes "070701" ∷ codes "070702" ∷ []

abbrev pub trailer : Text
trailer = codes "TRAILER!!!"

-- The fields of a header that are used.
pub record Header : Type 0 where
  pub mode : ℤ
  pub size : ℤ
  pub namesize : ℤ

-- A `ValueError` of `int` is raised as `invalid_cpio_header`.
abbrev pub number_of : Option ℤ → Result PackageError ℤ
number_of none = err invalid_cpio_header
number_of (some v) = ok v

abbrev pub decoded_name : Option Text → Result PackageError Text
decoded_name none = err not_utf8
decoded_name (some t) = ok t

-- `values[i]`
abbrev pub value_at : List ℤ → ℕ → Result PackageError ℤ
value_at [] i = err index_error
value_at (v ∷ vs) zero = ok v
value_at (v ∷ vs) (suc i) = value_at vs i

abbrev pub header_of : List ℤ → Result PackageError Header
header_of vs = do
  mode ← value_at vs 1
  size ← value_at vs 6
  namesize ← value_at vs 11
  ok (record { mode = mode; size = size; namesize = namesize })

module _ (int_16 : Bytes → Option ℤ) (utf8 : Bytes → Option Text) where
  -- `[int(header[i:i+8], 16) for i in …]`
  abbrev pub values : ℕ → Bytes → Result PackageError (List ℤ)
  values zero bytes = ok []
  values (suc n) bytes =
      number_of (int_16 (take 8 bytes)) >>= λ v. values n (drop 8 bytes) >>= λ rest. ok (v ∷ rest)

  -- The rest of a record behind its header, and what is left behind it.
  pub read_body : Header → Bytes → Result PackageError (Member × Bytes)
  read_body header rest = do
    namesize ← name_size header.namesize
    (field, rest1) ← exact namesize rest
    raw ← terminated field
    text ← decoded_name (utf8 raw)
    name ← safe_name text
    (_, rest2) ← exact (padding (110 + namesize)) rest1
    (content, rest3) ← exact_int header.size rest2
    (_, rest4) ← exact (padding (size_of header.size)) rest3
    ok (record { name = name; mode = header.mode; content = content }, rest4)

  pub read_record : Bytes → Result PackageError (Member × Bytes)
  read_record bytes = do
    (header, rest) ← exact 110 bytes
    raise_if (not (is_one_of (take 6 header) magics)) unsupported_cpio
    parsed ← (values 13 (drop 6 header) >>= header_of)
    read_body parsed rest

  -- `while True`, by rounds.
  pub members_from : ℕ → Bytes → Stream
  members_from zero bytes = broken no_rounds
  members_from (suc rounds) bytes = elim (read_record bytes) [
    | err e ↦ broken e
    | ok (member, rest) ↦ elim (member.name ==ₜ trailer) [
      | true ↦ finished
      | false ↦ yields member (members_from rounds rest)
    ]
  ]

  unfoldable pub cpio_members : Bytes → Stream
  unfolding members_from read_record read_body safe_name exact is_one_of starts_with ◌==ₜ◌
  cpio_members bytes = members_from (length bytes + 1) bytes
