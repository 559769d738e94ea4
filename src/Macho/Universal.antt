-- ===== src/Macho/Universal.antt =====
-- The universal (FAT) containers of tool/sentry_macho.py: `_fat_entries` and `inspect_macho`.
pub mod Slices
pub mod Images
use xfl_clash.Prelude.{
  ℕ, zero, suc, ◌+◌, ◌-◌, ◌*◌, ◌%◌, ◌^◌, Bool, true, false, not, ◌&&◌, ◌||◌, Option, none, some,
  List, [], ◌∷◌, ◌++◌, ltb, leb, ◌==◌, if◌then◌else◌, Text, ◌==ₜ◌, any, length, Result, ok, err,
  ◌>>=◌, ◌>>◌, raise_if,
}
use xfl_clash.Prelude.Int.{ℤ, ◌==ℤ◌, signed_32, low_24}
use xfl_clash.Binary.{
  Bytes, slice, Endian, little, big, Field, word, Fault, rejected, unpack_from, size, num_at,
}
use xfl_clash.Macho.Error.{
  MachoError, bad_universal_header, bad_universal_slice, overlapping_slices, duplicate_cpu,
  truncated_header, unsupported_header, slice_cpu_mismatch, duplicate_architecture,
}
use xfl_clash.Macho.Image.Types.{Image}
use xfl_clash.Macho.Image.{thin_magic, thin}

-- The table FAT: byte order, and whether the entries have 64-bit bounds.
unfoldable pub fat_magic : Bytes → Option (Endian × Bool)
fat_magic magic =
    if magic ==ₜ (0xca ∷ 0xfe ∷ 0xba ∷ 0xbe ∷ [])
    then some (big, false)
    else if magic ==ₜ (0xbe ∷ 0xba ∷ 0xfe ∷ 0xca ∷ [])
    then some (little, false)
    else if magic ==ₜ (0xca ∷ 0xfe ∷ 0xba ∷ 0xbf ∷ [])
    then some (big, true)
    else if magic ==ₜ (0xbf ∷ 0xba ∷ 0xfe ∷ 0xca ∷ [])
    then some (little, true)
    else none

abbrev pub is_some {ℓ} : {A : Type ℓ} → Option A → Bool
is_some none = false
is_some (some a) = true

-- The magic probe of the runtime enumeration.
unfoldable pub is_macho : Bytes → Bool
unfolding thin_magic fat_magic
is_macho bytes = is_some (thin_magic (slice bytes 0 4)) || is_some (fat_magic (slice bytes 0 4))

-- `iiQQII` and `iiIII`.
abbrev pub entry_format : Bool → List Field
entry_format true = word 4 ∷ word 4 ∷ word 8 ∷ word 8 ∷ word 4 ∷ word 4 ∷ []
entry_format false = word 4 ∷ word 4 ∷ word 4 ∷ word 4 ∷ word 4 ∷ []

-- The half-open range of one slice.
pub record Range : Type 0 where
  pub begin : ℕ
  pub stop : ℕ

-- `any(offset < stop and offset + size > begin for begin, stop in ranges)`
abbrev pub overlaps : ℕ → ℕ → List Range → Bool
overlaps offset total ranges = any (λ r. ltb offset r.stop && ltb r.begin (offset + total)) ranges

pub record Entry : Type 0 where
  pub cpu_type : ℤ
  pub cpu_subtype : ℤ
  pub offset : ℕ
  pub size : ℕ

-- The bounds and CPUs that `_fat_entries` has seen, and its result so far.
pub record Entries : Type 0 where
  pub result : List Entry
  pub ranges : List Range

-- Two CPUs are one if their types agree, and their subtypes without the capability bits.
abbrev pub same_cpu : ℤ → ℤ → Entry → Bool
same_cpu cpu subtype e = cpu ==ℤ e.cpu_type && low_24 subtype == low_24 e.cpu_subtype

pub add_entry : ℕ → ℕ → Entries → ℤ → ℤ → ℕ → ℕ → ℕ → Result (Fault MachoError) Entries
add_entry all end seen cpu subtype offset total alignment = do
  raise_if
      (ltb offset end
        || total == 0
        || ltb all (offset + total)
        || ltb 31 alignment
        || not (offset % 2 ^ alignment == 0))
      (rejected bad_universal_slice)
  raise_if (overlaps offset total seen.ranges) (rejected overlapping_slices)
  raise_if (any (same_cpu cpu subtype) seen.result) (rejected duplicate_cpu)
  ok (record {
    result =
        seen.result
        ++ (record { cpu_type = cpu; cpu_subtype = subtype; offset = offset; size = total } ∷ []);
    ranges = seen.ranges ++ (record { begin = offset; stop = offset + total } ∷ []);
  })

-- `for index in range(count)`, from the entry at `at` on.
pub read_entries : Endian → Bool → Bytes → ℕ → ℕ → ℕ → Entries → Result (Fault MachoError) Entries
read_entries e wide bytes end at zero seen = ok seen
read_entries e wide bytes end at (suc count) seen =
    unpack_from e (entry_format wide) bytes at >>= λ info.
    add_entry (length bytes) end seen (signed_32 (num_at info 0)) (signed_32 (num_at info 1))
      (num_at info 2) (num_at info 3) (num_at info 4)
    >>= λ seen'. read_entries e wide bytes end (at + size (entry_format wide)) count seen'

abbrev pub known_fat : Option (Endian × Bool) → Bool → Result (Fault MachoError) (Endian × Bool)
known_fat (some m) false = ok m
known_fat (some m) true = err (rejected bad_universal_header)
known_fat none b = err (rejected bad_universal_header)

pub fat_entries_of : Endian → Bool → Bytes → ℕ → Result (Fault MachoError) (List Entry)
fat_entries_of e wide bytes count =
    let end = 8 + count * size (entry_format wide) in
    raise_if (not (ltb 0 count && leb count 64) || ltb (length bytes) end)
      (rejected bad_universal_header)
    >> (read_entries e wide bytes end 8 count (record { result = []; ranges = [] }) >>= λ seen.
        ok seen.result)

unfoldable pub fat_entries : Bytes → Result (Fault MachoError) (List Entry)
unfolding fat_entries_of read_entries add_entry fat_magic unpack_from ◌==ₜ◌
fat_entries bytes = do
  magic ← known_fat (fat_magic (slice bytes 0 4)) (ltb (length bytes) 8)
  fields ← unpack_from magic.0 (word 4 ∷ []) bytes 4
  fat_entries_of magic.0 magic.1 bytes (num_at fields 0)

pub record Inventory : Type 0 where
  pub variants : List Image
  pub is_fat : Bool

-- The variants of `inspect_macho` and the ranges that they take.
pub record Variants : Type 0 where
  pub variants : List Image
  pub ranges : List Range

pub add_variant : Bytes → ℕ → Variants → ℤ → ℤ → ℕ → ℕ → Result (Fault MachoError) Variants
add_variant bytes end seen cpu subtype offset total = do
  raise_if (ltb offset end || total == 0 || ltb (length bytes) (offset + total))
      (rejected bad_universal_slice)
  raise_if (overlaps offset total seen.ranges) (rejected overlapping_slices)
  image ← thin bytes offset total
  raise_if (not (image.cpu_type ==ℤ cpu) || not (image.cpu_subtype ==ℤ subtype))
      (rejected slice_cpu_mismatch)
  raise_if (any (λ v. image.architecture ==ₜ v.architecture) seen.variants)
      (rejected duplicate_architecture)
  ok (record {
    variants = seen.variants ++ (image ∷ []);
    ranges = seen.ranges ++ (record { begin = offset; stop = offset + total } ∷ []);
  })

pub read_variants :
    Endian → Bool → Bytes → ℕ → ℕ → ℕ → Variants → Result (Fault MachoError) Variants
read_variants e wide bytes end at zero seen = ok seen
read_variants e wide bytes end at (suc count) seen =
    unpack_from e (entry_format wide) bytes at >>= λ info.
    add_variant bytes end seen (signed_32 (num_at info 0)) (signed_32 (num_at info 1))
      (num_at info 2) (num_at info 3)
    >>= λ seen'. read_variants e wide bytes end (at + size (entry_format wide)) count seen'

pub universal_of : Endian → Bool → Bytes → ℕ → Result (Fault MachoError) Inventory
universal_of e wide bytes count =
    let end = 8 + count * size (entry_format wide) in
    raise_if (not (ltb 0 count && leb count 64) || ltb (length bytes) end)
      (rejected bad_universal_header)
    >> (read_variants e wide bytes end 8 count (record { variants = []; ranges = [] }) >>= λ seen.
        ok (record { variants = seen.variants; is_fat = true }))

pub universal : Bytes → Option (Endian × Bool) → Result (Fault MachoError) Inventory
universal bytes none = err (rejected unsupported_header)
universal bytes (some (e, wide)) = do
  raise_if (ltb (length bytes) 8) (rejected unsupported_header)
  fields ← unpack_from e (word 4 ∷ []) bytes 4
  universal_of e wide bytes (num_at fields 0)

unfoldable pub inspect_macho : Bytes → Result (Fault MachoError) Inventory
unfolding universal universal_of read_variants add_variant thin fat_magic unpack_from ◌==ₜ◌
inspect_macho bytes =
    raise_if (ltb (length bytes) 4) (rejected truncated_header)
    >> (if is_some (thin_magic (slice bytes 0 4))
        then (thin bytes 0 (length bytes) >>= λ image.
            ok (record { variants = image ∷ []; is_fat = false }))
        else universal bytes (fat_magic (slice bytes 0 4)))
