-- ===== src/Macho/Image.antt =====
-- `_thin` of tool/sentry_macho.py: one Mach-O image, a whole file or a slice of a universal one.
pub mod Types
pub mod Commands
pub mod Sound
use xfl_clash.Prelude.{
  ℕ, zero, suc, ◌+◌, ◌-◌, ◌*◌, Bool, true, false, not, ◌&&◌, ◌||◌, Option, none, some, List, [],
  ◌∷◌, ◌++◌, ltb, leb, ◌==◌, if◌then◌else◌, Text, codes, ◌==ₜ◌, is_one_of, length, Result, ok, err,
  ◌>>=◌, ◌>>◌, raise_if,
}
use xfl_clash.Prelude.Int.{ℤ, pos, ◌==ℤ◌, signed_32}
use xfl_clash.Binary.{
  Bytes, slice, Endian, little, big, Field, word, Fault, rejected, unpack_from, size, num_at,
}
use xfl_clash.Macho.Error.{
  MachoError, unsupported_magic, bad_slice_bounds, unsupported_image, bad_command_table,
  conflicting_identifiers,
}
use Types.{Image, Scan, no_commands}
use Commands.{read_commands}

-- The table THIN: byte order, and whether the image has 64 bits.
unfoldable pub thin_magic : Bytes → Option (Endian × Bool)
thin_magic magic =
    if magic ==ₜ (0xce ∷ 0xfa ∷ 0xed ∷ 0xfe ∷ [])
    then some (little, false)
    else if magic ==ₜ (0xcf ∷ 0xfa ∷ 0xed ∷ 0xfe ∷ [])
    then some (little, true)
    else if magic ==ₜ (0xfe ∷ 0xed ∷ 0xfa ∷ 0xce ∷ [])
    then some (big, false)
    else if magic ==ₜ (0xfe ∷ 0xed ∷ 0xfa ∷ 0xcf ∷ [])
    then some (big, true)
    else none

abbrev pub image_format : Bool → List Field
image_format true = word 4 ∷ word 4 ∷ word 4 ∷ word 4 ∷ word 4 ∷ word 4 ∷ word 4 ∷ word 4 ∷ []
image_format false = word 4 ∷ word 4 ∷ word 4 ∷ word 4 ∷ word 4 ∷ word 4 ∷ word 4 ∷ []

unfoldable pub architecture_of : ℤ → Option Text
architecture_of cpu =
    if cpu ==ℤ pos 7
    then some (codes "i386")
    else if cpu ==ℤ pos 12
    then some (codes "arm")
    else if cpu ==ℤ pos 0x01000007
    then some (codes "x86_64")
    else if cpu ==ℤ pos 0x0100000c
    then some (codes "arm64")
    else none

-- MH_OBJECT, MH_EXECUTE, MH_DYLIB, MH_BUNDLE and MH_DSYM.
abbrev pub is_supported_type : ℕ → Bool
is_supported_type t = t == 1 || t == 2 || t == 6 || t == 8 || t == 10

abbrev pub supported : Option Text → Bool → Result (Fault MachoError) Text
supported (some a) true = ok a
supported (some a) false = err (rejected unsupported_image)
supported none b = err (rejected unsupported_image)

abbrev identifier : List Text → Text
identifier [] = []
identifier (i ∷ is) = i

-- The conclusions from the load commands, whose walk must end where the table does.
pub image_of : Endian → Text → ℤ → ℤ → ℕ → ℕ → ℕ → ℕ → Scan → Result (Fault MachoError) Image
image_of e architecture cpu subtype filetype start total stop scan = do
  raise_if (not (scan.cursor == stop) || ltb 1 (length scan.identifiers))
      (rejected conflicting_identifiers)
  ok (record {
    architecture = architecture;
    uuid = identifier scan.identifiers;
    filetype = filetype;
    has_debug_info =
        is_one_of (codes "__debug_info") scan.debug_sections
        || is_one_of (codes "__zdebug_info") scan.debug_sections;
    has_debug_line =
        is_one_of (codes "__debug_line") scan.debug_sections
        || is_one_of (codes "__zdebug_line") scan.debug_sections;
    has_executable_text = scan.executable;
    has_oso_symbols = scan.oso_symbols;
    cpu_type = cpu;
    cpu_subtype = subtype;
    endian = e;
    offset = start;
    size = total;
    segments = scan.segments;
    sections = scan.sections;
  })

-- With the numbers of the header that matter, in its order.
pub thin_fields :
    Endian → Bool → Bytes → ℕ → ℕ → ℕ → ℕ → ℕ → ℕ → ℕ → Result (Fault MachoError) Image
thin_fields e wide bytes start total cpu subtype filetype count commands_size =
    supported (architecture_of (signed_32 cpu)) (is_supported_type filetype) >>= λ architecture.
    let cursor = start + size (image_format wide) in
    let stop = cursor + commands_size in
    raise_if (ltb 100000 count || ltb (start + total) stop) (rejected bad_command_table)
    >> (read_commands e wide bytes start total stop count (no_commands cursor) >>= λ scan.
        image_of e architecture (signed_32 cpu) (signed_32 subtype) filetype start total stop scan)

abbrev pub known_magic : Option (Endian × Bool) → Result (Fault MachoError) (Endian × Bool)
known_magic none = err (rejected unsupported_magic)
known_magic (some m) = ok m

pub thin_header : Endian → Bool → Bytes → ℕ → ℕ → Result (Fault MachoError) Image
thin_header e wide bytes start total = do
  raise_if (ltb total (size (image_format wide)) || ltb (length bytes) (start + total))
      (rejected bad_slice_bounds)
  fields ← unpack_from e (image_format wide) bytes start
  thin_fields e wide bytes start total (num_at fields 1) (num_at fields 2) (num_at fields 3)
      (num_at fields 4) (num_at fields 5)

unfoldable pub thin : Bytes → ℕ → ℕ → Result (Fault MachoError) Image
unfolding thin_header thin_fields image_of thin_magic architecture_of unpack_from read_commands
    ◌==ₜ◌ is_one_of
thin bytes start total = do
  magic ← known_magic (thin_magic (slice bytes start (start + 4)))
  thin_header magic.0 magic.1 bytes start total
