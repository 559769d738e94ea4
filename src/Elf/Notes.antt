-- ===== src/Elf/Notes.antt =====
-- The note loop of `inspect_elf`, tool/sentry_elf.py.
pub mod Bounds
use xfl_clash.Prelude.{
  ℕ, zero, suc, ◌+◌, ◌-◌, ◌*◌, ◌/◌, ◌<◌, ◌≤◌, Bool, true, false, not, ◌&&◌, ◌||◌, List, [], ◌∷◌,
  ltb, leb, ◌==◌, if◌then◌else◌, Text, codes, ◌==ₜ◌, is_one_of, rstrip, Result, ok, err, ◌>>=◌,
  ◌>>◌, raise_if,
}
use xfl_clash.Binary.{
  Bytes, slice, Endian, Field, word, Fault, rejected, no_rounds, unpack_from, num_at, hex, Value,
}
use xfl_clash.Elf.Error.{ElfError, bad_note_bounds, bad_identifier}

-- `start + ((end - start + 3) & ~3)`: the next multiple of four, counted from the section's start.
abbrev pub aligned : ℕ → ℕ → ℕ
aligned start end = start + (end - start + 3) / 4 * 4

abbrev pub note_header : List Field
note_header = word 4 ∷ word 4 ∷ word 4 ∷ []

-- A set of texts.
abbrev pub add_new : Text → List Text → List Text
add_new t ts = if is_one_of t ts then ts else t ∷ ts

pub gnu_name : Bytes → Bool
gnu_name name = rstrip (λ c. c == 0) name ==ₜ codes "GNU"

-- A GNU build identifier joins the set that was found before.
pub take_note : Bytes → ℕ → Bytes → ℕ → ℕ → List Text → Result (Fault ElfError) (List Text)
take_note bytes kind name value_start value_size found =
    if kind == 3 && gnu_name name
    then (raise_if (not (leb 4 value_size && leb value_size 64)) (rejected bad_identifier)
        >> ok (add_new (hex (slice bytes value_start (value_start + value_size))) found))
    else ok found

-- The body of the loop at `cursor`, with the three numbers of the note's header: the identifiers
-- found, and the next cursor.
pub read_fields :
    Bytes → ℕ → ℕ → ℕ → List Text → ℕ → ℕ → ℕ → Result (Fault ElfError) (List Text × ℕ)
read_fields bytes start stop cursor found name_size value_size kind =
    let name_end = cursor + 12 + name_size in
    let value_start = aligned start name_end in
    let value_end = value_start + value_size in
    raise_if (ltb stop name_end || ltb stop value_end) (rejected bad_note_bounds)
    >> (take_note bytes kind (slice bytes (cursor + 12) name_end) value_start value_size found
        >>= λ found'. ok (found', aligned start value_end))

pub read_note : Endian → Bytes → ℕ → ℕ → ℕ → List Text → Result (Fault ElfError) (List Text × ℕ)
read_note e bytes start stop cursor found = do
  fields ← unpack_from e note_header bytes cursor
  read_fields bytes start stop cursor found (num_at fields 0) (num_at fields 1) (num_at fields 2)

-- `while cursor + 12 <= stop`
unfoldable pub read_notes :
    ℕ → Endian → Bytes → ℕ → ℕ → ℕ → List Text → Result (Fault ElfError) (List Text)
unfolding read_note read_fields take_note gnu_name unpack_from hex rstrip ◌==ₜ◌ is_one_of
read_notes zero e bytes start stop cursor found = err no_rounds
read_notes (suc rounds) e bytes start stop cursor found = elim (leb (cursor + 12) stop) [
  | true ↦ read_note e bytes start stop cursor found >>= λ step.
      read_notes rounds e bytes start stop step.1 step.0
  | false ↦ ok found
]
