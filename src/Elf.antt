-- ===== src/Elf.antt =====
-- tool/sentry_elf.py: `inspect_elf` reads the facts of one ELF file that companion matching needs.
-- The file is a list of bytes; SHA-256 of hashlib is the parameter `sha256`.
pub mod Error
pub mod Notes
pub mod Sound
use xfl_clash.Prelude.{
  ℕ, zero, suc, ◌+◌, ◌-◌, ◌*◌, ◌/◌, ◌%◌, Bool, true, false, not, ◌&&◌, ◌||◌, Option, none, some,
  List, [], ◌∷◌, ◌++◌, ltb, leb, ◌==◌, if◌then◌else◌, Text, codes, ◌==ₜ◌, is_one_of, length, drop,
  keep, Result, ok, err, ◌>>=◌, ◌>>◌, raise_if, for_each,
}
use xfl_clash.Binary.{
  Bytes, slice, Endian, little, big, Field, word, Fault, rejected, index_error, unpack_from,
  byte_at, size, num_at, until, hex, Value,
}
use Notes.{read_notes}
use Error.{
  ElfError, bad_header, unsupported_header, truncated_header, unsupported_architecture, bad_table,
  bad_table_bounds, bad_name_table, bad_name, bad_name_end, truncated_section,
  duplicate_code_section, conflicting_identifiers,
}

-- The first six fields of a section header.
pub record Section : Type 0 where
  pub name_offset : ℕ
  pub kind : ℕ
  pub flags : ℕ
  pub address : ℕ
  pub start : ℕ
  pub size : ℕ

pub record CodeSection : Type 0 where
  pub name : Text
  pub sha256 : Text
  pub size : ℕ
  pub address : ℕ

-- What the loop over the sections has collected.
pub record Scan : Type 0 where
  pub present : List Text
  pub build_ids : List Text
  pub executable_text : Bool
  pub code_sections : List CodeSection
  pub code_names : List Text

abbrev pub no_sections : Scan
no_sections = record {
  present = [];
  build_ids = [];
  executable_text = false;
  code_sections = [];
  code_names = [];
}

pub record Elf : Type 0 where
  pub build_id : Text
  pub architecture : Text
  pub code_sections : List CodeSection
  pub has_debug_info : Bool
  pub has_debug_line : Bool
  pub has_executable_text : Bool
  pub unwind_sections : List Text

abbrev six_halves : List Field
six_halves = word 2 ∷ word 2 ∷ word 2 ∷ word 2 ∷ word 2 ∷ word 2 ∷ []

-- The formats of the header behind the identification bytes and of a section header, for 32 bits
-- (`true`) and 64 bits.
abbrev pub header_format : Bool → List Field
header_format true = word 2 ∷ word 2 ∷ word 4 ∷ word 4 ∷ word 4 ∷ word 4 ∷ word 4 ∷ six_halves
header_format false = word 2 ∷ word 2 ∷ word 4 ∷ word 8 ∷ word 8 ∷ word 8 ∷ word 4 ∷ six_halves

abbrev pub section_format : Bool → List Field
section_format true =
    word 4 ∷ word 4 ∷ word 4 ∷ word 4 ∷ word 4 ∷ word 4 ∷ word 4 ∷ word 4 ∷ word 4 ∷ word 4 ∷ []
section_format false =
    word 4 ∷ word 4 ∷ word 8 ∷ word 8 ∷ word 8 ∷ word 8 ∷ word 4 ∷ word 4 ∷ word 8 ∷ word 8 ∷ []

unfoldable pub architecture_of : ℕ → Option Text
architecture_of machine =
    if machine == 3
    then some (codes "i386")
    else if machine == 40
    then some (codes "arm")
    else if machine == 62
    then some (codes "x86_64")
    else if machine == 183
    then some (codes "aarch64")
    else none

abbrev pub section_of : List Value → Section
section_of fields = record {
  name_offset = num_at fields 0;
  kind = num_at fields 1;
  flags = num_at fields 2;
  address = num_at fields 3;
  start = num_at fields 4;
  size = num_at fields 5;
}

abbrev pub known_architecture : Option Text → Bool → Result (Fault ElfError) Text
known_architecture (some a) true = ok a
known_architecture (some a) false = err (rejected unsupported_architecture)
known_architecture none b = err (rejected unsupported_architecture)

-- `[section.unpack_from(data, offset + index * width) for index in range(count)]`
pub read_sections : Endian → List Field → Bytes → ℕ → ℕ → ℕ → Result (Fault ElfError) (List Section)
read_sections e format bytes offset width zero = ok []
read_sections e format bytes offset width (suc count) = do
  fields ← unpack_from e format bytes offset
  rest ← read_sections e format bytes (offset + width) width count
  ok (section_of fields ∷ rest)

abbrev pub section_at : List Section → ℕ → Result (Fault ElfError) Section
section_at [] i = err index_error
section_at (s ∷ ss) zero = ok s
section_at (s ∷ ss) (suc i) = section_at ss i

abbrev pub name_of : Bytes → ℕ → Result (Fault ElfError) Text
name_of names offset = elim (until 0 (drop offset names)) [
  | none ↦ err (rejected bad_name_end)
  | some name ↦ ok name
]

abbrev pub code_section_names : List Text
code_section_names = codes ".text" ∷ codes ".rodata" ∷ []

module _ (sha256 : Bytes → Text) where
  abbrev code_record : Bytes → Section → Text → CodeSection
  code_record bytes s name = record {
    name = name;
    sha256 = sha256 (slice bytes s.start (s.start + s.size));
    size = s.size;
    address = s.address;
  }

  -- `.text` and `.rodata` stand once; only SHT_PROGBITS carries comparable bytes.
  pub scan_code : Bytes → Section → Text → Scan → Result (Fault ElfError) Scan
  scan_code bytes s name scan =
      if is_one_of name code_section_names
      then (raise_if (is_one_of name scan.code_names) (rejected duplicate_code_section)
          >> ok (record scan {
            code_names = name ∷ scan.code_names;
            code_sections =
                if s.kind == 1
                then scan.code_sections ++ (code_record bytes s name ∷ [])
                else scan.code_sections;
          }))
      else ok scan

  abbrev scan_presence : Section → Text → Scan → Scan
  scan_presence s name scan = record scan {
    present = if not (s.kind == 8) && ltb 0 s.size then name ∷ scan.present else scan.present;
    executable_text =
        scan.executable_text || (s.kind == 1 && ((s.flags / 4) % 2 == 1 && ltb 0 s.size));
  }

  abbrev scan_notes : Endian → Bytes → Section → Scan → Result (Fault ElfError) Scan
  scan_notes e bytes s scan =
      if s.kind == 7
      then (read_notes (s.size + 1) e bytes s.start (s.start + s.size) s.start scan.build_ids
          >>= λ found. ok (record scan { build_ids = found }))
      else ok scan

  -- The body of `for entry in sections`.
  pub scan_section : Endian → Bytes → Bytes → Scan → Section → Result (Fault ElfError) Scan
  scan_section e bytes names scan s = do
    raise_if (leb (length names) s.name_offset) (rejected bad_name)
    name ← name_of names s.name_offset
    raise_if (not (s.kind == 8) && ltb (length bytes) (s.start + s.size))
        (rejected truncated_section)
    scan' ← scan_code bytes s name scan
    scan_notes e bytes s (scan_presence s name scan')

  abbrev identifier : List Text → Text
  identifier [] = []
  identifier (i ∷ is) = i

  -- `sorted(…)` of the names that are present.
  abbrev unwind_names : List Text
  unwind_names =
      codes ".ARM.exidx" ∷ codes ".ARM.extab" ∷ codes ".eh_frame" ∷ codes ".eh_frame_hdr" ∷ []

  pub report_of : Text → Scan → Result (Fault ElfError) Elf
  report_of architecture scan = do
    raise_if (ltb 1 (length scan.build_ids)) (rejected conflicting_identifiers)
    ok (record {
      build_id = identifier scan.build_ids;
      architecture = architecture;
      code_sections = scan.code_sections;
      has_debug_info =
          is_one_of (codes ".debug_info") scan.present
          || is_one_of (codes ".zdebug_info") scan.present;
      has_debug_line =
          is_one_of (codes ".debug_line") scan.present
          || is_one_of (codes ".zdebug_line") scan.present;
      has_executable_text = scan.executable_text;
      unwind_sections = keep (λ name. is_one_of name scan.present) unwind_names;
    })

  -- From the checked section table on: `names` is the bounded table of section names.
  pub inspect_sections :
      Endian → Bytes → Text → List Section → Section → Result (Fault ElfError) Elf
  inspect_sections e bytes architecture sections strings = do
    raise_if (ltb (length bytes) (strings.start + strings.size)) (rejected bad_name_table)
    scan ←
        for_each (scan_section e bytes (slice bytes strings.start (strings.start + strings.size)))
          no_sections sections
    report_of architecture scan

  -- A count, or an index of the name table, of zero or 0xffff stands in the first section header.
  abbrev extended : Bool → ℕ → ℕ → ℕ
  extended b first field = if b then first else field

  -- With the true count of sections and index of the name table.
  pub inspect_entries : Endian → Bool → Bytes → Text → ℕ → ℕ → ℕ → ℕ → Result (Fault ElfError) Elf
  inspect_entries e narrow bytes architecture offset width count index = do
    raise_if
        (not (ltb 0 count && leb count 100000)
          || ltb (length bytes) (offset + width * count)
          || leb count index)
        (rejected bad_table_bounds)
    sections ← read_sections e (section_format narrow) bytes offset width count
    strings ← section_at sections index
    inspect_sections e bytes architecture sections strings

  pub inspect_table : Endian → Bool → Bytes → Text → ℕ → ℕ → ℕ → ℕ → Result (Fault ElfError) Elf
  inspect_table e narrow bytes architecture offset width count index = do
    raise_if
        (ltb width (size (section_format narrow))
          || ltb offset (16 + size (header_format narrow))
          || ltb (length bytes) (offset + width))
        (rejected bad_table)
    first ← unpack_from e (section_format narrow) bytes offset
    inspect_entries e narrow bytes architecture offset width
        (extended (count == 0) (num_at first 5) count)
        (extended (index == 0xffff) (num_at first 6) index)

  -- With the header's fields that matter, in its order.
  pub inspect_fields : Endian → Bool → Bytes → ℕ → ℕ → ℕ → ℕ → ℕ → ℕ → Result (Fault ElfError) Elf
  inspect_fields e narrow bytes kind machine offset width count index = do
    architecture ← known_architecture (architecture_of machine) (kind == 2 || kind == 3)
    inspect_table e narrow bytes architecture offset width count index

  pub inspect_header : Endian → Bool → Bytes → Result (Fault ElfError) Elf
  inspect_header e narrow bytes = do
    raise_if (ltb (length bytes) (16 + size (header_format narrow))) (rejected truncated_header)
    fields ← unpack_from e (header_format narrow) bytes 16
    inspect_fields e narrow bytes (num_at fields 0) (num_at fields 1) (num_at fields 5)
        (num_at fields 10) (num_at fields 11) (num_at fields 12)

  -- With the fourth and fifth identification bytes.
  pub inspect_identified : Bytes → ℕ → ℕ → Result (Fault ElfError) Elf
  inspect_identified bytes bits order = do
    raise_if
        (not (slice bytes 0 4 ==ₜ (0x7f ∷ codes "ELF"))
          || not (bits == 1 || bits == 2)
          || not (order == 1 || order == 2))
        (rejected unsupported_header)
    inspect_header (if order == 1 then little else big) (bits == 1) bytes

  unfoldable pub inspect_elf : Bytes → Result (Fault ElfError) Elf
  unfolding inspect_identified inspect_header inspect_fields inspect_table inspect_entries
      inspect_sections scan_section scan_code read_sections report_of
  inspect_elf bytes = do
    raise_if (ltb (length bytes) 52) (rejected bad_header)
    bits ← byte_at bytes 4
    order ← byte_at bytes 5
    inspect_identified bytes bits order
