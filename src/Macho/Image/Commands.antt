-- ===== src/Macho/Image/Commands.antt =====
-- The load commands of one image, `_thin` of tool/sentry_macho.py.
pub mod Bounds
pub mod Walk
use xfl_clash.Prelude.{
  ℕ, zero, suc, ◌+◌, ◌-◌, ◌*◌, ◌/◌, ◌%◌, ◌^◌, Bool, true, false, not, ◌&&◌, ◌||◌, List, [], ◌∷◌,
  ◌++◌, map, ltb, leb, ◌==◌, if◌then◌else◌, Text, codes, ◌==ₜ◌, is_one_of, rstrip, length, take,
  drop, Result, ok, err, ◌>>=◌, ◌>>◌, raise_if,
}
use xfl_clash.Binary.{
  Bytes, slice, Endian, Field, word, text, Fault, rejected, unpack_from, byte_at, size, num_at,
  raw_at, hex, Value,
}
use xfl_clash.Macho.Error.{
  MachoError, truncated_command, bad_command_bounds, bad_uuid_command, bad_symbol_command,
  bad_symbol_bounds, truncated_segment, bad_segment_bounds, bad_section_bounds,
}
use xfl_clash.Macho.Image.Types.{Segment, Section, Scan}

-- `II16sQQQQiiII` and `II16sIIIIiiII`.
abbrev pub segment_format : Bool → List Field
segment_format true =
    word 4
    ∷ word 4
    ∷ text 16
    ∷ word 8
    ∷ word 8
    ∷ word 8
    ∷ word 8
    ∷ word 4
    ∷ word 4
    ∷ word 4
    ∷ word 4
    ∷ []
segment_format false =
    word 4
    ∷ word 4
    ∷ text 16
    ∷ word 4
    ∷ word 4
    ∷ word 4
    ∷ word 4
    ∷ word 4
    ∷ word 4
    ∷ word 4
    ∷ word 4
    ∷ []

abbrev eight_words : List Field
eight_words = word 4 ∷ word 4 ∷ word 4 ∷ word 4 ∷ word 4 ∷ word 4 ∷ word 4 ∷ word 4 ∷ []

-- `16s16sQQIIIIIIII` and `16s16sIIIIIIIII`.
abbrev pub section_format : Bool → List Field
section_format true = text 16 ∷ text 16 ∷ word 8 ∷ word 8 ∷ eight_words
section_format false = text 16 ∷ text 16 ∷ word 4 ∷ eight_words

-- `name.rstrip(b"\0")`
abbrev pub trimmed : Bytes → Text
trimmed name = rstrip (λ c. c == 0) name

-- `decode("ascii", errors="replace")`
abbrev pub ascii : Bytes → Text
ascii name = map (λ c. if ltb c 128 then c else 0xfffd) name

-- `str(uuid.UUID(bytes=…))`
unfoldable pub uuid_text : Bytes → Text
uuid_text bytes =
    let digits = hex bytes in
    take 8 digits
    ++ (b'-'
        ∷ (take 4 (drop 8 digits)
            ++ (b'-'
                ∷ (take 4 (drop 12 digits)
                    ++ (b'-' ∷ (take 4 (drop 16 digits) ++ (b'-' ∷ drop 20 digits)))))))

abbrev pub add_new : Text → List Text → List Text
add_new t ts = if is_one_of t ts then ts else t ∷ ts

-- `any(data[first + index * stride] == 0x66 for index in range(count))`
pub has_oso : Bytes → ℕ → ℕ → ℕ → Result (Fault MachoError) Bool
has_oso bytes first stride zero = ok false
has_oso bytes first stride (suc count) = byte_at bytes first >>= λ kind. elim (kind == 0x66) [
  | true ↦ ok true
  | false ↦ has_oso bytes (first + stride) stride count
]

-- LC_UUID
pub uuid_command : Bytes → ℕ → ℕ → Scan → Result (Fault MachoError) Scan
uuid_command bytes command width scan =
    if command == 0x1b
    then (raise_if (not (width == 24)) (rejected bad_uuid_command)
        >> ok (record scan {
          identifiers =
              add_new (uuid_text (slice bytes (scan.cursor + 8) (scan.cursor + 24)))
                scan.identifiers;
        }))
    else ok scan

pub symbol_table : Bool → Bytes → ℕ → ℕ → Scan → ℕ → ℕ → ℕ → ℕ → Result (Fault MachoError) Scan
symbol_table wide bytes start total scan symbol_offset symbol_count string_offset string_size =
    let stride : ℕ = if wide then 16 else 12 in
    raise_if
      (ltb total (symbol_offset + symbol_count * stride) || ltb total (string_offset + string_size))
      (rejected bad_symbol_bounds)
    >> (has_oso bytes (start + symbol_offset + 4) stride symbol_count >>= λ found.
        ok (record scan { oso_symbols = found }))

-- LC_SYMTAB, where N_OSO marks a local link debug map.
pub symbol_command : Endian → Bool → Bytes → ℕ → ℕ → ℕ → ℕ → Scan → Result (Fault MachoError) Scan
symbol_command e wide bytes start total command width scan =
    if command == 2
    then (raise_if (not (width == 24)) (rejected bad_symbol_command)
        >> (unpack_from e (word 4 ∷ word 4 ∷ word 4 ∷ word 4 ∷ []) bytes (scan.cursor + 8)
            >>= λ fields.
                symbol_table wide bytes start total scan (num_at fields 0) (num_at fields 1)
                  (num_at fields 2) (num_at fields 3)))
    else ok scan

-- S_ZEROFILL, S_GB_ZEROFILL and S_THREAD_LOCAL_ZEROFILL have no bytes in the file.
abbrev pub has_bytes : ℕ → ℕ → ℕ → ℕ → Bool
has_bytes offset section_size file_size flags =
    (ltb 0 offset && (ltb 0 section_size && ltb 0 file_size))
    && not (flags % 256 == 1 || flags % 256 == 0xc || flags % 256 == 0x12)

-- S_ATTR_PURE_INSTRUCTIONS or S_ATTR_SOME_INSTRUCTIONS: `flags & 0x80000400`.
abbrev pub has_instructions : ℕ → Bool
has_instructions flags = (flags / 2 ^ 31) % 2 == 1 || (flags / 2 ^ 10) % 2 == 1

-- One section header of a segment that holds `file_size` bytes from `file_start` on.
pub add_section :
    ℕ → ℕ → ℕ → Scan → Bytes → Bytes → ℕ → ℕ → ℕ → ℕ → ℕ → Result (Fault MachoError) Scan
add_section start file_start file_size scan raw_name raw_segment addr section_size offset align
      flags =
    let contents = has_bytes offset section_size file_size flags in
    let name = trimmed raw_name in
    let segment = trimmed raw_segment in
    raise_if
      (contents && (ltb offset file_start || ltb (file_start + file_size) (offset + section_size)))
      (rejected bad_section_bounds)
    >> ok (record scan {
      debug_sections =
          if contents && segment ==ₜ codes "__DWARF"
          then name ∷ scan.debug_sections
          else scan.debug_sections;
      executable =
          scan.executable || (contents && (name ==ₜ codes "__text" || has_instructions flags));
      sections =
          scan.sections
          ++ (record {
            name = ascii name;
            segment = ascii segment;
            offset = start + offset;
            size = section_size;
            addr = addr;
            align = align;
            flags = flags;
            has_contents = contents;
          }
              ∷ []);
    })

-- `for index in range(sections)`, from the section header at `at` on.
pub read_sections :
    Endian → Bool → Bytes → ℕ → ℕ → ℕ → ℕ → ℕ → Scan → Result (Fault MachoError) Scan
read_sections e wide bytes start file_start file_size at zero scan = ok scan
read_sections e wide bytes start file_start file_size at (suc count) scan =
    unpack_from e (section_format wide) bytes at >>= λ info.
    add_section start file_start file_size scan (raw_at info 0) (raw_at info 1) (num_at info 2)
      (num_at info 3) (num_at info 4) (num_at info 5) (num_at info 8)
    >>= λ scan'.
        read_sections e wide bytes start file_start file_size (at + size (section_format wide))
          count scan'

pub segment_fields :
    Endian
    → Bool
    → Bytes
    → ℕ
    → ℕ
    → ℕ
    → Scan
    → Bytes
    → ℕ
    → ℕ
    → ℕ
    → ℕ
    → ℕ
    → Result (Fault MachoError) Scan
segment_fields e wide bytes start total width scan name vmaddr vmsize file_start file_size
      sections =
    raise_if
      (ltb total (file_start + file_size)
        || ltb width (size (segment_format wide) + sections * size (section_format wide)))
      (rejected bad_segment_bounds)
    >> read_sections e wide bytes start file_start file_size
        (scan.cursor + size (segment_format wide)) sections
        (record scan {
          segments =
              scan.segments
              ++ (record {
                name = ascii (trimmed name);
                vmaddr = vmaddr;
                vmsize = vmsize;
                fileoff = file_start;
                filesize = file_size;
              }
                  ∷ []);
        })

-- LC_SEGMENT and LC_SEGMENT_64, by the command and not by the image's own width.
pub segment_command : Endian → Bytes → ℕ → ℕ → ℕ → ℕ → Scan → Result (Fault MachoError) Scan
segment_command e bytes start total command width scan =
    let wide = command == 0x19 in
    if command == 1 || wide
    then (raise_if (ltb width (size (segment_format wide))) (rejected truncated_segment)
        >> (unpack_from e (segment_format wide) bytes scan.cursor >>= λ values.
            segment_fields e wide bytes start total width scan (raw_at values 2) (num_at values 3)
              (num_at values 4) (num_at values 5) (num_at values 6) (num_at values 9)))
    else ok scan

pub command_fields :
    Endian → Bool → Bytes → ℕ → ℕ → ℕ → Scan → ℕ → ℕ → Result (Fault MachoError) Scan
command_fields e wide bytes start total stop scan command width = do
  raise_if (ltb width 8 || ltb stop (scan.cursor + width)) (rejected bad_command_bounds)
  a ← uuid_command bytes command width scan
  b ← symbol_command e wide bytes start total command width a
  c ← segment_command e bytes start total command width b
  ok (record c { cursor = c.cursor + width })

pub read_command : Endian → Bool → Bytes → ℕ → ℕ → ℕ → Scan → Result (Fault MachoError) Scan
read_command e wide bytes start total stop scan = do
  raise_if (ltb stop (scan.cursor + 8)) (rejected truncated_command)
  fields ← unpack_from e (word 4 ∷ word 4 ∷ []) bytes scan.cursor
  command_fields e wide bytes start total stop scan (num_at fields 0) (num_at fields 1)

-- `for _ in range(count)`
unfoldable pub read_commands :
    Endian → Bool → Bytes → ℕ → ℕ → ℕ → ℕ → Scan → Result (Fault MachoError) Scan
unfolding uuid_text hex byte_at unpack_from rstrip ◌==ₜ◌ is_one_of read_command command_fields
    uuid_command symbol_command symbol_table has_oso segment_command segment_fields read_sections
    add_section
read_commands e wide bytes start total stop zero scan = ok scan
read_commands e wide bytes start total stop (suc count) scan =
    read_command e wide bytes start total stop scan >>= λ scan'.
    read_commands e wide bytes start total stop count scan'
