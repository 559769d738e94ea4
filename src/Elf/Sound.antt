-- ===== src/Elf/Sound.antt =====
-- `inspect_elf` of tool/sentry_elf.py on any bytes: what it reports, and which exceptions it lets out.
use xfl_clash.Prelude.{
  ℕ, zero, suc, ◌+◌, ◌*◌, ◌≤◌, ◌<◌, Bool, true, false, not, ◌&&◌, ◌||◌, List, [], ◌∷◌, ◌++◌, ◌≡◌,
  refl, ap, ◌≢◌, ltb, leb, ltb→le, ◌==◌, Text, codes, ◌==ₜ◌, is_one_of, length, All, All-append, ok,
  Ensures-raise_if, Ensures-bind, Ensures-for_each, for_each, arith, drop, Bool-cases, Option-cases,
  inl, inr, ◌⊎◌, if◌then◌else◌, Option, some, none,
}
use xfl_clash.Binary.{
  Bytes, slice, Endian, little, big, rejected, IsRejection, unpack_from-eq_ok, byte_at-eq_ok, size,
  until,
}
use xfl_clash.Elf.Error.{
  ElfError, bad_header, unsupported_header, truncated_header, bad_table, bad_table_bounds,
  bad_name_table, bad_name, truncated_section, duplicate_code_section, conflicting_identifiers,
}
use xfl_clash.Elf.Notes.{read_notes}
use xfl_clash.Elf.Notes.Bounds.{IsIdentifier, Good, read_notes-Good}
use xfl_clash.Elf.{
  Section, CodeSection, Scan, Elf, no_sections, header_format, section_format, architecture_of,
  read_sections, section_at, name_of, code_section_names, code_record, scan_code, scan_presence,
  scan_notes, scan_section, report_of, identifier, known_architecture, inspect_sections,
  inspect_entries, inspect_table, inspect_fields, inspect_identified, inspect_header, inspect_elf,
}

module _ (sha256 : Bytes → Text) where
  -- A code section of the report stands in the file, and its digest is that of its bytes.
  pub record IsCode (bytes : Bytes) (c : CodeSection) : Type 0 where
    pub start : ℕ
    pub in_file : start + c.size ≤ length bytes
    pub digest : c.sha256 ≡ sha256 (slice bytes start (start + c.size))
    pub named : is_one_of c.name code_section_names ≡ true

  record ScanInv (bytes : Bytes) (scan : Scan) : Type 0 where
    ids : All (IsIdentifier bytes) scan.build_ids
    code : All (IsCode bytes) scan.code_sections

  IsCode-append :
      (bytes : Bytes) (s : Section) (name : Text) (cs : List CodeSection)
      → is_one_of name code_section_names ≡ true
      → (s.kind == 1 ≡ true → s.start + s.size ≤ length bytes)
      → All (IsCode bytes) cs
      → All
          (IsCode bytes)
          (if s.kind == 1 then cs ++ (code_record sha256 bytes s name ∷ []) else cs)
  IsCode-append bytes s name cs n h k = elim (Bool-cases (s.kind == 1)) [
    | inr e ↦ rw e k
    | inl e ↦ rw e (
        All-append (IsCode bytes) cs (code_record sha256 bytes s name ∷ []) k
          (record { start = s.start; in_file = h e; digest = refl; named = n }, tt))
  ]

  scan_code-Good :
      (bytes : Bytes) (s : Section) (name : Text) (scan : Scan)
      → (s.kind == 1 ≡ true → s.start + s.size ≤ length bytes)
      → ScanInv bytes scan
      → Good (ScanInv bytes) (scan_code sha256 bytes s name scan)
  unfolding scan_code
  scan_code-Good bytes s name scan h k = elim (Bool-cases (is_one_of name code_section_names)) [
    | inr e ↦ rw e k
    | inl e ↦ rw e (
        Ensures-raise_if IsRejection (ScanInv bytes) (is_one_of name scan.code_names)
          (rejected duplicate_code_section) _ tt
          λ r. record {
            ids = k.ids;
            code = IsCode-append bytes s name scan.code_sections e h k.code;
          })
  ]

  scan_notes-Good :
      (e : Endian) (bytes : Bytes) (s : Section) (scan : Scan)
      → (s.kind == 7 ≡ true → s.start + s.size ≤ length bytes)
      → ScanInv bytes scan
      → Good (ScanInv bytes) (scan_notes sha256 e bytes s scan)
  scan_notes-Good e bytes s scan h k = elim (Bool-cases (s.kind == 7)) [
    | inr no_note ↦ rw no_note k
    | inl note ↦ rw note (
        Ensures-bind IsRejection (ScanInv bytes) (All (IsIdentifier bytes))
          (read_notes (s.size + 1) e bytes s.start (s.start + s.size) s.start scan.build_ids)
          (λ found. ok (record scan { build_ids = found }))
          (read_notes-Good (s.size + 1) e bytes s.start (s.start + s.size) s.start scan.build_ids
            (omega arith) (h note) (omega arith) (omega arith) k.ids)
          λ found _ f. record { ids = f; code = k.code })
  ]

  in_file_of :
      (bytes : Bytes) (s : Section) (k : ℕ)
      → (not (s.kind == 8) && ltb (length bytes) (s.start + s.size)) ≡ false
      → k ≢ 8
      → s.kind == k ≡ true
      → s.start + s.size ≤ length bytes
  in_file_of bytes s k h n e = ground arith

  name_of-Good : (names : Bytes) (offset : ℕ) → Good (λ _. Unit) (name_of names offset)
  name_of-Good names offset = elim (Option-cases (until 0 (drop offset names))) [
    | inl e ↦ rw (e, name_of) tt
    | inr (name, e) ↦ rw (e, name_of) tt
  ]

  scan_section-Good :
      (e : Endian) (bytes names : Bytes) (scan : Scan) (s : Section)
      → ScanInv bytes scan
      → Good (ScanInv bytes) (scan_section sha256 e bytes names scan s)
  unfolding scan_section
  scan_section-Good e bytes names scan s k =
      Ensures-raise_if IsRejection (ScanInv bytes) (leb (length names) s.name_offset)
        (rejected bad_name) _ tt
        λ _.
          Ensures-bind IsRejection (ScanInv bytes) (λ _. Unit) (name_of names s.name_offset) _
            (name_of-Good names s.name_offset)
            λ name _ _.
              Ensures-raise_if IsRejection (ScanInv bytes)
                (not (s.kind == 8) && ltb (length bytes) (s.start + s.size))
                (rejected truncated_section) _ tt
                λ h.
                  Ensures-bind IsRejection (ScanInv bytes) (ScanInv bytes)
                    (scan_code sha256 bytes s name scan)
                    (λ scan'. scan_notes sha256 e bytes s (scan_presence sha256 s name scan'))
                    (scan_code-Good bytes s name scan
                      (in_file_of bytes s 1 h (λ x. absurd (omega arith))) k)
                    λ scan' _ k'.
                      scan_notes-Good e bytes s (scan_presence sha256 s name scan')
                        (in_file_of bytes s 7 h (λ x. absurd (omega arith)))
                        (record { ids = k'.ids; code = k'.code })

  -- What the report says of the file.
  pub record IsReport (bytes : Bytes) (elf : Elf) : Type 0 where
    pub build_id : (elf.build_id ≡ []) ⊎ IsIdentifier bytes elf.build_id
    pub code : All (IsCode bytes) elf.code_sections

  identifier-IsIdentifier :
      (bytes : Bytes) (ids : List Text)
      → All (IsIdentifier bytes) ids
      → (identifier sha256 ids ≡ []) ⊎ IsIdentifier bytes (identifier sha256 ids)
  identifier-IsIdentifier bytes [] h = inl refl
  identifier-IsIdentifier bytes (i ∷ is) h = inr h.0

  report_of-Good :
      (bytes : Bytes) (architecture : Text) (scan : Scan)
      → ScanInv bytes scan
      → Good (IsReport bytes) (report_of sha256 architecture scan)
  unfolding report_of
  report_of-Good bytes architecture scan k =
      Ensures-raise_if IsRejection (IsReport bytes) (ltb 1 (length scan.build_ids))
        (rejected conflicting_identifiers) _ tt
        λ _. record { build_id = identifier-IsIdentifier bytes scan.build_ids k.ids; code = k.code }

  inspect_sections-Good :
      (e : Endian) (bytes : Bytes) (architecture : Text) (sections : List Section)
      (strings : Section)
      → Good (IsReport bytes) (inspect_sections sha256 e bytes architecture sections strings)
  unfolding inspect_sections
  inspect_sections-Good e bytes architecture sections strings =
      let names = slice bytes strings.start (strings.start + strings.size) in
      Ensures-raise_if IsRejection (IsReport bytes)
        (ltb (length bytes) (strings.start + strings.size)) (rejected bad_name_table) _ tt
        λ _.
          Ensures-bind IsRejection (IsReport bytes) (ScanInv bytes)
            (for_each (scan_section sha256 e bytes names) no_sections sections)
            (report_of sha256 architecture)
            (Ensures-for_each IsRejection (ScanInv bytes) (scan_section sha256 e bytes names)
              no_sections sections (record { ids = tt; code = tt })
              (scan_section-Good e bytes names))
            λ scan _ k. report_of-Good bytes architecture scan k

-- The section table is read inside the file, and as long as counted.
read_sections-Good :
    (e : Endian) (narrow : Bool) (bytes : Bytes) (offset width count : ℕ)
    → size (section_format narrow) ≤ width
    → offset + width * count ≤ length bytes
    → Good
        (λ sections. length sections ≡ count)
        (read_sections e (section_format narrow) bytes offset width count)
unfolding read_sections
read_sections-Good e narrow bytes offset width zero h k = refl
read_sections-Good e narrow bytes offset width (suc count) h k =
    let fits : (offset + size (section_format narrow) ≤ length bytes)
        × (offset + width + width * count ≤ length bytes) =
      grind arith in
    rw (unpack_from-eq_ok e (section_format narrow) bytes offset fits.0) (
      Ensures-bind IsRejection (λ sections. length sections ≡ suc count)
        (λ sections. length sections ≡ count)
        (read_sections e (section_format narrow) bytes (offset + width) width count) _
        (read_sections-Good e narrow bytes (offset + width) width count h fits.1)
        λ rest _ l. ap suc l)

section_at-Good :
    (sections : List Section) (i : ℕ)
    → i < length sections
    → Good (λ _. Unit) (section_at sections i)
section_at-Good [] i h = elim h [ ]
section_at-Good (s ∷ ss) zero h = tt
section_at-Good (s ∷ ss) (suc i) h = section_at-Good ss i (omega arith)

table_in_file :
    (bytes : Bytes) (offset width count index : ℕ)
    → (not (ltb 0 count && leb count 100000)
        || ltb (length bytes) (offset + width * count)
        || leb count index)
      ≡ false
    → offset + width * count ≤ length bytes
table_in_file bytes offset width count index h = ground arith

index_in_table :
    (bytes : Bytes) (offset width count index : ℕ)
    → (not (ltb 0 count && leb count 100000)
        || ltb (length bytes) (offset + width * count)
        || leb count index)
      ≡ false
    → index < count
index_in_table bytes offset width count index h = ground arith

first_in_file :
    (section header all offset width : ℕ)
    → (ltb width section || ltb offset header || ltb all (offset + width)) ≡ false
    → (section ≤ width) × (offset + section ≤ all)
first_in_file section header all offset width h = ground arith

architecture-Good : (a : Option Text) (b : Bool) → Good (λ _. Unit) (known_architecture a b)
architecture-Good none b = tt
architecture-Good (some a) true = tt
architecture-Good (some a) false = tt

module _ (sha256 : Bytes → Text) where
  inspect_entries-Good :
      (e : Endian) (narrow : Bool) (bytes : Bytes) (architecture : Text)
      (offset width count index : ℕ)
      → size (section_format narrow) ≤ width
      → Good
          (IsReport sha256 bytes)
          (inspect_entries sha256 e narrow bytes architecture offset width count index)
  unfolding inspect_entries
  inspect_entries-Good e narrow bytes architecture offset width count index h =
      let bad =
        not (ltb 0 count && leb count 100000)
        || ltb (length bytes) (offset + width * count)
        || leb count index in
      Ensures-raise_if IsRejection (IsReport sha256 bytes) bad (rejected bad_table_bounds) _ tt λ r.
        Ensures-bind IsRejection (IsReport sha256 bytes) (λ sections. length sections ≡ count)
          (read_sections e (section_format narrow) bytes offset width count) _
          (read_sections-Good e narrow bytes offset width count h
            (table_in_file bytes offset width count index r))
          λ sections _ l.
            Ensures-bind IsRejection (IsReport sha256 bytes) (λ _. Unit) (section_at sections index)
              _
              (section_at-Good sections index
                (rw l (index_in_table bytes offset width count index r)))
              λ strings _ _. inspect_sections-Good sha256 e bytes architecture sections strings

  inspect_table-Good :
      (e : Endian) (narrow : Bool) (bytes : Bytes) (architecture : Text)
      (offset width count index : ℕ)
      → Good
          (IsReport sha256 bytes)
          (inspect_table sha256 e narrow bytes architecture offset width count index)
  unfolding inspect_table
  inspect_table-Good e narrow bytes architecture offset width count index =
      let bad =
        ltb width (size (section_format narrow))
        || ltb offset (16 + size (header_format narrow))
        || ltb (length bytes) (offset + width) in
      Ensures-raise_if IsRejection (IsReport sha256 bytes) bad (rejected bad_table) _ tt λ r.
        let (wide, fits) =
          first_in_file (size (section_format narrow)) (16 + size (header_format narrow))
            (length bytes) offset width r in
        rw (unpack_from-eq_ok e (section_format narrow) bytes offset fits)
          (inspect_entries-Good e narrow bytes architecture offset width _ _ wide)

  inspect_fields-Good :
      (e : Endian) (narrow : Bool) (bytes : Bytes) (kind machine offset width count index : ℕ)
      → Good
          (IsReport sha256 bytes)
          (inspect_fields sha256 e narrow bytes kind machine offset width count index)
  unfolding inspect_fields
  inspect_fields-Good e narrow bytes kind machine offset width count index =
      Ensures-bind IsRejection (IsReport sha256 bytes) (λ _. Unit)
        (known_architecture (architecture_of machine) (kind == 2 || kind == 3)) _
        (architecture-Good (architecture_of machine) (kind == 2 || kind == 3))
        λ a _ _. inspect_table-Good e narrow bytes a offset width count index

  inspect_header-Good :
      (e : Endian) (narrow : Bool) (bytes : Bytes)
      → Good (IsReport sha256 bytes) (inspect_header sha256 e narrow bytes)
  unfolding inspect_header
  inspect_header-Good e narrow bytes =
      Ensures-raise_if IsRejection (IsReport sha256 bytes)
        (ltb (length bytes) (16 + size (header_format narrow))) (rejected truncated_header) _ tt
        λ r.
          rw (unpack_from-eq_ok e (header_format narrow) bytes 16 (ltb→le _ _ r))
            (inspect_fields-Good e narrow bytes _ _ _ _ _ _)

  inspect_identified-Good :
      (bytes : Bytes) (bits order : ℕ)
      → Good (IsReport sha256 bytes) (inspect_identified sha256 bytes bits order)
  unfolding inspect_identified
  inspect_identified-Good bytes bits order =
      Ensures-raise_if IsRejection (IsReport sha256 bytes)
        (not (slice bytes 0 4 ==ₜ (0x7f ∷ codes "ELF"))
          || not (bits == 1 || bits == 2)
          || not (order == 1 || order == 2))
        (rejected unsupported_header) _ tt
        λ _. inspect_header-Good (if order == 1 then little else big) (bits == 1) bytes

  -- On every sequence of bytes inspect_elf returns or raises ElfError: no read leaves the file and
  -- no loop outlives its rounds. A build identifier in a report is empty or the hexadecimal form, in
  -- lower case, of 4 to 64 bytes of the file, and each code section of a report is .text or .rodata,
  -- stands in the file and has the digest of its bytes.
  pub inspect_elf-Good : (bytes : Bytes) → Good (IsReport sha256 bytes) (inspect_elf sha256 bytes)
  unfolding inspect_elf
  inspect_elf-Good bytes =
      Ensures-raise_if IsRejection (IsReport sha256 bytes) (ltb (length bytes) 52)
        (rejected bad_header) _ tt
        λ r.
          let (bits, b) = byte_at-eq_ok {E = ElfError} bytes 4 (ground arith) in
          let (order, o) = byte_at-eq_ok {E = ElfError} bytes 5 (ground arith) in
          rw (b, o) (inspect_identified-Good bytes bits order)
