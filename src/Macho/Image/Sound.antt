-- ===== src/Macho/Image/Sound.antt =====
-- `_thin` of tool/sentry_macho.py on any bytes: what it reports, and which exceptions it lets out.
use xfl_clash.Prelude.{
  ℕ, ◌+◌, ◌≤◌, Bool, true, false, not, ◌||◌, List, [], ◌∷◌, ◌≡◌, refl, ltb, ◌==◌, Option, some,
  none, Text, length, All, Ensures-raise_if, Ensures-bind, arith, inl, inr, ◌⊎◌,
}
use xfl_clash.Prelude.Int.{ℤ, signed_32}
use xfl_clash.Binary.{Bytes, slice, Endian, rejected, IsRejection, unpack_from-eq_ok, size}
use xfl_clash.Macho.Error.{bad_slice_bounds, bad_command_table, conflicting_identifiers}
use xfl_clash.Macho.Image.Types.{Image, Scan, no_commands}
use xfl_clash.Macho.Image.Commands.{read_commands}
use xfl_clash.Macho.Image.Commands.Bounds.{Good, SegmentFits, SectionFits, IsUuid}
use xfl_clash.Macho.Image.Commands.Walk.{WalkSomewhere, read_commands-Good}
use xfl_clash.Macho.Image.{
  thin_magic, image_format, architecture_of, is_supported_type, supported, identifier, image_of,
  thin_fields, known_magic, thin_header, thin,
}

-- What the report says of a slice of `total` bytes that starts at `start`.
pub record IsImage (bytes : Bytes) (start total : ℕ) (image : Image) : Type 0 where
  pub offset : image.offset ≡ start
  pub size_is : image.size ≡ total
  pub in_file : start + total ≤ length bytes
  pub uuid : (image.uuid ≡ []) ⊎ IsUuid bytes image.uuid
  pub segments : All (SegmentFits total) image.segments
  pub sections : All (SectionFits start total) image.sections

supported-Good : (a : Option Text) (b : Bool) → Good (λ _. Unit) (supported a b)
supported-Good none b = tt
supported-Good (some a) true = tt
supported-Good (some a) false = tt

known_magic-Good : (m : Option (Endian × Bool)) → Good (λ _. Unit) (known_magic m)
known_magic-Good none = tt
known_magic-Good (some m) = tt

identifier-IsUuid :
    (bytes : Bytes) (ids : List Text)
    → All (IsUuid bytes) ids
    → (identifier ids ≡ []) ⊎ IsUuid bytes (identifier ids)
identifier-IsUuid bytes [] h = inl refl
identifier-IsUuid bytes (i ∷ is) h = inr h.0

table_in_file :
    (end all stop : ℕ) (many : Bool) → end ≤ all → (many || ltb end stop) ≡ false → stop ≤ all
table_in_file end all stop many h r = ground arith

slice_in_file :
    (header total end all : ℕ)
    → (ltb total header || ltb all end) ≡ false
    → (header ≤ total) × (end ≤ all)
slice_in_file header total end all r = ground arith

module _ (bytes : Bytes) (start total : ℕ) where
  image_of-Good :
      (e : Endian) (architecture : Text) (cpu subtype : ℤ) (filetype stop : ℕ) (scan : Scan)
      → start + total ≤ length bytes
      → WalkSomewhere bytes start total scan
      → Good
          (IsImage bytes start total)
          (image_of e architecture cpu subtype filetype start total stop scan)
  unfolding image_of
  image_of-Good e architecture cpu subtype filetype stop scan f w =
      Ensures-raise_if IsRejection (IsImage bytes start total)
        (not (scan.cursor == stop) || ltb 1 (length scan.identifiers))
        (rejected conflicting_identifiers) _ tt
        λ _. record {
          offset = refl;
          size_is = refl;
          in_file = f;
          uuid = identifier-IsUuid bytes scan.identifiers w.walk.identifiers;
          segments = w.walk.segments;
          sections = w.walk.sections;
        }

  thin_fields-Good :
      (e : Endian) (wide : Bool) (cpu subtype filetype count n : ℕ)
      → start + total ≤ length bytes
      → Good
          (IsImage bytes start total)
          (thin_fields e wide bytes start total cpu subtype filetype count n)
  unfolding thin_fields
  thin_fields-Good e wide cpu subtype filetype count n f =
      let cursor = start + size (image_format wide) in
      let stop = cursor + n in
      Ensures-bind IsRejection (IsImage bytes start total) (λ _. Unit)
        (supported (architecture_of (signed_32 cpu)) (is_supported_type filetype)) _
        (supported-Good (architecture_of (signed_32 cpu)) (is_supported_type filetype))
        λ a _ _.
          Ensures-raise_if IsRejection (IsImage bytes start total)
            (ltb 100000 count || ltb (start + total) stop) (rejected bad_command_table) _ tt
            λ r.
              Ensures-bind IsRejection (IsImage bytes start total) (WalkSomewhere bytes start total)
                (read_commands e wide bytes start total stop count (no_commands cursor)) _
                (read_commands-Good bytes start total e wide stop count (no_commands cursor) f
                  (table_in_file (start + total) (length bytes) stop (ltb 100000 count) f r)
                  (record {
                    walk = record { cursor = refl; identifiers = tt; segments = tt; sections = tt };
                  }))
                λ scan _ w.
                  image_of-Good e a (signed_32 cpu) (signed_32 subtype) filetype stop scan f w

  thin_header-Good :
      (e : Endian) (wide : Bool)
      → Good (IsImage bytes start total) (thin_header e wide bytes start total)
  unfolding thin_header
  thin_header-Good e wide =
      Ensures-raise_if IsRejection (IsImage bytes start total)
        (ltb total (size (image_format wide)) || ltb (length bytes) (start + total))
        (rejected bad_slice_bounds) _ tt
        λ r.
          let (header, fits) =
            slice_in_file (size (image_format wide)) total (start + total) (length bytes) r in
          rw (unpack_from-eq_ok e (image_format wide) bytes start (omega arith))
            (thin_fields-Good e wide _ _ _ _ _ fits)

  -- On any bytes and bounds _thin returns or raises MachoError. A report is of a slice inside the
  -- file; its UUID is empty or the hexadecimal form, in lower case, of 16 bytes of the file, in
  -- groups of 8, 4, 4, 4 and 12 digits with dashes between; its segments' bytes lie in the slice,
  -- and so do those of each section that has contents.
  pub thin-Good : Good (IsImage bytes start total) (thin bytes start total)
  unfolding thin
  thin-Good =
      Ensures-bind IsRejection (IsImage bytes start total) (λ _. Unit)
        (known_magic (thin_magic (slice bytes start (start + 4)))) _
        (known_magic-Good (thin_magic (slice bytes start (start + 4))))
        λ m _ _. thin_header-Good m.0 m.1
