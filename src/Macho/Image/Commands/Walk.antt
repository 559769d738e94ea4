-- ===== src/Macho/Image/Commands/Walk.antt =====
-- The segment commands and the whole walk over the load commands, tool/sentry_macho.py.
use xfl_clash.Prelude.{
  ℕ, zero, suc, ◌+◌, ◌*◌, ◌≤◌, Bool, false, ◌||◌, [], ◌∷◌, ◌≡◌, refl, ltb, ◌==◌, length, All-append,
  Ensures-raise_if, Ensures-bind, arith, Bool-cases, inl, inr, ltb→le, or_false,
}
use xfl_clash.Binary.{Bytes, Endian, rejected, IsRejection, unpack_from-eq_ok, size, word}
use xfl_clash.Macho.Error.{
  truncated_command, bad_command_bounds, truncated_segment, bad_segment_bounds,
}
use xfl_clash.Macho.Image.Types.{Scan}
use xfl_clash.Macho.Image.Commands.{
  segment_format, section_format, uuid_command, symbol_command, segment_fields, segment_command,
  command_fields, read_command, read_commands,
}
use xfl_clash.Macho.Image.Commands.Bounds.{
  Good, SegmentFits, Walk, uuid_command-Good, symbol_command-Good, read_sections-Good,
}

headers_in_file :
    (cursor at width all segment section count : ℕ)
    → cursor ≡ at
    → at + width ≤ all
    → ltb width (segment + count * section) ≡ false
    → cursor + segment + section * count ≤ all
headers_in_file cursor at width all segment section count c h r = ground arith

header_in_file :
    (cursor at width all segment : ℕ)
    → cursor ≡ at
    → at + width ≤ all
    → ltb width segment ≡ false
    → cursor + segment ≤ all
header_in_file cursor at width all segment c h r = ground arith

command_in_file :
    (cursor at width stop all : ℕ)
    → cursor ≡ at
    → stop ≤ all
    → (ltb width 8 || ltb stop (cursor + width)) ≡ false
    → at + width ≤ all
command_in_file cursor at width stop all c h r = ground arith

module _ (bytes : Bytes) (start total : ℕ) where
  segment_fields-Good :
      (e : Endian) (wide : Bool) (width at : ℕ) (scan : Scan) (name : Bytes)
      (vmaddr vmsize file_start file_size sections : ℕ)
      → at + width ≤ length bytes
      → Walk bytes start total at scan
      → Good (Walk bytes start total at) (
          segment_fields e wide bytes start total width scan name vmaddr vmsize file_start file_size
            sections)
  unfolding segment_fields
  segment_fields-Good e wide width at scan name vmaddr vmsize file_start file_size sections h w =
      let bad =
        ltb total (file_start + file_size)
        || ltb width (size (segment_format wide) + sections * size (section_format wide)) in
      Ensures-raise_if IsRejection (Walk bytes start total at) bad (rejected bad_segment_bounds) _
        tt
        λ r.
          let (a, b) = or_false (ltb total (file_start + file_size)) _ r in
          read_sections-Good bytes start total e wide file_start file_size at
            (scan.cursor + size (segment_format wide)) sections _ (ltb→le _ _ a)
            (headers_in_file scan.cursor at width (length bytes) (size (segment_format wide))
              (size (section_format wide)) sections w.cursor h b)
            (record {
              cursor = w.cursor;
              identifiers = w.identifiers;
              segments =
                  All-append (SegmentFits total) scan.segments _ w.segments (ltb→le _ _ a, tt);
              sections = w.sections;
            })

  segment_command-Good :
      (e : Endian) (command width at : ℕ) (scan : Scan)
      → at + width ≤ length bytes
      → Walk bytes start total at scan
      → Good (Walk bytes start total at) (segment_command e bytes start total command width scan)
  unfolding segment_command
  segment_command-Good e command width at scan h w =
      elim (Bool-cases (command == 1 || command == 0x19)) [
        | inr n ↦ rw n w
        | inl y ↦ rw y (
            Ensures-raise_if IsRejection (Walk bytes start total at)
              (ltb width (size (segment_format (command == 0x19)))) (rejected truncated_segment) _
              tt
              λ r.
                rw
                  (unpack_from-eq_ok e (segment_format (command == 0x19)) bytes scan.cursor
                    (header_in_file scan.cursor at width (length bytes) _ w.cursor h r))
                  (segment_fields-Good e (command == 0x19) width at scan _ _ _ _ _ _ h w))
      ]

  -- What holds at every cursor of the walk.
  pub record WalkSomewhere (scan : Scan) : Type 0 where
    pub walk : Walk bytes start total scan.cursor scan

  command_fields-Good :
      (e : Endian) (wide : Bool) (stop at : ℕ) (scan : Scan) (command width : ℕ)
      → start + total ≤ length bytes
      → stop ≤ length bytes
      → Walk bytes start total at scan
      → Good WalkSomewhere (command_fields e wide bytes start total stop scan command width)
  unfolding command_fields
  command_fields-Good e wide stop at scan command width f g w =
      Ensures-raise_if IsRejection WalkSomewhere (ltb width 8 || ltb stop (scan.cursor + width))
        (rejected bad_command_bounds) _ tt
        λ r.
          let fits = command_in_file scan.cursor at width stop (length bytes) w.cursor g r in
          Ensures-bind IsRejection WalkSomewhere (Walk bytes start total at)
            (uuid_command bytes command width scan) _
            (uuid_command-Good bytes start total command width at scan fits w)
            λ a _ wa.
              Ensures-bind IsRejection WalkSomewhere (Walk bytes start total at)
                (symbol_command e wide bytes start total command width a) _
                (symbol_command-Good bytes start total e wide command width at a f fits wa)
                λ b _ wb.
                  Ensures-bind IsRejection WalkSomewhere (Walk bytes start total at)
                    (segment_command e bytes start total command width b) _
                    (segment_command-Good e command width at b fits wb)
                    λ c _ wc. record {
                      walk = record {
                        cursor = refl;
                        identifiers = wc.identifiers;
                        segments = wc.segments;
                        sections = wc.sections;
                      };
                    }

  read_command-Good :
      (e : Endian) (wide : Bool) (stop : ℕ) (scan : Scan)
      → start + total ≤ length bytes
      → stop ≤ length bytes
      → WalkSomewhere scan
      → Good WalkSomewhere (read_command e wide bytes start total stop scan)
  unfolding read_command
  read_command-Good e wide stop scan f g w =
      Ensures-raise_if IsRejection WalkSomewhere (ltb stop (scan.cursor + 8))
        (rejected truncated_command) _ tt
        λ r.
          rw (unpack_from-eq_ok e (word 4 ∷ word 4 ∷ []) bytes scan.cursor (ground arith))
            (command_fields-Good e wide stop scan.cursor scan _ _ f g w.walk)

  -- From a state with everything in place the walk ends in one, or raises `MachoError`.
  pub read_commands-Good :
      (e : Endian) (wide : Bool) (stop count : ℕ) (scan : Scan)
      → start + total ≤ length bytes
      → stop ≤ length bytes
      → WalkSomewhere scan
      → Good WalkSomewhere (read_commands e wide bytes start total stop count scan)
  unfolding read_commands
  read_commands-Good e wide stop zero scan f g w = w
  read_commands-Good e wide stop (suc count) scan f g w =
      Ensures-bind IsRejection WalkSomewhere WalkSomewhere
        (read_command e wide bytes start total stop scan)
        (read_commands e wide bytes start total stop count)
        (read_command-Good e wide stop scan f g w)
        λ scan' _ w'. read_commands-Good e wide stop count scan' f g w'
