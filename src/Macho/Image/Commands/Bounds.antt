-- ===== src/Macho/Image/Commands/Bounds.antt =====
-- The walk over the load commands of tool/sentry_macho.py reads inside the slice, and what it
-- records lies there.
use xfl_clash.Prelude.{
  ℕ, zero, suc, ◌+◌, ◌*◌, ◌≤◌, ◌<◌, Bool, true, false, not, ◌&&◌, ◌||◌, List, [], ◌∷◌, ◌≡◌, refl,
  ltb, ◌==◌, Text, is_one_of, length, length-take, length-drop, All, All-append, Result, ok,
  Ensures, Ensures-raise_if, Ensures-bind, arith, Bool-cases, inl, inr, ◌⊎◌, if◌then◌else◌, ◌++◌,
  take, drop, take-drop, ap, ◌∙◌, sym,
}
use mathlib.Core.Path.{subst}
use xfl_clash.Binary.{
  Bytes, slice, Endian, Fault, rejected, IsRejection, unpack_from-eq_ok, byte_at-eq_ok, size, hex,
  length-hex, length-slice, word, IsHexOf, hex-IsHexOf,
}
use xfl_clash.Macho.Error.{
  MachoError, bad_uuid_command, bad_symbol_command, bad_symbol_bounds, bad_section_bounds,
}
use xfl_clash.Macho.Image.Types.{Segment, Section, Scan}
use xfl_clash.Macho.Image.Commands.{
  section_format, uuid_text, add_new, has_oso, uuid_command, symbol_table, symbol_command,
  has_bytes, add_section, read_sections,
}

abbrev pub Good : {A : Type 0} → (A → Type 0) → Result (Fault MachoError) A → Type 0
Good P = Ensures IsRejection P

-- A segment's bytes lie in the slice of `total` bytes.
abbrev pub SegmentFits : ℕ → Segment → Type 0
SegmentFits total s = s.fileoff + s.filesize ≤ total

-- A section has no bytes in the file, or they lie in the slice that starts at `start`.
abbrev pub SectionFits : ℕ → ℕ → Section → Type 0
SectionFits start total s =
    (s.has_contents ≡ false) ⊎ ((start ≤ s.offset) × (s.offset + s.size ≤ start + total))

-- A UUID in its canonical form: 16 bytes of the file in hexadecimal, in groups of 8, 4, 4, 4 and
-- 12 digits with a dash between two groups.
pub record IsUuid (bytes : Bytes) (t : Text) : Type 0 where
  pub start : ℕ
  pub stop : ℕ
  pub sixteen : stop ≡ start + 16
  pub in_file : stop ≤ length bytes
  pub time_low : Text
  pub time_mid : Text
  pub time_high : Text
  pub clock : Text
  pub node : Text
  pub digits :
      IsHexOf (slice bytes start stop) (time_low ++ (time_mid ++ (time_high ++ (clock ++ node))))
  pub lengths :
      (length time_low ≡ 8)
      × (length time_mid ≡ 4)
      × (length time_high ≡ 4)
      × (length clock ≡ 4)
      × (length node ≡ 12)
  pub dashed :
      t
      ≡ time_low ++ (b'-' ∷ (time_mid ++ (b'-' ∷ (time_high ++ (b'-' ∷ (clock ++ (b'-' ∷ node)))))))

-- What holds of the walk's state with the cursor at `at`.
pub record Walk (bytes : Bytes) (start total at : ℕ) (scan : Scan) : Type 0 where
  pub cursor : scan.cursor ≡ at
  pub identifiers : All (IsUuid bytes) scan.identifiers
  pub segments : All (SegmentFits total) scan.segments
  pub sections : All (SectionFits start total) scan.sections

drop-nil : (n : ℕ) → drop {A = ℕ} n [] ≡ []
drop-nil zero = refl
drop-nil (suc n) = refl

drop-drop : (m n : ℕ) (s : Text) → drop m (drop n s) ≡ drop (n + m) s
drop-drop m zero s = ap (λ k. drop k s) (let e : m ≡ 0 + m = omega arith in e)
drop-drop m (suc n) [] = drop-nil m ∙ sym (drop-nil (suc n + m))
drop-drop m (suc n) (x ∷ s) =
    drop-drop m n s ∙ ap (λ k. drop k (x ∷ s)) (let e : suc (n + m) ≡ suc n + m = omega arith in e)

-- Cut after the digits of a first group, the rest is cut as before.
group : (n m : ℕ) (s rest : Text) → rest ≡ drop (n + m) s → take m (drop n s) ++ rest ≡ drop n s
group n m s rest e =
    ap (◌++◌ (take m (drop n s))) (e ∙ sym (drop-drop m n s)) ∙ take-drop m (drop n s)

groups :
    (s : Text)
    → take 8 s ++ (take 4 (drop 8 s) ++ (take 4 (drop 12 s) ++ (take 4 (drop 16 s) ++ drop 20 s)))
      ≡ s
groups s = group 0 8 s _ (group 8 4 s _ (group 12 4 s _ (group 16 4 s _ refl)))

uuid_text-IsUuid :
    (bytes : Bytes) (start stop : ℕ)
    → stop ≡ start + 16
    → stop ≤ length bytes
    → IsUuid bytes (uuid_text (slice bytes start stop))
unfolding uuid_text
uuid_text-IsUuid bytes start stop h k =
    let digits = hex (slice bytes start stop) in
    let l : length digits ≡ 32 =
      omega (arith, length-hex (slice bytes start stop), length-slice bytes start stop, h, k) in
    record {
      start = start;
      stop = stop;
      sixteen = h;
      in_file = k;
      time_low = take 8 digits;
      time_mid = take 4 (drop 8 digits);
      time_high = take 4 (drop 12 digits);
      clock = take 4 (drop 16 digits);
      node = drop 20 digits;
      digits =
          subst (IsHexOf (slice bytes start stop)) (sym (groups digits))
            (hex-IsHexOf (slice bytes start stop));
      lengths = (
        omega (arith, l, length-take {0}, length-drop {0}),
        omega (arith, l, length-take {0}, length-drop {0}),
        omega (arith, l, length-take {0}, length-drop {0}),
        omega (arith, l, length-take {0}, length-drop {0}),
        omega (arith, l, length-drop {0}),
      );
      dashed = refl;
    }

add_new-All :
    (bytes : Bytes) (t : Text) (ts : List Text)
    → IsUuid bytes t
    → All (IsUuid bytes) ts
    → All (IsUuid bytes) (add_new t ts)
add_new-All bytes t ts h k = elim (Bool-cases (is_one_of t ts)) [
  | inl e ↦ rw e k
  | inr e ↦ rw e (h, k)
]

oso_step :
    (b : Bool) (m : Result (Fault MachoError) Bool)
    → Good (λ _. Unit) m
    → Good (λ _. Unit) (elim b [ true ↦ ok true | false ↦ m ])
oso_step true m h = tt
oso_step false m h = h

has_oso-Good :
    (bytes : Bytes) (first stride count : ℕ)
    → first + stride * count < length bytes + stride
    → Good (λ _. Unit) (has_oso bytes first stride count)
unfolding has_oso
has_oso-Good bytes first stride zero h = tt
has_oso-Good bytes first stride (suc count) h =
    let (kind, e) = byte_at-eq_ok {E = MachoError} bytes first (grind arith) in
    rw e (
      oso_step (kind == 0x66) (has_oso bytes (first + stride) stride count)
        (has_oso-Good bytes (first + stride) stride count (grind arith)))

slice_24 :
    (bytes : Bytes) (cursor at width : ℕ)
    → cursor ≡ at
    → not (width == 24) ≡ false
    → at + width ≤ length bytes
    → cursor + 24 ≤ length bytes
slice_24 bytes cursor at width c r h = ground arith

oso_in_file :
    (wide : Bool) (all start total a b : ℕ) (other : Bool)
    → start + total ≤ all
    → (ltb total (a + b * (if wide then 16 else 12)) || other) ≡ false
    → start + a + 4 + (if wide then 16 else 12) * b < all + (if wide then 16 else 12)
oso_in_file true all start total a b other h r = ground arith
oso_in_file false all start total a b other h r = ground arith

section_fits :
    (start total file_start file_size offset n : ℕ) (contents : Bool)
    → file_start + file_size ≤ total
    → (contents && (ltb offset file_start || ltb (file_start + file_size) (offset + n))) ≡ false
    → (contents ≡ false) ⊎ ((start ≤ start + offset) × (start + offset + n ≤ start + total))
section_fits start total file_start file_size offset n false h r = inl refl
section_fits start total file_start file_size offset n true h r = inr (ground arith)

module _ (bytes : Bytes) (start total : ℕ) where
  pub uuid_command-Good :
      (command width at : ℕ) (scan : Scan)
      → at + width ≤ length bytes
      → Walk bytes start total at scan
      → Good (Walk bytes start total at) (uuid_command bytes command width scan)
  unfolding uuid_command
  uuid_command-Good command width at scan h w = elim (Bool-cases (command == 0x1b)) [
    | inr e ↦ rw e w
    | inl e ↦ rw e (
        Ensures-raise_if IsRejection (Walk bytes start total at) (not (width == 24))
          (rejected bad_uuid_command) _ tt
          λ r. record {
            cursor = w.cursor;
            identifiers =
                add_new-All bytes (uuid_text (slice bytes (scan.cursor + 8) (scan.cursor + 24)))
                  scan.identifiers
                  (uuid_text-IsUuid bytes (scan.cursor + 8) (scan.cursor + 24) (omega arith)
                    (slice_24 bytes scan.cursor at width w.cursor r h))
                  w.identifiers;
            segments = w.segments;
            sections = w.sections;
          })
  ]

  symbol_table-Good :
      (wide : Bool) (at : ℕ) (scan : Scan) (a b c d : ℕ)
      → start + total ≤ length bytes
      → Walk bytes start total at scan
      → Good (Walk bytes start total at) (symbol_table wide bytes start total scan a b c d)
  unfolding symbol_table
  symbol_table-Good wide at scan a b c d h w =
      let stride : ℕ = if wide then 16 else 12 in
      Ensures-raise_if IsRejection (Walk bytes start total at)
        (ltb total (a + b * stride) || ltb total (c + d)) (rejected bad_symbol_bounds) _ tt
        λ r.
          Ensures-bind IsRejection (Walk bytes start total at) (λ _. Unit)
            (has_oso bytes (start + a + 4) stride b)
            (λ found. ok (record scan { oso_symbols = found }))
            (has_oso-Good bytes (start + a + 4) stride b
              (oso_in_file wide (length bytes) start total a b (ltb total (c + d)) h r))
            λ found _ _. record {
              cursor = w.cursor;
              identifiers = w.identifiers;
              segments = w.segments;
              sections = w.sections;
            }

  pub symbol_command-Good :
      (e : Endian) (wide : Bool) (command width at : ℕ) (scan : Scan)
      → start + total ≤ length bytes
      → at + width ≤ length bytes
      → Walk bytes start total at scan
      → Good
          (Walk bytes start total at)
          (symbol_command e wide bytes start total command width scan)
  unfolding symbol_command
  symbol_command-Good e wide command width at scan f h w = elim (Bool-cases (command == 2)) [
    | inr n ↦ rw n w
    | inl y ↦ rw y (
        Ensures-raise_if IsRejection (Walk bytes start total at) (not (width == 24))
          (rejected bad_symbol_command) _ tt
          λ r.
            rw
              (unpack_from-eq_ok e (word 4 ∷ word 4 ∷ word 4 ∷ word 4 ∷ []) bytes (scan.cursor + 8)
                (ground (arith, w.cursor)))
              (symbol_table-Good wide at scan _ _ _ _ f w))
  ]

  add_section-Good :
      (at file_start file_size : ℕ) (scan : Scan) (raw_name raw_segment : Bytes)
      (addr n offset align flags : ℕ)
      → file_start + file_size ≤ total
      → Walk bytes start total at scan
      → Good (Walk bytes start total at) (
          add_section start file_start file_size scan raw_name raw_segment addr n offset align
            flags)
  unfolding add_section
  add_section-Good at file_start file_size scan raw_name raw_segment addr n offset align flags h w =
      let contents = has_bytes offset n file_size flags in
      Ensures-raise_if IsRejection (Walk bytes start total at)
        (contents && (ltb offset file_start || ltb (file_start + file_size) (offset + n)))
        (rejected bad_section_bounds) _ tt
        λ r. record {
          cursor = w.cursor;
          identifiers = w.identifiers;
          segments = w.segments;
          sections =
              All-append (SectionFits start total) scan.sections _ w.sections
                (section_fits start total file_start file_size offset n contents h r, tt);
        }

  pub read_sections-Good :
      (e : Endian) (wide : Bool) (file_start file_size at position count : ℕ) (scan : Scan)
      → file_start + file_size ≤ total
      → position + size (section_format wide) * count ≤ length bytes
      → Walk bytes start total at scan
      → Good
          (Walk bytes start total at)
          (read_sections e wide bytes start file_start file_size position count scan)
  unfolding read_sections
  read_sections-Good e wide file_start file_size at position zero scan h k w = w
  read_sections-Good e wide file_start file_size at position (suc count) scan h k w =
      let fits : (position + size (section_format wide) ≤ length bytes)
          × (position + size (section_format wide) + size (section_format wide) * count
              ≤ length bytes) =
        grind arith in
      rw (unpack_from-eq_ok e (section_format wide) bytes position fits.0) (
        Ensures-bind IsRejection (Walk bytes start total at) (Walk bytes start total at) _
          (read_sections e wide bytes start file_start file_size
            (position + size (section_format wide)) count)
          (add_section-Good at file_start file_size scan _ _ _ _ _ _ _ h w)
          λ scan' _ w'.
            read_sections-Good e wide file_start file_size at
              (position + size (section_format wide)) count scan' h fits.1 w')
