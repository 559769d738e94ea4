-- ===== src/Macho/Universal/Slices.antt =====
-- The slices of a universal file: `_fat_entries` and `inspect_macho` of tool/sentry_macho.py.
use mathlib.Core.List.{map-append}
use xfl_clash.Prelude.{
  ℕ, zero, suc, ◌+◌, ◌*◌, ◌%◌, ◌^◌, ◌≤◌, ◌<◌, Bool, true, false, not, ◌&&◌, ◌||◌, Option, some,
  none, List, [], ◌∷◌, ◌++◌, map, ◌≡◌, refl, ltb, leb, ◌==◌, length, length-append, any, All,
  All-append, Pairs, Pairs-snoc, any-All, ok, Ensures-raise_if, Ensures-bind, arith, ◌⊎◌, or_false,
}
use xfl_clash.Prelude.Int.{ℤ, signed_32}
use xfl_clash.Binary.{
  Bytes, slice, Endian, word, rejected, IsRejection, unpack_from, unpack_from-Ensures, size, num_at,
}
use xfl_clash.Macho.Error.{
  MachoError, bad_universal_header, bad_universal_slice, overlapping_slices, duplicate_cpu,
}
use xfl_clash.Macho.Image.Commands.Bounds.{Good}
use xfl_clash.Macho.Universal.{
  Range, Entry, Entries, overlaps, same_cpu, entry_format, fat_magic, known_fat, add_entry,
  read_entries, fat_entries_of, fat_entries,
}

abbrev pub Apart : Range → Range → Type 0
Apart r s = (r.stop ≤ s.begin) ⊎ (s.stop ≤ r.begin)

abbrev pub DifferentCpu : Entry → Entry → Type 0
DifferentCpu e f = same_cpu f.cpu_type f.cpu_subtype e ≡ false

abbrev pub range_of : Entry → Range
range_of e = record { begin = e.offset; stop = e.offset + e.size }

-- The slice is not empty and lies between the table and the end of the file.
abbrev pub InPayload : ℕ → ℕ → Entry → Type 0
InPayload end all e = (end ≤ e.offset) × (0 < e.size) × (e.offset + e.size ≤ all)

-- What holds of the slices that were accepted.
pub record Layout (end all count : ℕ) (es : List Entry) : Type 0 where
  pub counted : length es ≡ count
  pub in_payload : All (InPayload end all) es
  pub apart : Pairs Apart (map range_of es)
  pub cpus : Pairs DifferentCpu es

record Seen (end all count : ℕ) (seen : Entries) : Type 0 where
  layout : Layout end all count seen.result
  same : seen.ranges ≡ map range_of seen.result

Apart-of :
    (offset total : ℕ) (r : Range)
    → (ltb offset r.stop && ltb r.begin (offset + total)) ≡ false
    → Apart r (record { begin = offset; stop = offset + total })
Apart-of offset total r h = ground arith

pub All-Apart :
    (offset total : ℕ) (rs : List Range)
    → overlaps offset total rs ≡ false
    → All (λ r. Apart r (record { begin = offset; stop = offset + total })) rs
All-Apart offset total rs h =
    any-All (λ r. Apart r (record { begin = offset; stop = offset + total }))
      (λ r. ltb offset r.stop && ltb r.begin (offset + total)) rs (Apart-of offset total) h

pub bounds_of :
    (offset end total all : ℕ)
    → (ltb offset end || total == 0 || ltb all (offset + total)) ≡ false
    → (end ≤ offset) × (0 < total) × (offset + total ≤ all)
bounds_of offset end total all h = ground arith

module _ (end all : ℕ) where
  add_entry-Good :
      (count : ℕ) (seen : Entries) (cpu subtype : ℤ) (offset total alignment : ℕ)
      → Seen end all count seen
      → Good (Seen end all (suc count)) (add_entry all end seen cpu subtype offset total alignment)
  unfolding add_entry
  add_entry-Good count seen cpu subtype offset total alignment s =
      Ensures-raise_if IsRejection (Seen end all (suc count))
        (ltb offset end
          || total == 0
          || ltb all (offset + total)
          || ltb 31 alignment
          || not (offset % 2 ^ alignment == 0))
        (rejected bad_universal_slice) _ tt
        λ a.
          Ensures-raise_if IsRejection (Seen end all (suc count))
            (overlaps offset total seen.ranges) (rejected overlapping_slices) _ tt
            λ b.
              Ensures-raise_if IsRejection (Seen end all (suc count))
                (any (same_cpu cpu subtype) seen.result) (rejected duplicate_cpu) _ tt
                λ c. added a b c
    where
      new : Entry
      new = record { cpu_type = cpu; cpu_subtype = subtype; offset = offset; size = total }

      added :
          (ltb offset end
              || total == 0
              || ltb all (offset + total)
              || ltb 31 alignment
              || not (offset % 2 ^ alignment == 0))
            ≡ false
          → overlaps offset total seen.ranges ≡ false
          → any (same_cpu cpu subtype) seen.result ≡ false
          → Seen end all (suc count) (record {
            result = seen.result ++ new ∷ [];
            ranges = seen.ranges ++ range_of new ∷ [];
          })
      added a b c = record {
        layout = record {
          counted = omega (arith, length-append seen.result (new ∷ []), s.layout.counted);
          in_payload = All-append (InPayload end all) seen.result (new ∷ []) s.layout.in_payload (
            bounds_of offset end total all
                (or_false _ (ltb 31 alignment)
                  (or_false _ (not (offset % 2 ^ alignment == 0)) a).0).0,
            tt,
          );
          apart = rw map-append (
              Pairs-snoc Apart (map range_of seen.result) (range_of new) s.layout.apart
                (All-Apart offset total (map range_of seen.result) (rw s.same at b)));
          cpus =
              Pairs-snoc DifferentCpu seen.result new s.layout.cpus
                (any-All (λ e. DifferentCpu e new) (same_cpu cpu subtype) seen.result (λ e h. h) c);
        };
        same = rw (map-append, s.same) refl;
      }

  read_entries-Good :
      (e : Endian) (wide : Bool) (bytes : Bytes) (at k count n : ℕ) (seen : Entries)
      → k + count ≡ n
      → length bytes ≡ all
      → at + size (entry_format wide) * count ≤ length bytes
      → Seen end all k seen
      → Good (Seen end all n) (read_entries e wide bytes end at count seen)
  unfolding read_entries
  read_entries-Good e wide bytes at k zero n seen c l h s =
      let z : k ≡ n = omega arith in rw (← z) s
  read_entries-Good e wide bytes at k (suc count) n seen c l h s =
      let fits : (at + size (entry_format wide) ≤ length bytes)
          × (at + size (entry_format wide) + size (entry_format wide) * count ≤ length bytes) =
        grind arith in
      Ensures-bind IsRejection (Seen end all n) (λ _. Unit)
        (unpack_from e (entry_format wide) bytes at) _
        (unpack_from-Ensures MachoError e (entry_format wide) bytes at fits.0)
        λ info _ _.
          Ensures-bind IsRejection (Seen end all n) (Seen end all (suc k)) _
            (read_entries e wide bytes end (at + size (entry_format wide)) count)
            (rw l (
              add_entry-Good k seen (signed_32 (num_at info 0)) (signed_32 (num_at info 1))
                (num_at info 2) (num_at info 3) (num_at info 4) s))
            λ seen' _ s'.
              read_entries-Good e wide bytes (at + size (entry_format wide)) (suc k) count n seen'
                (omega arith) l fits.1 s'

-- The slices of a universal header: between one and 64, behind the table that lists them.
pub record FatLayout (bytes : Bytes) (es : List Entry) : Type 0 where
  pub table_end : ℕ
  pub low : 1 ≤ length es
  pub high : length es ≤ 64
  pub table : 8 + 20 * length es ≤ table_end
  pub layout : Layout table_end (length bytes) (length es) es

pub count_in_range :
    (count all end : ℕ)
    → (not (ltb 0 count && leb count 64) || ltb all end) ≡ false
    → (0 < count) × (count ≤ 64) × (end ≤ all)
count_in_range count all end h = ground arith

entry_size : (wide : Bool) → (20 ≤ size (entry_format wide))
entry_size true = omega arith
entry_size false = omega arith

pub table_read : (count n all : ℕ) → 8 + count * n ≤ all → 8 + n * count ≤ all
table_read count n all h = grind arith

table_size : (count n : ℕ) → 20 ≤ n → 8 + 20 * count ≤ 8 + count * n
table_size count n h = grind arith

fat_entries_of-Good :
    (e : Endian) (wide : Bool) (bytes : Bytes) (count : ℕ)
    → Good (FatLayout bytes) (fat_entries_of e wide bytes count)
unfolding fat_entries_of
fat_entries_of-Good e wide bytes count =
    let end = 8 + count * size (entry_format wide) in
    Ensures-raise_if IsRejection (FatLayout bytes)
      (not (ltb 0 count && leb count 64) || ltb (length bytes) end) (rejected bad_universal_header)
      _ tt
      λ r.
        let (low, high, fits) = count_in_range count (length bytes) end r in
        Ensures-bind IsRejection (FatLayout bytes) (Seen end (length bytes) count)
          (read_entries e wide bytes end 8 count (record { result = []; ranges = [] }))
          (λ seen. ok seen.result)
          (read_entries-Good end (length bytes) e wide bytes 8 0 count count
            (record { result = []; ranges = [] }) (omega arith) refl
            (table_read count (size (entry_format wide)) (length bytes) fits)
            (record {
              layout = record { counted = refl; in_payload = tt; apart = tt; cpus = tt };
              same = refl;
            }))
          λ seen _ s. record {
            table_end = end;
            low = omega (arith, s.layout.counted);
            high = omega (arith, s.layout.counted);
            table =
                rw s.layout.counted (table_size count (size (entry_format wide)) (entry_size wide));
            layout = rw s.layout.counted s.layout;
          }

known_fat-Good : (m : Option (Endian × Bool)) (b : Bool) → Good (λ _. b ≡ false) (known_fat m b)
known_fat-Good none b = tt
known_fat-Good (some m) true = tt
known_fat-Good (some m) false = refl

-- On any bytes _fat_entries returns or raises MachoError. The slices it returns are one to 64, lie
-- in the file behind the table, are not empty, do not overlap, and are for different CPUs.
pub fat_entries-Good : (bytes : Bytes) → Good (FatLayout bytes) (fat_entries bytes)
unfolding fat_entries
fat_entries-Good bytes =
    Ensures-bind IsRejection (FatLayout bytes) (λ _. ltb (length bytes) 8 ≡ false)
      (known_fat (fat_magic (slice bytes 0 4)) (ltb (length bytes) 8)) _
      (known_fat-Good (fat_magic (slice bytes 0 4)) (ltb (length bytes) 8))
      λ m _ h.
        Ensures-bind IsRejection (FatLayout bytes) (λ _. Unit)
          (unpack_from m.0 (word 4 ∷ []) bytes 4) _
          (unpack_from-Ensures MachoError m.0 (word 4 ∷ []) bytes 4 (ground arith))
          λ fields _ _. fat_entries_of-Good m.0 m.1 bytes (num_at fields 0)
