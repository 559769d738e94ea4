-- ===== src/Macho/Universal/Images.antt =====
-- The inventory of `inspect_macho` of tool/sentry_macho.py.
use mathlib.Core.Path.{subst₂}
use mathlib.Core.List.{map-append}
use xfl_clash.Prelude.{
  ℕ, zero, suc, ◌+◌, ◌*◌, ◌≤◌, Bool, false, not, ◌&&◌, ◌||◌, Option, some, none, List, [], ◌∷◌, map,
  ◌≡◌, refl, sym, ltb, leb, ◌==◌, ◌==ₜ◌, length, length-append, any, All, All-append, Pairs,
  Pairs-snoc, any-All, Ensures-raise_if, Ensures-bind, arith, inl, inr, Bool-cases,
}
use xfl_clash.Prelude.Int.{ℤ, signed_32, ◌==ℤ◌}
use xfl_clash.Binary.{
  Bytes, slice, Endian, word, rejected, IsRejection, unpack_from, unpack_from-Ensures, size, num_at,
}
use xfl_clash.Macho.Error.{
  MachoError, bad_universal_header, bad_universal_slice, overlapping_slices, truncated_header,
  unsupported_header, slice_cpu_mismatch, duplicate_architecture,
}
use xfl_clash.Macho.Image.Types.{Image}
use xfl_clash.Macho.Image.{thin_magic, thin}
use xfl_clash.Macho.Image.Commands.Bounds.{Good}
use xfl_clash.Macho.Image.Sound.{IsImage, thin-Good}
use xfl_clash.Macho.Universal.{
  Range, overlaps, entry_format, fat_magic, Inventory, Variants, add_variant, read_variants,
  universal_of, universal, inspect_macho, is_some,
}
use xfl_clash.Macho.Universal.Slices.{Apart, All-Apart, count_in_range, table_read}

abbrev pub image_range : Image → Range
image_range i = record { begin = i.offset; stop = i.offset + i.size }

abbrev pub OtherArchitecture : Image → Image → Type 0
OtherArchitecture u v = (v.architecture ==ₜ u.architecture) ≡ false

abbrev pub ImageOf : Bytes → Image → Type 0
ImageOf bytes i = IsImage bytes i.offset i.size i

-- What the inventory says of the file.
pub record IsInventory (bytes : Bytes) (variants : List Image) : Type 0 where
  pub images : All (ImageOf bytes) variants
  pub apart : Pairs Apart (map image_range variants)
  pub architectures : Pairs OtherArchitecture variants

record Seen (bytes : Bytes) (count : ℕ) (seen : Variants) : Type 0 where
  inventory : IsInventory bytes seen.variants
  same : seen.ranges ≡ map image_range seen.variants
  counted : length seen.variants ≡ count

own_image :
    (bytes : Bytes) (start total : ℕ) (i : Image) → IsImage bytes start total i → ImageOf bytes i
own_image bytes start total i h =
    subst₂ (λ s t. IsImage bytes s t i) (sym h.offset) (sym h.size_is) h

module _ (bytes : Bytes) (end : ℕ) where
  add_variant-Good :
      (count : ℕ) (seen : Variants) (cpu subtype : ℤ) (offset total : ℕ)
      → Seen bytes count seen
      → Good (Seen bytes (suc count)) (add_variant bytes end seen cpu subtype offset total)
  unfolding add_variant
  add_variant-Good count seen cpu subtype offset total s =
      Ensures-raise_if IsRejection (Seen bytes (suc count))
        (ltb offset end || total == 0 || ltb (length bytes) (offset + total))
        (rejected bad_universal_slice) _ tt
        λ a.
          Ensures-raise_if IsRejection (Seen bytes (suc count)) (overlaps offset total seen.ranges)
            (rejected overlapping_slices) _ tt
            λ b.
              Ensures-bind IsRejection (Seen bytes (suc count)) (IsImage bytes offset total)
                (thin bytes offset total) _ (thin-Good bytes offset total)
                λ image _ i.
                  Ensures-raise_if IsRejection (Seen bytes (suc count))
                    (not (image.cpu_type ==ℤ cpu) || not (image.cpu_subtype ==ℤ subtype))
                    (rejected slice_cpu_mismatch) _ tt
                    λ _.
                      Ensures-raise_if IsRejection (Seen bytes (suc count))
                        (any (λ v. image.architecture ==ₜ v.architecture) seen.variants)
                        (rejected duplicate_architecture) _ tt
                        λ c. record {
                          inventory = record {
                            images =
                                All-append (ImageOf bytes) seen.variants (image ∷ [])
                                  s.inventory.images (own_image bytes offset total image i, tt);
                            apart = rw map-append (
                                Pairs-snoc Apart (map image_range seen.variants) (image_range image)
                                  s.inventory.apart
                                  (rw (i.offset, i.size_is)
                                    (All-Apart offset total (map image_range seen.variants)
                                      (rw s.same at b))));
                            architectures =
                                Pairs-snoc OtherArchitecture seen.variants image
                                  s.inventory.architectures
                                  (any-All (λ v. OtherArchitecture v image)
                                    (λ v. image.architecture ==ₜ v.architecture) seen.variants
                                    (λ v h. h) c);
                          };
                          same = rw (map-append, s.same, i.offset, i.size_is) refl;
                          counted =
                              omega (arith, length-append seen.variants (image ∷ []), s.counted);
                        }

  read_variants-Good :
      (e : Endian) (wide : Bool) (at k count n : ℕ) (seen : Variants)
      → k + count ≡ n
      → at + size (entry_format wide) * count ≤ length bytes
      → Seen bytes k seen
      → Good (Seen bytes n) (read_variants e wide bytes end at count seen)
  unfolding read_variants
  read_variants-Good e wide at k zero n seen c h s = let z : k ≡ n = omega arith in rw (← z) s
  read_variants-Good e wide at k (suc count) n seen c h s =
      let fits : (at + size (entry_format wide) ≤ length bytes)
          × (at + size (entry_format wide) + size (entry_format wide) * count ≤ length bytes) =
        grind arith in
      Ensures-bind IsRejection (Seen bytes n) (λ _. Unit)
        (unpack_from e (entry_format wide) bytes at) _
        (unpack_from-Ensures MachoError e (entry_format wide) bytes at fits.0)
        λ info _ _.
          Ensures-bind IsRejection (Seen bytes n) (Seen bytes (suc k)) _
            (read_variants e wide bytes end (at + size (entry_format wide)) count)
            (add_variant-Good k seen (signed_32 (num_at info 0)) (signed_32 (num_at info 1))
              (num_at info 2) (num_at info 3) s)
            λ seen' _ s'.
              read_variants-Good e wide (at + size (entry_format wide)) (suc k) count n seen'
                (omega arith) fits.1 s'

-- The images of an inventory, which are one to 64.
pub record Inspected (bytes : Bytes) (inventory : Inventory) : Type 0 where
  pub of_file : IsInventory bytes inventory.variants
  pub low : 1 ≤ length inventory.variants
  pub high : length inventory.variants ≤ 64

universal_of-Good :
    (e : Endian) (wide : Bool) (bytes : Bytes) (count : ℕ)
    → Good (Inspected bytes) (universal_of e wide bytes count)
unfolding universal_of
universal_of-Good e wide bytes count =
    let end = 8 + count * size (entry_format wide) in
    Ensures-raise_if IsRejection (Inspected bytes)
      (not (ltb 0 count && leb count 64) || ltb (length bytes) end) (rejected bad_universal_header)
      _ tt
      λ r.
        let (low, high, fits) = count_in_range count (length bytes) end r in
        Ensures-bind IsRejection (Inspected bytes) (Seen bytes count)
          (read_variants e wide bytes end 8 count (record { variants = []; ranges = [] })) _
          (read_variants-Good bytes end e wide 8 0 count count
            (record { variants = []; ranges = [] }) (omega arith)
            (table_read count (size (entry_format wide)) (length bytes) fits)
            (record {
              inventory = record { images = tt; apart = tt; architectures = tt };
              same = refl;
              counted = refl;
            }))
          λ seen _ s. record {
            of_file = s.inventory;
            low = omega (arith, s.counted);
            high = omega (arith, s.counted);
          }

universal-Good :
    (bytes : Bytes) (m : Option (Endian × Bool)) → Good (Inspected bytes) (universal bytes m)
unfolding universal
universal-Good bytes none = tt
universal-Good bytes (some (e, wide)) =
    Ensures-raise_if IsRejection (Inspected bytes) (ltb (length bytes) 8)
      (rejected unsupported_header) _ tt
      λ r.
        Ensures-bind IsRejection (Inspected bytes) (λ _. Unit) (unpack_from e (word 4 ∷ []) bytes 4)
          _ (unpack_from-Ensures MachoError e (word 4 ∷ []) bytes 4 (ground arith))
          λ fields _ _. universal_of-Good e wide bytes (num_at fields 0)

-- On any bytes inspect_macho returns or raises MachoError. The images it returns are one to 64,
-- each a sound report of a slice of the file; the slices do not overlap, and no two images have
-- one architecture.
pub inspect_macho-Good : (bytes : Bytes) → Good (Inspected bytes) (inspect_macho bytes)
unfolding inspect_macho
inspect_macho-Good bytes =
    Ensures-raise_if IsRejection (Inspected bytes) (ltb (length bytes) 4)
      (rejected truncated_header) _ tt
      λ _. elim (Bool-cases (is_some (thin_magic (slice bytes 0 4)))) [
        | inr n ↦ rw n (universal-Good bytes (fat_magic (slice bytes 0 4)))
        | inl y ↦ rw y (
            Ensures-bind IsRejection (Inspected bytes) (IsImage bytes 0 (length bytes))
              (thin bytes 0 (length bytes)) _ (thin-Good bytes 0 (length bytes))
              λ image _ i. record {
                of_file = record {
                  images = (own_image bytes 0 (length bytes) image i, tt);
                  apart = (tt, tt);
                  architectures = (tt, tt);
                };
                low = omega arith;
                high = omega arith;
              })
      ]
