-- ===== src/Macho/Archive/Members.antt =====
-- The member loop of tool/sentry_macho.py ends on any bytes, and reads inside the archive.
use xfl_clash.Prelude.{
  ℕ, zero, suc, ◌+◌, ◌-◌, ◌%◌, ◌≤◌, ◌<◌, not, ◌&&◌, ◌||◌, Option, some, none, List, [], ◌∷◌, ltb,
  leb, ◌==◌, Text, codes, ◌==ₜ◌, is_one_of, starts_with, all_digits, to_number, rstrip, any, all,
  take, drop, length, ok, Ensures-raise_if, Ensures-bind, arith, inl, inr, Bool-cases, Option-cases,
  ltb→lt, All, any-All, Bool, true, false, ◌≡◌, refl,
}
use xfl_clash.Prelude.Int.{ℤ}
use xfl_clash.Binary.{Bytes, slice, rejected, IsRejection}
use xfl_clash.Macho.Error.{
  bad_archive_header, bad_member_table, bad_member_header, bad_member_metadata, bad_member_bounds,
  bad_bsd_name, bad_gnu_name, bad_object_member, not_relocatable, member_cpu_mismatch,
  bad_archive_padding, no_object_members, mixed_slices,
}
use xfl_clash.Macho.Image.{thin}
use xfl_clash.Macho.Image.Commands.Bounds.{Good}
use xfl_clash.Macho.Image.Sound.{IsImage, thin-Good}
use xfl_clash.Macho.Universal.{fat_magic, fat_entries, is_some, Entry}
use xfl_clash.Macho.Universal.Slices.{FatLayout, fat_entries-Good}
use xfl_clash.Macho.Archive.{
  MemberScan, Named, archive_magic, has_valid_end, has_valid_metadata, member_width, long_name,
  gnu_name, bsd_name, member_name, table_names, cpu_mismatch, add_new, object_member, read_member,
  read_members, archive_architectures, is_archive_entry, union, universal_architectures,
  universal_archive, static_archive_architectures,
}

abbrev Anything : {A : Type 0} → A → Type 0
Anything a = Unit

gnu_name-Good : (names : Bytes) (payload index : ℕ) → Good Anything (gnu_name names payload index)
unfolding gnu_name
gnu_name-Good names payload index =
    Ensures-raise_if IsRejection Anything (leb (length names) index) (rejected bad_gnu_name) _ tt
      λ _. elim (Option-cases (long_name (drop index names))) [
        | inl e ↦ rw e tt
        | inr (name, e) ↦ rw e tt
      ]

bsd_name-Good :
    (bytes names : Bytes) (payload width : ℕ) (digits : Text)
    → Good Anything (bsd_name bytes names payload width digits)
unfolding bsd_name
bsd_name-Good bytes names payload width digits =
    Ensures-raise_if IsRejection (Anything {A = Named})
      (not (all_digits digits) || ltb width (to_number 0 digits)) (rejected bad_bsd_name) _ tt
      λ _. tt

member_name-Good :
    (bytes names : Bytes) (payload width : ℕ) (name : Text)
    → Good Anything (member_name bytes names payload width name)
unfolding member_name
member_name-Good bytes names payload width name =
    elim (Bool-cases (starts_with name (codes "#1/"))) [
      | inl a ↦ rw a (bsd_name-Good bytes names payload width (drop 3 name))
      | inr a ↦ rw a (elim (Bool-cases (name ==ₜ codes "//")) [
        | inl b ↦ rw b tt
        | inr b ↦
            rw b (elim (Bool-cases (starts_with name (codes "/") && all_digits (drop 1 name))) [
              | inl c ↦ rw c (gnu_name-Good names payload (to_number 0 (drop 1 name)))
              | inr c ↦ rw c tt
            ])
      ])
    ]

object_member-Good :
    (expected : Option (ℤ × ℤ)) (bytes : Bytes) (named : Named) (end : ℕ) (found : List Text)
    → Good Anything (object_member expected bytes named end found)
unfolding object_member
object_member-Good expected bytes named end found =
    elim (Bool-cases (is_one_of named.name table_names)) [
      | inl a ↦ rw a tt
      | inr a ↦ rw a (
          Ensures-raise_if IsRejection Anything (named.name ==ₜ [] || named.payload == end)
            (rejected bad_object_member) _ tt
            λ _.
              Ensures-bind IsRejection Anything (IsImage bytes named.payload (end - named.payload))
                (thin bytes named.payload (end - named.payload)) _
                (thin-Good bytes named.payload (end - named.payload))
                λ item _ _.
                  Ensures-raise_if IsRejection Anything (not (item.filetype == 1))
                    (rejected not_relocatable) _ tt
                    λ _.
                      Ensures-raise_if IsRejection Anything (cpu_mismatch expected item)
                        (rejected member_cpu_mismatch) _ tt λ _. tt)
    ]

-- A member moves the cursor on by a header at least.
abbrev Moved : ℕ → MemberScan → Type 0
Moved cursor m = cursor + 60 ≤ m.cursor

read_member-Good :
    (expected : Option (ℤ × ℤ)) (bytes : Bytes) (stop : ℕ) (m : MemberScan)
    → Good (Moved m.cursor) (read_member expected bytes stop m)
unfolding read_member
read_member-Good expected bytes stop m =
    let header = slice bytes m.cursor (m.cursor + 60) in
    let payload = m.cursor + 60 in
    let width = member_width header in
    let end = payload + width in
    let next = end + width % 2 in
    let name = rstrip (λ c. c == b' ') (take 16 header) in
    Ensures-raise_if IsRejection (Moved m.cursor)
      (ltb 100000 (m.members + 1) || ltb stop (m.cursor + 60)) (rejected bad_member_table) _ tt
      λ _.
        Ensures-raise_if IsRejection (Moved m.cursor) (not (has_valid_end header))
          (rejected bad_member_header) _ tt
          λ _.
            Ensures-raise_if IsRejection (Moved m.cursor) (not (has_valid_metadata header))
              (rejected bad_member_metadata) _ tt
              λ _.
                Ensures-raise_if IsRejection (Moved m.cursor) (ltb stop end)
                  (rejected bad_member_bounds) _ tt
                  λ _.
                    Ensures-bind IsRejection (Moved m.cursor) Anything
                      (member_name bytes m.names payload width name) _
                      (member_name-Good bytes m.names payload width name)
                      λ named _ _.
                        Ensures-bind IsRejection (Moved m.cursor) Anything
                          (object_member expected bytes named end m.architectures) _
                          (object_member-Good expected bytes named end m.architectures)
                          λ found _ _.
                            Ensures-raise_if IsRejection (Moved m.cursor) (ltb stop next)
                              (rejected bad_archive_padding) _ tt λ _. omega arith

read_members-Good :
    (rounds : ℕ) (expected : Option (ℤ × ℤ)) (bytes : Bytes) (stop : ℕ) (m : MemberScan)
    → 0 < rounds
    → stop < rounds + m.cursor
    → Good Anything (read_members rounds expected bytes stop m)
unfolding read_members
read_members-Good zero expected bytes stop m p h = absurd (omega arith)
read_members-Good (suc rounds) expected bytes stop m p h = elim (Bool-cases (ltb m.cursor stop)) [
  | inr done ↦ rw (done, read_members) tt
  | inl more ↦
      let before = ltb→lt m.cursor stop more in
      rw (more, read_members)
        (Ensures-bind IsRejection Anything (Moved m.cursor) (read_member expected bytes stop m)
          (read_members rounds expected bytes stop) (read_member-Good expected bytes stop m)
          λ m' _ moved. read_members-Good rounds expected bytes stop m' (omega arith) (omega arith))
]

abbrev NonEmpty : List Text → Type 0
NonEmpty ts = 0 < length ts

archive_architectures-Good :
    (expected : Option (ℤ × ℤ)) (bytes : Bytes) (start total : ℕ)
    → Good NonEmpty (archive_architectures expected bytes start total)
unfolding archive_architectures
archive_architectures-Good expected bytes start total =
    let stop = start + total in
    let m : MemberScan = record {
      cursor = start + 8;
      members = 0;
      architectures = [];
      names = [];
    } in
    Ensures-raise_if IsRejection NonEmpty
      (ltb total 8
        || ltb (length bytes) stop
        || not (slice bytes start (start + 8) ==ₜ archive_magic))
      (rejected bad_archive_header) _ tt
      λ _.
        Ensures-bind IsRejection NonEmpty Anything (read_members (total + 1) expected bytes stop m)
          _ (read_members-Good (total + 1) expected bytes stop m (omega arith) (omega arith))
          λ m' _ _.
            Ensures-raise_if IsRejection NonEmpty (length m'.architectures == 0)
              (rejected no_object_members) (ok m'.architectures) tt λ h. ground arith

add_new-NonEmpty : (t : Text) (ts : List Text) → NonEmpty ts → NonEmpty (add_new t ts)
add_new-NonEmpty t ts h = elim (Bool-cases (is_one_of t ts)) [
  | inl e ↦ rw e h
  | inr e ↦ rw e (omega arith)
]

union-NonEmpty : (ss ts : List Text) → NonEmpty ss → NonEmpty (union ss ts)
unfolding is_one_of
union-NonEmpty [] ts h = absurd (omega arith)
union-NonEmpty (s ∷ []) ts h = add_new_grows s ts
  where
    add_new_grows : (t : Text) (ts : List Text) → NonEmpty (add_new t ts)
    add_new_grows t [] = omega arith
    add_new_grows t (u ∷ ts) = add_new-NonEmpty t (u ∷ ts) (omega arith)
union-NonEmpty (s ∷ r ∷ ss) ts h =
    add_new-NonEmpty s (union (r ∷ ss) ts) (union-NonEmpty (r ∷ ss) ts (omega arith))

-- Every slice adds an architecture at least.
universal_architectures-Good :
    (bytes : Bytes) (es : List Entry) (found : List Text)
    → 0 < length es + length found
    → Good NonEmpty (universal_architectures bytes es found)
unfolding universal_architectures
universal_architectures-Good bytes [] found h = omega arith
universal_architectures-Good bytes (e ∷ es) found h =
    Ensures-bind IsRejection NonEmpty NonEmpty
      (archive_architectures (some (e.cpu_type, e.cpu_subtype)) bytes e.offset e.size) _
      (archive_architectures-Good (some (e.cpu_type, e.cpu_subtype)) bytes e.offset e.size)
      λ more _ n.
        universal_architectures-Good bytes es (union more found)
          (omega (arith, union-NonEmpty more found n))

-- The bytes of an archive start at an offset.
abbrev pub has_archive : Bytes → ℕ → Bool
has_archive bytes start = slice bytes start (start + 8) ==ₜ codes "!<arch>\n"

-- No archive: not at the start, nor in a slice of a universal file.
pub data IsNoArchive (bytes : Bytes) : Type 0 where
  single :
      has_archive bytes 0 ≡ false
      → is_some (fat_magic (slice bytes 0 4)) ≡ false
      → IsNoArchive bytes
  slices :
      (entries : List Entry)
      → has_archive bytes 0 ≡ false
      → fat_entries bytes ≡ ok entries
      → All (λ e. has_archive bytes e.offset ≡ false) entries
      → IsNoArchive bytes

-- A file that is an archive has architectures, and one without them is none.
abbrev pub Architectures : Bytes → Option (List Text) → Type 0
Architectures bytes none = IsNoArchive bytes
Architectures bytes (some ts) = NonEmpty ts

neither : (a b : Bool) → (not a && not b) ≡ true → (a ≡ false) × (b ≡ false)
neither true b h = cc
neither false true h = cc
neither false false h = (refl, refl)

universal_archive-Good :
    (bytes : Bytes)
    → has_archive bytes 0 ≡ false
    → Good (Architectures bytes) (universal_archive bytes)
unfolding universal_archive
universal_archive-Good bytes start =
    Ensures-bind IsRejection (Architectures bytes) (FatLayout bytes) (fat_entries bytes) _
      (fat_entries-Good bytes)
      λ entries read l. elim (Bool-cases (any (is_archive_entry bytes) entries)) [
        | inr n ↦ rw n (
            slices entries start read (
              any-All (λ e. has_archive bytes e.offset ≡ false) (is_archive_entry bytes) entries
                (λ e f. f) n))
        | inl y ↦ rw y (
            Ensures-raise_if IsRejection (Architectures bytes)
              (not (all (is_archive_entry bytes) entries)) (rejected mixed_slices) _ tt
              λ _.
                Ensures-bind IsRejection (Architectures bytes) NonEmpty
                  (universal_architectures bytes entries []) _
                  (universal_architectures-Good bytes entries [] (omega (arith, l.low)))
                  λ found _ h. h)
      ]

-- On any bytes static_archive_architectures returns or raises MachoError: the loop over the
-- members ends, and no read leaves the file. It names one architecture at least, or returns none;
-- this only for a file that does not start as an archive and is not universal, or is universal
-- with no slice that starts as an archive.
pub static_archive_architectures-Good :
    (bytes : Bytes) → Good (Architectures bytes) (static_archive_architectures bytes)
unfolding static_archive_architectures
static_archive_architectures-Good bytes =
    elim (Bool-cases
      (not (is_some (fat_magic (slice bytes 0 4))) && not (slice bytes 0 8 ==ₜ archive_magic))) [
        | inl a ↦ rw a (
            let (m, p) = neither (is_some (fat_magic (slice bytes 0 4))) (has_archive bytes 0) a in
            single p m)
        | inr a ↦ rw a (elim (Bool-cases (slice bytes 0 8 ==ₜ archive_magic)) [
          | inl b ↦ rw b (
              Ensures-bind IsRejection (Architectures bytes) NonEmpty
                (archive_architectures none bytes 0 (length bytes)) _
                (archive_architectures-Good none bytes 0 (length bytes)) λ found _ h. h)
          | inr b ↦ rw b (universal_archive-Good bytes b)
        ])
      ]
