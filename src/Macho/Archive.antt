-- ===== src/Macho/Archive.antt =====
-- Static archives (ar) of tool/sentry_macho.py: `_archive_architectures` and
-- `static_archive_architectures`.
pub mod Members
use xfl_clash.Prelude.{
  ℕ, zero, suc, ◌+◌, ◌-◌, ◌*◌, ◌%◌, Bool, true, false, not, ◌&&◌, ◌||◌, Option, none, some, List,
  [], ◌∷◌, ◌++◌, ltb, leb, ◌==◌, if◌then◌else◌, Text, codes, ◌==ₜ◌, is_one_of, starts_with,
  all_digits, to_number, strip, rstrip, is_space_byte, any, all, map, length, take, drop, Result,
  ok, err, ◌>>=◌, ◌>>◌, raise_if,
}
use xfl_clash.Prelude.Int.{ℤ, pos, ◌==ℤ◌, low_24}
use xfl_clash.Binary.{Bytes, slice, Fault, rejected, no_rounds}
use xfl_clash.Macho.Error.{
  MachoError, bad_archive_header, bad_member_table, bad_member_header, bad_member_metadata,
  bad_member_bounds, bad_bsd_name, bad_gnu_name, bad_object_member, not_relocatable,
  member_cpu_mismatch, bad_archive_padding, no_object_members, mixed_slices,
}
use xfl_clash.Macho.Image.Types.{Image}
use xfl_clash.Macho.Image.{thin}
use xfl_clash.Macho.Universal.{fat_magic, fat_entries, is_some, Entry}

abbrev pub archive_magic : Bytes
archive_magic = codes "!<arch>\n"

-- What the loop over the members carries: the cursor, the count of members, the architectures
-- and the table of long names.
pub record MemberScan : Type 0 where
  pub cursor : ℕ
  pub members : ℕ
  pub architectures : List Text
  pub names : Bytes

-- A field of a member's header is blank or a decimal number.
abbrev pub blank_or_digits : Bytes → Bool
blank_or_digits field = strip is_space_byte field ==ₜ [] || all_digits (strip is_space_byte field)

abbrev pub is_mode_byte : ℕ → Bool
is_mode_byte c = (leb b'0' c && leb c b'7') || c == b' '

abbrev pub has_valid_end : Bytes → Bool
has_valid_end header =
    slice header 58 60 ==ₜ codes "`\n" && all_digits (strip is_space_byte (slice header 48 58))

abbrev pub has_valid_metadata : Bytes → Bool
has_valid_metadata header =
    (blank_or_digits (slice header 16 28)
      && (blank_or_digits (slice header 28 34) && blank_or_digits (slice header 34 40)))
    && all is_mode_byte (slice header 40 48)

abbrev pub member_width : Bytes → ℕ
member_width header = to_number 0 (strip is_space_byte (slice header 48 58))

-- `names[index:names.find(b"/\n", index)]`, `none` where the pair does not occur.
pub long_name : Bytes → Option Bytes
long_name [] = none
long_name (b ∷ bs) = elim (starts_with (b ∷ bs) (codes "/\n")) [
  | true ↦ some []
  | false ↦ prepend b (long_name bs)
]
  where
    prepend : ℕ → Option Bytes → Option Bytes
    prepend b none = none
    prepend b (some s) = some (b ∷ s)

-- A member's name, where its payload starts, and the table of long names from there on.
pub record Named : Type 0 where
  pub name : Text
  pub payload : ℕ
  pub names : Bytes

pub gnu_name : Bytes → ℕ → ℕ → Result (Fault MachoError) Named
gnu_name names payload index =
    raise_if (leb (length names) index) (rejected bad_gnu_name)
    >> elim (long_name (drop index names)) [
      | none ↦ err (rejected bad_gnu_name)
      | some name ↦ ok (record { name = name; payload = payload; names = names })
    ]

pub bsd_name : Bytes → Bytes → ℕ → ℕ → Text → Result (Fault MachoError) Named
bsd_name bytes names payload width digits =
    let length = to_number 0 digits in
    raise_if (not (all_digits digits) || ltb width length) (rejected bad_bsd_name)
    >> ok (record {
      name = rstrip (λ c. c == 0 || c == b' ') (slice bytes payload (payload + length));
      payload = payload + length;
      names = names;
    })

pub member_name : Bytes → Bytes → ℕ → ℕ → Text → Result (Fault MachoError) Named
member_name bytes names payload width name =
    if starts_with name (codes "#1/")
    then bsd_name bytes names payload width (drop 3 name)
    else if name ==ₜ codes "//"
    then ok
        (record { name = name; payload = payload; names = slice bytes payload (payload + width) })
    else if starts_with name (codes "/") && all_digits (drop 1 name)
    then gnu_name names payload (to_number 0 (drop 1 name))
    else ok (record { name = name; payload = payload; names = names })

-- Symbol tables and the table of long names are no objects.
abbrev pub table_names : List Text
table_names =
    codes "/"
    ∷ codes "//"
    ∷ codes "/SYM64/"
    ∷ codes "__.SYMDEF"
    ∷ codes "__.SYMDEF SORTED"
    ∷ codes "__.SYMDEF_64"
    ∷ codes "__.SYMDEF_64 SORTED"
    ∷ []

abbrev pub cpu_mismatch : Option (ℤ × ℤ) → Image → Bool
cpu_mismatch none item = false
cpu_mismatch (some (cpu, subtype)) item =
    not (item.cpu_type ==ℤ cpu && low_24 item.cpu_subtype == low_24 subtype)

-- The capability bit CPU_SUBTYPE_LIB64 makes no other subtype; arm64e has a subtype of its own.
abbrev pub object_architecture : Image → Text
object_architecture item =
    if item.cpu_type ==ℤ pos 0x0100000c && low_24 item.cpu_subtype == 2
    then codes "arm64e"
    else item.architecture

abbrev pub add_new : Text → List Text → List Text
add_new t ts = if is_one_of t ts then ts else t ∷ ts

pub object_member :
    Option (ℤ × ℤ) → Bytes → Named → ℕ → List Text → Result (Fault MachoError) (List Text)
object_member expected bytes named end architectures =
    if is_one_of named.name table_names
    then ok architectures
    else (raise_if (named.name ==ₜ [] || named.payload == end) (rejected bad_object_member)
        >> (thin bytes named.payload (end - named.payload) >>= λ item.
            raise_if (not (item.filetype == 1)) (rejected not_relocatable)
            >> (raise_if (cpu_mismatch expected item) (rejected member_cpu_mismatch)
                >> ok (add_new (object_architecture item) architectures))))

pub read_member : Option (ℤ × ℤ) → Bytes → ℕ → MemberScan → Result (Fault MachoError) MemberScan
read_member expected bytes stop m =
    let header = slice bytes m.cursor (m.cursor + 60) in
    let payload = m.cursor + 60 in
    let width = member_width header in
    let end = payload + width in
    let next = end + width % 2 in
    raise_if (ltb 100000 (m.members + 1) || ltb stop (m.cursor + 60)) (rejected bad_member_table)
    >> (raise_if (not (has_valid_end header)) (rejected bad_member_header)
        >> (raise_if (not (has_valid_metadata header)) (rejected bad_member_metadata)
            >> (raise_if (ltb stop end) (rejected bad_member_bounds)
                >> (member_name bytes m.names payload width
                      (rstrip (λ c. c == b' ') (take 16 header))
                    >>= λ named.
                        object_member expected bytes named end m.architectures >>= λ architectures.
                        raise_if (ltb stop next) (rejected bad_archive_padding)
                        >> ok (record {
                          cursor = next;
                          members = m.members + 1;
                          architectures = architectures;
                          names = named.names;
                        })))))

-- `while cursor < stop`
pub read_members :
    ℕ → Option (ℤ × ℤ) → Bytes → ℕ → MemberScan → Result (Fault MachoError) MemberScan
read_members zero expected bytes stop m = err no_rounds
read_members (suc rounds) expected bytes stop m = elim (ltb m.cursor stop) [
  | true ↦ read_member expected bytes stop m >>= λ m'. read_members rounds expected bytes stop m'
  | false ↦ ok m
]

unfoldable pub archive_architectures :
    Option (ℤ × ℤ) → Bytes → ℕ → ℕ → Result (Fault MachoError) (List Text)
unfolding read_members read_member object_member member_name bsd_name gnu_name long_name thin
    starts_with all_digits to_number strip rstrip is_space_byte ◌==ₜ◌ is_one_of
archive_architectures expected bytes start total =
    let stop = start + total in
    raise_if
      (ltb total 8
        || ltb (length bytes) stop
        || not (slice bytes start (start + 8) ==ₜ archive_magic))
      (rejected bad_archive_header)
    >> (read_members (total + 1) expected bytes stop
          (record { cursor = start + 8; members = 0; architectures = []; names = [] })
        >>= λ m.
            raise_if (length m.architectures == 0) (rejected no_object_members)
            >> ok m.architectures)

abbrev pub is_archive_entry : Bytes → Entry → Bool
is_archive_entry bytes e = slice bytes e.offset (e.offset + 8) ==ₜ archive_magic

abbrev pub union : List Text → List Text → List Text
union [] ts = ts
union (s ∷ ss) ts = add_new s (union ss ts)

pub universal_architectures : Bytes → List Entry → List Text → Result (Fault MachoError) (List Text)
universal_architectures bytes [] found = ok found
universal_architectures bytes (e ∷ es) found =
    archive_architectures (some (e.cpu_type, e.cpu_subtype)) bytes e.offset e.size >>= λ more.
    universal_architectures bytes es (union more found)

pub universal_archive : Bytes → Result (Fault MachoError) (Option (List Text))
universal_archive bytes = fat_entries bytes >>= λ entries.
    if not (any (is_archive_entry bytes) entries)
    then ok none
    else (raise_if (not (all (is_archive_entry bytes) entries)) (rejected mixed_slices)
        >> (universal_architectures bytes entries [] >>= λ found. ok (some found)))

-- `none` for a file that is no archive.
unfoldable pub static_archive_architectures : Bytes → Result (Fault MachoError) (Option (List Text))
unfolding universal_archive universal_architectures
static_archive_architectures bytes =
    if not (is_some (fat_magic (slice bytes 0 4))) && not (slice bytes 0 8 ==ₜ archive_magic)
    then ok none
    else if slice bytes 0 8 ==ₜ archive_magic
    then (archive_architectures none bytes 0 (length bytes) >>= λ found. ok (some found))
    else universal_archive bytes
