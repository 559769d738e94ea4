-- ===== src/Elf/Notes/Bounds.antt =====
-- The note loop of tool/sentry_elf.py ends, reads inside the file and finds identifiers of 4 to 64 bytes.
use xfl_clash.Prelude.{
  ℕ, zero, suc, ◌+◌, ◌≤◌, ◌<◌, not, ◌&&◌, ◌||◌, List, ltb, leb, ◌==◌, Text, is_one_of, length, All,
  Result, ok, ◌>>=◌, Ensures, Ensures-raise_if, Ensures-bind, arith, Bool-cases, inl, inr, leb→le,
}
use xfl_clash.Binary.{
  Bytes, slice, Endian, Fault, rejected, IsRejection, unpack_from-eq_ok, hex, IsHexOf, hex-IsHexOf,
}
use xfl_clash.Elf.Error.{ElfError, bad_note_bounds, bad_identifier}
use xfl_clash.Elf.Notes.{
  aligned, note_header, add_new, gnu_name, take_note, read_fields, read_note, read_notes,
}

-- A build identifier: 4 to 64 bytes of the file, in hexadecimal.
pub record IsIdentifier (bytes : Bytes) (t : Text) : Type 0 where
  pub start : ℕ
  pub count : ℕ
  pub at_least : 4 ≤ count
  pub at_most : count ≤ 64
  pub in_file : start + count ≤ length bytes
  pub digits : IsHexOf (slice bytes start (start + count)) t

abbrev pub Good : {A : Type 0} → (A → Type 0) → Result (Fault ElfError) A → Type 0
Good P = Ensures IsRejection P

add_new-All :
    (bytes : Bytes) (t : Text) (ts : List Text)
    → IsIdentifier bytes t
    → All (IsIdentifier bytes) ts
    → All (IsIdentifier bytes) (add_new t ts)
add_new-All bytes t ts h k = elim (Bool-cases (is_one_of t ts)) [
  | inl e ↦ rw e k
  | inr e ↦ rw e (h, k)
]

take_note-Good :
    (bytes : Bytes) (kind : ℕ) (name : Bytes) (start n : ℕ) (found : List Text)
    → start + n ≤ length bytes
    → All (IsIdentifier bytes) found
    → Good (All (IsIdentifier bytes)) (take_note bytes kind name start n found)
unfolding take_note
take_note-Good bytes kind name start n found h k = elim (Bool-cases (kind == 3 && gnu_name name)) [
  | inr e ↦ rw e k
  | inl e ↦ rw e (
      Ensures-raise_if IsRejection (All (IsIdentifier bytes)) (not (leb 4 n && leb n 64))
        (rejected bad_identifier) (ok (add_new (hex (slice bytes start (start + n))) found)) tt
        λ r.
          add_new-All bytes (hex (slice bytes start (start + n))) found
            (record {
              start = start;
              count = n;
              at_least = ground (arith, r);
              at_most = ground (arith, r);
              in_file = h;
              digits = hex-IsHexOf (slice bytes start (start + n));
            })
            k)
]

-- What a step gives: identifiers only, and a cursor moved on by a header at least.
abbrev Stepped : Bytes → ℕ → List Text × ℕ → Type 0
Stepped bytes cursor step = All (IsIdentifier bytes) step.0 × (cursor + 12 ≤ step.1)

read_fields-Good :
    (bytes : Bytes) (start stop cursor : ℕ) (found : List Text) (n v kind : ℕ)
    → start ≤ cursor
    → stop ≤ length bytes
    → All (IsIdentifier bytes) found
    → Good (Stepped bytes cursor) (read_fields bytes start stop cursor found n v kind)
unfolding read_fields
read_fields-Good bytes start stop cursor found n v kind a c k =
    let name_end = cursor + 12 + n in
    let value_start = aligned start name_end in
    let noted = take_note bytes kind (slice bytes (cursor + 12) name_end) value_start v found in
    Ensures-raise_if IsRejection (Stepped bytes cursor)
      (ltb stop name_end || ltb stop (value_start + v)) (rejected bad_note_bounds)
      (noted >>= λ found'. ok (found', aligned start (value_start + v))) tt
      λ r.
        Ensures-bind IsRejection (Stepped bytes cursor) (All (IsIdentifier bytes)) noted
          (λ found'. ok (found', aligned start (value_start + v)))
          (take_note-Good bytes kind (slice bytes (cursor + 12) name_end) value_start v found
            (ground arith) k)
          λ found' _ g. (g, omega arith)

read_note-Good :
    (e : Endian) (bytes : Bytes) (start stop cursor : ℕ) (found : List Text)
    → start ≤ cursor
    → cursor + 12 ≤ stop
    → stop ≤ length bytes
    → All (IsIdentifier bytes) found
    → Good (Stepped bytes cursor) (read_note e bytes start stop cursor found)
unfolding read_note
read_note-Good e bytes start stop cursor found a b c k =
    rw (unpack_from-eq_ok e note_header bytes cursor (omega arith))
      (read_fields-Good bytes start stop cursor found _ _ _ a c k)

-- The rounds granted are enough, and every identifier found has 4 to 64 bytes.
pub read_notes-Good :
    (rounds : ℕ) (e : Endian) (bytes : Bytes) (start stop cursor : ℕ) (found : List Text)
    → start ≤ cursor
    → stop ≤ length bytes
    → 0 < rounds
    → stop < rounds + cursor
    → All (IsIdentifier bytes) found
    → Good (All (IsIdentifier bytes)) (read_notes rounds e bytes start stop cursor found)
unfolding read_notes
read_notes-Good zero e bytes start stop cursor found a c p f k = absurd (omega arith)
read_notes-Good (suc rounds) e bytes start stop cursor found a c p f k =
    elim (Bool-cases (leb (cursor + 12) stop)) [
      | inr done ↦ rw (done, read_notes) k
      | inl more ↦
          let fits = leb→le (cursor + 12) stop more in
          rw (more, read_notes)
            (Ensures-bind IsRejection (All (IsIdentifier bytes)) (Stepped bytes cursor)
              (read_note e bytes start stop cursor found)
              (λ step. read_notes rounds e bytes start stop step.1 step.0)
              (read_note-Good e bytes start stop cursor found a fits c k)
              λ step _ h.
                read_notes-Good rounds e bytes start stop step.1 step.0 (omega arith) c
                  (omega arith) (omega arith) h.0)
    ]
