-- ===== src/LinuxPackages/Cpio/Roundtrip.antt =====
-- Archives in the newc format, as a writer lays them out, and `cpio_members` on them,
-- tool/verify_linux_packages.py.
use xfl_clash.Prelude.{
  ℕ, zero, suc, ◌+◌, ◌/◌, ◌%◌, ◌^◌, ◌≤◌, ◌<◌, true, false, Option, some, List, [], ◌∷◌, ◌++◌, ◌≡◌,
  refl, ap, ltb, Text, codes, ◌==ₜ◌, ==ₜ_refl, all, take, drop, length, length-append, starts_with,
  is_one_of, ok, ◌>>=◌, arith, All,
}
use xfl_clash.Prelude.Int.{ℤ, pos}
use xfl_clash.Binary.{Bytes, hex_digit}
use xfl_clash.LinuxPackages.Cpio.{
  safe_name, Member, Stream, finished, yields, max_size, exact, padding, name_size, terminated,
  trailer, magics, header_of, values, read_body, read_record, members_from, cpio_members,
}

-- A number in eight hexadecimal digits.
abbrev pub hex_8 : ℕ → Bytes
hex_8 n =
    hex_digit (n / 16 ^ 7 % 16)
    ∷ hex_digit (n / 16 ^ 6 % 16)
    ∷ hex_digit (n / 16 ^ 5 % 16)
    ∷ hex_digit (n / 16 ^ 4 % 16)
    ∷ hex_digit (n / 16 ^ 3 % 16)
    ∷ hex_digit (n / 16 ^ 2 % 16)
    ∷ hex_digit (n / 16 % 16)
    ∷ hex_digit (n % 16)
    ∷ []

abbrev pub zeros : ℕ → Bytes
zeros zero = []
zeros (suc n) = 0 ∷ zeros n

-- What a writer puts into an archive.
pub record File : Type 0 where
  pub name : Text
  pub mode : ℕ
  pub content : Bytes

abbrev pub fields : ℕ → ℕ → ℕ → Bytes
fields mode size namesize =
    hex_8 0
    ++ hex_8 mode
    ++ hex_8 0
    ++ hex_8 0
    ++ hex_8 1
    ++ hex_8 0
    ++ hex_8 size
    ++ hex_8 0
    ++ hex_8 0
    ++ hex_8 0
    ++ hex_8 0
    ++ hex_8 namesize
    ++ hex_8 0

abbrev pub header : ℕ → ℕ → ℕ → Bytes
header mode size namesize = codes "070701" ++ fields mode size namesize

-- A record in front of the rest of an archive.
abbrev pub written : File → Bytes → Bytes
written f rest =
    header f.mode (length f.content) (length f.name + 1)
    ++ ((f.name ++ 0 ∷ [])
        ++ (zeros (padding (110 + (length f.name + 1)))
            ++ (f.content ++ (zeros (padding (length f.content)) ++ rest))))

abbrev pub end_record : File
end_record = record { name = trailer; mode = 0; content = [] }

pub archive : List File → Bytes
archive [] = written end_record []
archive (f ∷ fs) = written f (archive fs)

abbrev pub member_of : File → Member
member_of f = record { name = f.name; mode = pos f.mode; content = f.content }

abbrev pub streamed : List File → Stream
streamed [] = finished
streamed (f ∷ fs) = yields (member_of f) (streamed fs)

pub record IsWritable (f : File) : Type 0 where
  pub safe : safe_name f.name ≡ ok f.name
  pub ascii : all (λ c. ltb c 128) f.name ≡ true
  pub short : length f.name < 4096
  pub small : length f.content ≤ max_size
  pub mode : f.mode < 2 ^ 32

-- A name that does not end the archive.
abbrev pub IsOrdinary : File → Type 0
IsOrdinary f = (f.name ==ₜ trailer) ≡ false

length-zeros : (n : ℕ) → length (zeros n) ≡ n
length-zeros zero = refl
length-zeros (suc n) = omega (arith, length-zeros n)

take-append : (xs ys : Bytes) → take (length xs) (xs ++ ys) ≡ xs
take-append [] ys = refl
take-append (x ∷ xs) ys = ap (◌∷◌ x) (take-append xs ys)

drop-append : (xs ys : Bytes) → drop (length xs) (xs ++ ys) ≡ ys
drop-append [] ys = refl
drop-append (x ∷ xs) ys = drop-append xs ys

exact-append : (xs ys : Bytes) → length xs ≤ max_size → exact (length xs) (xs ++ ys) ≡ ok (xs, ys)
unfolding exact
exact-append xs ys h =
    let small : ltb max_size (length xs) ≡ false = ground arith in
    let present : ltb (length (xs ++ ys)) (length xs) ≡ false =
      ground (arith, length-append xs ys) in
    rw (small, present, take-append xs ys, drop-append xs ys) refl

exact-zeros : (n : ℕ) (ys : Bytes) → n ≤ 4 → exact n (zeros n ++ ys) ≡ ok (zeros n, ys)
exact-zeros n ys h =
    rw (length-zeros n) at (exact-append (zeros n) ys (omega (arith, h, length-zeros n)))

terminated-append : (s : Bytes) → terminated (s ++ 0 ∷ []) ≡ ok s
terminated-append [] = refl
terminated-append (c ∷ []) = refl
terminated-append (c ∷ d ∷ s) = rw (terminated-append (d ∷ s)) refl

exact-field :
    (s rest : Bytes)
    → length s < 4096
    → exact (length s + 1) ((s ++ 0 ∷ []) ++ rest) ≡ ok (s ++ 0 ∷ [], rest)
exact-field s rest h =
    rw (length-append s (0 ∷ [])) at
      (exact-append (s ++ 0 ∷ []) rest (omega (arith, h, length-append s (0 ∷ []))))

trailer_is_safe : safe_name trailer ≡ ok trailer
unfolding safe_name starts_with ◌==ₜ◌
trailer_is_safe = refl

length-archive : (fs : List File) → length fs ≤ length (archive fs)
unfolding archive
length-archive [] = omega arith
length-archive (f ∷ fs) =
    let behind : Bytes = zeros (padding (length f.content)) ++ archive fs in
    let pad : Bytes = zeros (padding (110 + (length f.name + 1))) in
    omega (
      arith,
      length-archive fs,
      length-append (zeros (padding (length f.content))) (archive fs),
      length-append f.content behind,
      length-append pad (f.content ++ behind),
      length-append (f.name ++ 0 ∷ []) (pad ++ (f.content ++ behind)),
    )

magic_is_known : is_one_of (codes "070701") magics ≡ true
unfolding is_one_of ◌==ₜ◌
magic_is_known = refl

module _ (int_16 : Bytes → Option ℤ) (utf8 : Bytes → Option Text)
    (reads : (n : ℕ) → n < 2 ^ 32 → int_16 (hex_8 n) ≡ some (pos n))
    (decodes : (s : Text) → all (λ c. ltb c 128) s ≡ true → utf8 s ≡ some s) where
  values-append :
      (n v : ℕ) (rest : Bytes)
      → v < 2 ^ 32
      → values int_16 utf8 (suc n) (hex_8 v ++ rest)
        ≡ (values int_16 utf8 n rest >>= λ vs. ok (pos v ∷ vs))
  values-append n v rest h = rw (reads v h) refl

  values-fields :
      (mode size namesize : ℕ)
      → mode < 2 ^ 32
      → size < 2 ^ 32
      → namesize < 2 ^ 32
      → (values int_16 utf8 13 (fields mode size namesize) >>= header_of)
        ≡ ok (record { mode = pos mode; size = pos size; namesize = pos namesize })
  values-fields mode size namesize m s k =
      rw
        (reads 0 (omega arith), reads 1 (omega arith), reads mode m, reads size s, reads namesize k)
        refl

  read_body-written :
      (f : File) (rest : Bytes)
      → IsWritable f
      → read_body int_16 utf8
          (record {
            mode = pos f.mode;
            size = pos (length f.content);
            namesize = pos (length f.name + 1);
          })
          ((f.name ++ 0 ∷ [])
            ++ (zeros (padding (110 + (length f.name + 1)))
                ++ (f.content ++ (zeros (padding (length f.content)) ++ rest))))
        ≡ ok (member_of f, rest)
  unfolding read_body
  read_body-written f rest w =
      let size : name_size (pos (length f.name + 1)) ≡ ok (length f.name + 1) =
        ground (arith, w.short) in
      rw
        (
          size,
          exact-field f.name
              (zeros (padding (110 + (length f.name + 1)))
                ++ (f.content ++ (zeros (padding (length f.content)) ++ rest)))
              w.short,
          terminated-append f.name,
          decodes f.name w.ascii,
          w.safe,
          exact-zeros (padding (110 + (length f.name + 1)))
              (f.content ++ (zeros (padding (length f.content)) ++ rest)) (omega arith),
          exact-append f.content (zeros (padding (length f.content)) ++ rest) w.small,
          exact-zeros (padding (length f.content)) rest (omega arith),
        )
        refl

  read_record-written :
      (f : File) (rest : Bytes)
      → IsWritable f
      → read_record int_16 utf8 (written f rest) ≡ ok (member_of f, rest)
  unfolding read_record
  read_record-written f rest w =
      rw
        (
          exact-append (header f.mode (length f.content) (length f.name + 1)) _ (omega arith),
          magic_is_known,
          values-fields f.mode (length f.content) (length f.name + 1) w.mode
              (omega (arith, w.small)) (omega (arith, w.short)),
        )
        (read_body-written f rest w)

  read_record-end : read_record int_16 utf8 (written end_record []) ≡ ok (member_of end_record, [])
  read_record-end = read_record-written end_record [] (record {
    safe = trailer_is_safe;
    ascii = refl;
    short = omega arith;
    small = omega arith;
    mode = omega arith;
  })

  members_from-archive :
      (rounds : ℕ) (fs : List File)
      → length fs < rounds
      → All IsWritable fs
      → All IsOrdinary fs
      → members_from int_16 utf8 rounds (archive fs) ≡ streamed fs
  unfolding archive members_from
  members_from-archive zero fs h w o = ground (arith, h)
  members_from-archive (suc rounds) [] h w o =
      rw (read_record-end, members_from, ==ₜ_refl trailer) refl
  members_from-archive (suc rounds) (f ∷ fs) h (w, ws) (o, os) =
      rw
        (
          read_record-written f (archive fs) w,
          members_from,
          o,
          members_from-archive rounds fs (omega (arith, h)) ws os,
        )
        refl

  -- Reading an archive that a writer laid out in the newc format gives back its files in order, with
  -- their names, modes and contents, for names that are safe, short, ASCII and not the trailer,
  -- contents of at most 512 MiB and modes of 32 bits, where int reads eight hexadecimal digits and
  -- UTF-8 decodes ASCII.
  pub cpio_members-archive :
      (fs : List File)
      → All IsWritable fs
      → All IsOrdinary fs
      → cpio_members int_16 utf8 (archive fs) ≡ streamed fs
  unfolding cpio_members
  cpio_members-archive fs w o =
      members_from-archive (length (archive fs) + 1) fs (omega (arith, length-archive fs)) w o
