-- ===== src/LinuxPackages/Cpio/Ends.antt =====
-- `cpio_members` ends on any bytes, tool/verify_linux_packages.py.
use xfl_clash.Prelude.{
  ℕ, zero, suc, ◌+◌, ◌≤◌, ◌<◌, true, false, not, Option, none, some, List, [], ◌∷◌, ◌≢◌, inl, inr,
  ltb, Text, ◌==ₜ◌, take, drop, length, length-drop, is_one_of, Result, ok, err, ◌>>=◌, Ensures,
  Ensures-bind, Ensures-raise_if, Ensures-mono, Ensures-if, leb, ◌&&◌, ◌==◌, Bool-cases, arith,
}
use xfl_clash.Prelude.Int.{ℤ, pos, negsuc}
use xfl_clash.Binary.{Bytes}
use xfl_clash.LinuxPackages.Error.{
  PackageError, no_rounds, unsafe_package_path, unsafe_cpio_size, truncated_cpio, unsupported_cpio,
  unsafe_cpio_name, invalid_cpio_name,
}
use xfl_clash.LinuxPackages.Cpio.{
  safe_name, without_dot, is_unsafe, Member, Stream, finished, broken, yields, max_size, exact,
  exact_int, padding, name_size, size_of, terminated, trailer, magics, Header, header_of, values,
  number_of, value_at, decoded_name, read_body, read_record, members_from, cpio_members,
}

abbrev IsOwn : PackageError → Type 0
IsOwn e = e ≢ no_rounds

-- What a step leaves of the bytes is not longer than they were.
abbrev Leaves : {A : Type 0} → ℕ → ℕ → A × Bytes → Type 0
Leaves used total (a, rest) = used + length rest ≤ total

exact-Leaves :
    (size : ℕ) (bytes : Bytes) → Ensures IsOwn (Leaves size (length bytes)) (exact size bytes)
unfolding exact
exact-Leaves size bytes =
    Ensures-raise_if IsOwn (Leaves size (length bytes)) (ltb max_size size) unsafe_cpio_size _
      (λ e. cc)
      λ _.
        Ensures-raise_if IsOwn (Leaves size (length bytes)) (ltb (length bytes) size) truncated_cpio
          _ (λ e. cc) λ h. ground (arith, h, length-drop size bytes)

exact_int-Leaves :
    (size : ℤ) (bytes : Bytes) → Ensures IsOwn (Leaves 0 (length bytes)) (exact_int size bytes)
exact_int-Leaves (pos n) bytes =
    Ensures-mono IsOwn (Leaves 0 (length bytes)) (Leaves n (length bytes)) (exact n bytes)
      (λ a h. omega (arith, h)) (exact-Leaves n bytes)
exact_int-Leaves (negsuc n) bytes = λ e. cc

name_size-IsOwn : (v : ℤ) → Ensures IsOwn (λ _. Unit) (name_size v)
name_size-IsOwn (pos n) =
    Ensures-if IsOwn (λ _. Unit) (leb 1 n && leb n 4096) n unsafe_cpio_name (λ _. tt) (λ e. cc)
name_size-IsOwn (negsuc n) = λ e. cc

terminated-IsOwn : (bytes : Bytes) → Ensures IsOwn (λ _. Unit) (terminated bytes)
terminated-IsOwn [] = λ e. cc
terminated-IsOwn (b ∷ []) =
    Ensures-if IsOwn (λ _. Unit) (b == 0) [] invalid_cpio_name (λ _. tt) (λ e. cc)
terminated-IsOwn (b ∷ c ∷ bs) =
    Ensures-bind IsOwn (λ _. Unit) (λ _. Unit) (terminated (c ∷ bs)) _ (terminated-IsOwn (c ∷ bs))
      λ _ _ _. tt

number_of-IsOwn : (v : Option ℤ) → Ensures IsOwn (λ _. Unit) (number_of v)
number_of-IsOwn none = λ e. cc
number_of-IsOwn (some v) = tt

decoded_name-IsOwn : (v : Option Text) → Ensures IsOwn (λ _. Unit) (decoded_name v)
decoded_name-IsOwn none = λ e. cc
decoded_name-IsOwn (some v) = tt

safe_name-IsOwn : (v : Text) → Ensures IsOwn (λ _. Unit) (safe_name v)
unfolding safe_name
safe_name-IsOwn v =
    Ensures-raise_if IsOwn (λ _. Unit) (is_unsafe (without_dot v)) unsafe_package_path _ (λ e. cc)
      λ _. tt

value_at-IsOwn : (vs : List ℤ) (i : ℕ) → Ensures IsOwn (λ _. Unit) (value_at vs i)
value_at-IsOwn [] i = λ e. cc
value_at-IsOwn (v ∷ vs) zero = tt
value_at-IsOwn (v ∷ vs) (suc i) = value_at-IsOwn vs i

header_of-IsOwn : (vs : List ℤ) → Ensures IsOwn (λ _. Unit) (header_of vs)
header_of-IsOwn vs =
    Ensures-bind IsOwn (λ _. Unit) (λ _. Unit) (value_at vs 1) _ (value_at-IsOwn vs 1)
      λ mode _ _.
        Ensures-bind IsOwn (λ _. Unit) (λ _. Unit) (value_at vs 6) _ (value_at-IsOwn vs 6)
          λ size _ _.
            Ensures-bind IsOwn (λ _. Unit) (λ _. Unit) (value_at vs 11) _ (value_at-IsOwn vs 11)
              λ namesize _ _. tt

module _ (int_16 : Bytes → Option ℤ) (utf8 : Bytes → Option Text) where
  values-IsOwn : (n : ℕ) (bytes : Bytes) → Ensures IsOwn (λ _. Unit) (values int_16 utf8 n bytes)
  values-IsOwn zero bytes = tt
  values-IsOwn (suc n) bytes =
      Ensures-bind IsOwn (λ _. Unit) (λ _. Unit) (number_of (int_16 (take 8 bytes))) _
        (number_of-IsOwn (int_16 (take 8 bytes)))
        λ v _ _.
          Ensures-bind IsOwn (λ _. Unit) (λ _. Unit) (values int_16 utf8 n (drop 8 bytes)) _
            (values-IsOwn n (drop 8 bytes)) λ _ _ _. tt

  read_body-Leaves :
      (header : Header) (bytes : Bytes)
      → Ensures IsOwn (Leaves 0 (length bytes)) (read_body int_16 utf8 header bytes)
  unfolding read_body
  read_body-Leaves header bytes =
      let P = Leaves {A = Member} 0 (length bytes) in
      Ensures-bind IsOwn P (λ _. Unit) (name_size header.namesize) _
        (name_size-IsOwn header.namesize)
        λ n _ _.
          Ensures-bind IsOwn P (Leaves n (length bytes)) (exact n bytes) _ (exact-Leaves n bytes)
            λ a _ ha.
              Ensures-bind IsOwn P (λ _. Unit) (terminated a.0) _ (terminated-IsOwn a.0)
                λ raw _ _.
                  Ensures-bind IsOwn P (λ _. Unit) (decoded_name (utf8 raw)) _
                    (decoded_name-IsOwn (utf8 raw))
                    λ text _ _.
                      Ensures-bind IsOwn P (λ _. Unit) (safe_name text) _ (safe_name-IsOwn text)
                        λ name _ _.
                          Ensures-bind IsOwn P (Leaves (padding (110 + n)) (length a.1))
                            (exact (padding (110 + n)) a.1) _ (exact-Leaves (padding (110 + n)) a.1)
                            λ b _ hb.
                              Ensures-bind IsOwn P (Leaves 0 (length b.1))
                                (exact_int header.size b.1) _ (exact_int-Leaves header.size b.1)
                                λ c _ hc.
                                  Ensures-bind IsOwn P
                                    (Leaves (padding (size_of header.size)) (length c.1))
                                    (exact (padding (size_of header.size)) c.1) _
                                    (exact-Leaves (padding (size_of header.size)) c.1)
                                    λ d _ hd. omega (arith, ha, hb, hc, hd)

  read_record-Leaves :
      (bytes : Bytes) → Ensures IsOwn (Leaves 110 (length bytes)) (read_record int_16 utf8 bytes)
  unfolding read_record
  read_record-Leaves bytes =
      let P = Leaves {A = Member} 110 (length bytes) in
      Ensures-bind IsOwn P (Leaves 110 (length bytes)) (exact 110 bytes) _ (exact-Leaves 110 bytes)
        λ a _ ha.
          Ensures-raise_if IsOwn P (not (is_one_of (take 6 a.0) magics)) unsupported_cpio _
            (λ e. cc)
            λ _.
              Ensures-bind IsOwn P (λ _. Unit) (values int_16 utf8 13 (drop 6 a.0) >>= header_of) _
                (Ensures-bind IsOwn (λ _. Unit) (λ _. Unit) (values int_16 utf8 13 (drop 6 a.0))
                  header_of (values-IsOwn 13 (drop 6 a.0)) λ vs _ _. header_of-IsOwn vs)
                λ header _ _.
                  Ensures-mono IsOwn P (Leaves 0 (length a.1)) (read_body int_16 utf8 header a.1)
                    (λ b h. omega (arith, h, ha)) (read_body-Leaves header a.1)

  abbrev pub Ends : Stream → Type 0
  Ends finished = Unit
  Ends (broken e) = e ≢ no_rounds
  Ends (yields m rest) = Ends rest

  members_from-Ends :
      (rounds : ℕ) (bytes : Bytes)
      → length bytes < rounds
      → Ends (members_from int_16 utf8 rounds bytes)
  unfolding members_from
  members_from-Ends zero bytes h = ground (arith, h)
  members_from-Ends (suc rounds) bytes h =
      after_record (read_record int_16 utf8 bytes) (read_record-Leaves bytes)
        (λ rest k. members_from-Ends rounds rest (omega (arith, h, k)))
    where
      after_record :
          (r : Result PackageError (Member × Bytes))
          → Ensures IsOwn (Leaves 110 (length bytes)) r
          → ((rest : Bytes)
              → 110 + length rest ≤ length bytes
              → Ends (members_from int_16 utf8 rounds rest))
          → Ends (elim r [
            | err e ↦ broken e
            | ok (member, rest) ↦ elim (member.name ==ₜ trailer) [
              | true ↦ finished
              | false ↦ yields member (members_from int_16 utf8 rounds rest)
            ]
          ])
      after_record (err e) k f = k
      after_record (ok (member, rest)) k f = elim (Bool-cases (member.name ==ₜ trailer)) [
        | inl last ↦ rw last tt
        | inr next ↦ rw next (f rest k)
      ]

  -- On any bytes the loop of cpio_members ends, with the trailer or an exception.
  pub cpio_members-Ends : (bytes : Bytes) → Ends (cpio_members int_16 utf8 bytes)
  unfolding cpio_members
  cpio_members-Ends bytes = members_from-Ends (length bytes + 1) bytes (omega arith)
