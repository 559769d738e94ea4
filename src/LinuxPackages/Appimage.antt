-- ===== src/LinuxPackages/Appimage.antt =====
-- `appimage_payload_offset` and `verify_appimage` of tool/verify_linux_packages.py.
use xfl_clash.Prelude.{
  ℕ, ◌+◌, ◌*◌, ◌≤◌, Bool, false, not, ◌||◌, List, [], ◌∷◌, ◌++◌, ◌≡◌, ltb, ◌==◌, if◌then◌else◌,
  Text, codes, ◌==ₜ◌, ==ₜ_sound, length, take, Result, ok, err, ◌>>=◌, ◌>>◌, raise_if, Ensures,
  Ensures-raise_if, Ensures-bind, not-false, inl, inr, Bool-cases, arith,
}
use xfl_clash.Binary.{
  Bytes, slice, little, word, unpack_from, unpack_from-eq_ok, num_at, struct_error, index_error,
  no_rounds, Field, size, Fault, rejected, key_error,
}
use xfl_clash.LinuxPackages.Error.{
  PackageError, IsPackageError, invalid_appimage_container, appimage_architecture_mismatch,
  invalid_appimage_boundary, invalid_appimage_squashfs,
}

abbrev pub machine_of : Text → Result (Fault PackageError) ℕ
machine_of arch =
    if arch ==ₜ codes "amd64"
    then ok 62
    else if arch ==ₜ codes "arm64"
    then ok 183
    else err key_error

-- The offset, from the three numbers of the header that give it and the header's size.
pub payload_offset : Bytes → ℕ → ℕ → ℕ → ℕ → Result (Fault PackageError) ℕ
payload_offset bytes section_offset header_size entry_size count =
    let offset = section_offset + entry_size * count in
    raise_if
      (not (header_size == 64)
        || ltb section_offset 64
        || not (entry_size == 64)
        || count == 0
        || ltb (length bytes) (offset + 96))
      (rejected invalid_appimage_boundary)
    >> (raise_if (not (slice bytes offset (offset + 4) ==ₜ codes "hsqs"))
          (rejected invalid_appimage_squashfs)
        >> ok offset)

unfoldable pub appimage_payload_offset : Bytes → Text → Result (Fault PackageError) ℕ
unfolding payload_offset ◌==ₜ◌ unpack_from
appimage_payload_offset bytes architecture = do
  raise_if
      (not (length (take 64 bytes) == 64)
        || not (slice (take 64 bytes) 0 7 ==ₜ (0x7f ∷ codes "ELF" ++ (2 ∷ 1 ∷ 1 ∷ [])))
        || not (slice (take 64 bytes) 8 11 ==ₜ (codes "AI" ++ (2 ∷ []))))
      (rejected invalid_appimage_container)
  found ← unpack_from little (word 2 ∷ []) (take 64 bytes) 18
  machine ← machine_of architecture
  raise_if (not (num_at found 0 == machine)) (rejected appimage_architecture_mismatch)
  sections ← unpack_from little (word 8 ∷ []) (take 64 bytes) 40
  header_size ← unpack_from little (word 2 ∷ []) (take 64 bytes) 52
  entries ← unpack_from little (word 2 ∷ word 2 ∷ []) (take 64 bytes) 58
  payload_offset bytes (num_at sections 0) (num_at header_size 0) (num_at entries 0)
      (num_at entries 1)

-- The exceptions of the reader: its own, and a `KeyError` for an architecture without a number.
abbrev pub Raises : Text → Fault PackageError → Type 0
Raises arch (rejected e) = IsPackageError e
Raises arch key_error = ((arch ==ₜ codes "amd64") ≡ false) × ((arch ==ₜ codes "arm64") ≡ false)
Raises arch struct_error = ⊥
Raises arch index_error = ⊥
Raises arch no_rounds = ⊥

-- Where the file system of an image stands: behind the header, and inside the file.
pub record IsPayload (bytes : Bytes) (offset : ℕ) : Type 0 where
  pub behind : 64 ≤ offset
  pub inside : offset + 96 ≤ length bytes
  pub magic : slice bytes offset (offset + 4) ≡ codes "hsqs"

payload_offset-Good :
    (arch : Text) (bytes : Bytes) (section_offset header_size entry_size count : ℕ)
    → Ensures
        (Raises arch)
        (IsPayload bytes)
        (payload_offset bytes section_offset header_size entry_size count)
unfolding payload_offset
payload_offset-Good arch bytes section_offset header_size entry_size count =
    let offset : ℕ = section_offset + entry_size * count in
    Ensures-raise_if (Raises arch) (IsPayload bytes)
      (not (header_size == 64)
        || ltb section_offset 64
        || not (entry_size == 64)
        || count == 0
        || ltb (length bytes) (offset + 96))
      (rejected invalid_appimage_boundary) _ tt
      λ r.
        Ensures-raise_if (Raises arch) (IsPayload bytes)
          (not (slice bytes offset (offset + 4) ==ₜ codes "hsqs"))
          (rejected invalid_appimage_squashfs) (ok offset) tt
          λ m. (record {
            behind = ground arith;
            inside = ground arith;
            magic =
                ==ₜ_sound (slice bytes offset (offset + 4)) (codes "hsqs")
                  (not-false (slice bytes offset (offset + 4) ==ₜ codes "hsqs") m);
          })

-- A read of the header's fields.
header_field :
    (arch : Text) (fields : List Field) (bytes : Bytes) (at : ℕ)
    → length (take 64 bytes) ≡ 64
    → at + size fields ≤ 64
    → Ensures (Raises arch) (λ _. Unit) (unpack_from little fields (take 64 bytes) at)
header_field arch fields bytes at full h =
    rw
      (unpack_from-eq_ok {E = PackageError} little fields (take 64 bytes) at
        (omega (arith, full, h)))
      tt

full_header : (n : ℕ) (b c : Bool) → (not (n == 64) || b || c) ≡ false → n ≡ 64
full_header n b c h = ground arith

machine_of-Good : (arch : Text) → Ensures (Raises arch) (λ _. Unit) (machine_of arch)
machine_of-Good arch = elim (Bool-cases (arch ==ₜ codes "amd64")) [
  | inl e ↦ rw e tt
  | inr e ↦
      rw e (elim (Bool-cases (arch ==ₜ codes "arm64")) [ inl f ↦ rw f tt | inr f ↦ rw f (e, f) ])
]

-- On any bytes appimage_payload_offset returns, or raises PackageError, or raises KeyError, which
-- it does only for an architecture other than amd64 and arm64; no read leaves the header. An
-- offset that it returns stands behind the header and 96 bytes before the end of the file at
-- least, where the bytes hsqs stand.
pub appimage_payload_offset-Good :
    (bytes : Bytes) (arch : Text)
    → Ensures (Raises arch) (IsPayload bytes) (appimage_payload_offset bytes arch)
unfolding appimage_payload_offset
appimage_payload_offset-Good bytes arch =
    let P = IsPayload bytes in
    Ensures-raise_if (Raises arch) P _ (rejected invalid_appimage_container) _ tt λ r.
      (let full : length (take 64 bytes) ≡ 64 = full_header (length (take 64 bytes)) _ _ r in
        Ensures-bind (Raises arch) P (λ _. Unit)
          (unpack_from little (word 2 ∷ []) (take 64 bytes) 18) _
          (header_field arch (word 2 ∷ []) bytes 18 full (omega arith))
          λ found _ _.
            Ensures-bind (Raises arch) P (λ _. Unit) (machine_of arch) _ (machine_of-Good arch)
              λ machine _ _.
                Ensures-raise_if (Raises arch) P (not (num_at found 0 == machine))
                  (rejected appimage_architecture_mismatch) _ tt
                  λ _.
                    Ensures-bind (Raises arch) P (λ _. Unit)
                      (unpack_from little (word 8 ∷ []) (take 64 bytes) 40) _
                      (header_field arch (word 8 ∷ []) bytes 40 full (omega arith))
                      λ sections _ _.
                        Ensures-bind (Raises arch) P (λ _. Unit)
                          (unpack_from little (word 2 ∷ []) (take 64 bytes) 52) _
                          (header_field arch (word 2 ∷ []) bytes 52 full (omega arith))
                          λ size _ _.
                            Ensures-bind (Raises arch) P (λ _. Unit)
                              (unpack_from little (word 2 ∷ word 2 ∷ []) (take 64 bytes) 58) _
                              (header_field arch (word 2 ∷ word 2 ∷ []) bytes 58 full (omega arith))
                              λ entries _ _.
                                payload_offset-Good arch bytes (num_at sections 0) (num_at size 0)
                                  (num_at entries 0) (num_at entries 1))
