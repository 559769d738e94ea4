-- ===== src/Tests/Archives.antt =====
-- tool/verify_linux_packages.py at a concrete archive, image and distribution directory.
use xfl_clash.Prelude.{
  ℕ, ◌+◌, ◌-◌, ◌*◌, ◌/◌, ◌%◌, ◌^◌, ◌<◌, ◌≡◌, refl, ap, true, false, Option, none, some, List, [],
  ◌∷◌, ◌++◌, ltb, if◌then◌else◌, Text, codes, ◌==ₜ◌, ok, err, arith, take, starts_with, Ensures,
}
use xfl_clash.Prelude.Int.{ℤ, pos}
use xfl_clash.Binary.{Bytes, hex_digit}
use xfl_clash.LinuxPackages.Error.{ambiguous_linux_package, missing_bundle_runners}
use xfl_clash.LinuxPackages.Cpio.{safe_name, cpio_members}
use xfl_clash.LinuxPackages.Cpio.Roundtrip.{
  hex_8, zeros, File, archive, streamed, IsWritable, cpio_members-archive,
}
use xfl_clash.LinuxPackages.Cpio.Ends.{Ends, cpio_members-Ends}
use xfl_clash.LinuxPackages.Members.{Expected, verify_members}
use xfl_clash.LinuxPackages.Members.Covered.{Covers, members_of, verify_members-Covers}
use xfl_clash.LinuxPackages.Appimage.{
  appimage_payload_offset, IsPayload, Raises, appimage_payload_offset-Good,
}
use xfl_clash.LinuxPackages.Audit.{
  TarMember, tar_file, tar_link, tar_stream, BundleFile, DistFile, Readers, Context, complete,
  verify,
}

-- The value of lower-case hexadecimal digits.
digit_of : ℕ → ℕ
digit_of c = if ltb c 58 then c - 48 else c - 87

digit_of-hex_digit : (d : ℕ) → d < 16 → digit_of (hex_digit d) ≡ d
unfolding digit_of
digit_of-hex_digit d h = ground (arith, h)

abbrev value_of : Bytes → Option ℤ
value_of (a ∷ b ∷ c ∷ d ∷ e ∷ f ∷ g ∷ h ∷ []) = some (
    pos (
      digit_of a * 268435456
      + digit_of b * 16777216
      + digit_of c * 1048576
      + digit_of d * 65536
      + digit_of e * 4096
      + digit_of f * 256
      + digit_of g * 16
      + digit_of h))
value_of s = none

digits_sum :
    (n : ℕ)
    → n < 4294967296
    → n / 268435456 % 16 * 268435456
        + n / 16777216 % 16 * 16777216
        + n / 1048576 % 16 * 1048576
        + n / 65536 % 16 * 65536
        + n / 4096 % 16 * 4096
        + n / 256 % 16 * 256
        + n / 16 % 16 * 16
        + n % 16
      ≡ n
digits_sum n h = omega (arith, h)

digit_of-rem : (x : ℕ) → digit_of (hex_digit (x % 16)) ≡ x % 16
digit_of-rem x = digit_of-hex_digit (x % 16) (omega arith)

value_of-hex_8 : (n : ℕ) → n < 2 ^ 32 → value_of (hex_8 n) ≡ some (pos n)
value_of-hex_8 n h =
    ap (λ m. some (pos m))
      (rw
        (
          digit_of-rem (n / 268435456),
          digit_of-rem (n / 16777216),
          digit_of-rem (n / 1048576),
          digit_of-rem (n / 65536),
          digit_of-rem (n / 4096),
          digit_of-rem (n / 256),
          digit_of-rem (n / 16),
          digit_of-rem n,
        )
        (digits_sum n (omega (arith, h))))

abbrev readme : File
readme = record { name = codes "doc/readme"; mode = 33188; content = codes "hello" }

abbrev runner : File
runner = record {
  name = codes "usr/share/flow/FlClash";
  mode = 33261;
  content = 0x7f ∷ codes "ELF";
}

readme-IsWritable : IsWritable readme
unfolding safe_name starts_with ◌==ₜ◌
readme-IsWritable = record {
  safe = refl;
  ascii = refl;
  short = omega arith;
  small = omega arith;
  mode = omega arith;
}

runner-IsWritable : IsWritable runner
unfolding safe_name starts_with ◌==ₜ◌
runner-IsWritable = record {
  safe = refl;
  ascii = refl;
  short = omega arith;
  small = omega arith;
  mode = omega arith;
}

cpio_members-archive_example :
    cpio_members value_of some (archive (readme ∷ runner ∷ [])) ≡ streamed (readme ∷ runner ∷ [])
unfolding ◌==ₜ◌
cpio_members-archive_example =
    cpio_members-archive value_of some value_of-hex_8 (λ s h. refl) (readme ∷ runner ∷ [])
      (readme-IsWritable, (runner-IsWritable, tt)) (refl, (refl, tt))

cpio_members-Ends_example :
    Ends value_of some (cpio_members value_of some (take 200 (archive (readme ∷ []))))
cpio_members-Ends_example = cpio_members-Ends value_of some (take 200 (archive (readme ∷ [])))

-- A bundle with its three runners, and a package for Debian that holds it.
abbrev elf : Text → Bytes
elf s = 0x7f ∷ codes "ELF" ++ s

abbrev plain : Text → BundleFile
plain name = record { path = name; is_plain = true; content = elf name }

abbrev bundle : List BundleFile
bundle =
    plain (codes "FlClash")
    ∷ plain (codes "FlClashCore")
    ∷ plain (codes "FlClashHelperService")
    ∷ record { path = codes "data/icon"; is_plain = true; content = codes "png" }
    ∷ []

abbrev packed : Text → TarMember
packed name = record {
  kind = tar_file;
  name = codes "./usr/share/flow/" ++ name;
  mode = 493;
  content = elf name;
}

abbrev packed_all : List TarMember
packed_all =
    packed (codes "FlClash")
    ∷ packed (codes "FlClashCore")
    ∷ packed (codes "FlClashHelperService")
    ∷ record { kind = tar_link; name = codes "./usr/bin/flow"; mode = 511; content = [] }
    ∷ []

abbrev deb : DistFile
deb = record { path = codes "flow.deb"; is_symlink = false; content = [] }

abbrev readers_of : List TarMember → Readers
readers_of members = record {
  rpm_version = λ _. ok [];
  rpm_payload = λ _. ok [];
  deb_version = λ _. ok (codes "1:1.2.3~beta+7" ++ (10 ∷ []));
  deb_members = λ _. ok members;
  squashfs_file = λ offset file name. ok (elf name);
  sha256 = λ bytes. bytes;
  int_16 = value_of;
  utf8 = some;
}

abbrev context : Context
context = record {
  arch = codes "amd64";
  product_version = codes "1.2.3-beta+4";
  build_number = 7;
  package_app_name = codes "flow";
  targets = codes "deb" ∷ [];
}

abbrev glob : Text → List DistFile
glob suffix = deb ∷ []

verify_run : (verify (readers_of packed_all) bundle glob context).1 ≡ record {
  passed = true;
  stage = complete;
  format = some (codes "deb");
  packages = (codes "deb", 3) ∷ [];
  error = none;
}
unfolding verify
verify_run = refl

-- A module is missing from the package.
verify_changed :
    (verify (readers_of (packed (codes "FlClash") ∷ [])) bundle glob context).1.passed ≡ false
unfolding verify
verify_changed = refl

verify_no_runner : (verify (readers_of packed_all) [] glob context).0 ≡ err missing_bundle_runners
unfolding verify
verify_no_runner = refl

verify_two_packages :
    (verify (readers_of packed_all) bundle (λ _. deb ∷ deb ∷ []) context).0
    ≡ err ambiguous_linux_package
unfolding verify
verify_two_packages = refl

abbrev one_expected : Expected
one_expected = (codes "FlClash", elf (codes "FlClash")) ∷ []

verify_members-Covers_example :
    Covers
      (λ bytes. bytes)
      some
      (codes "usr/share/flow/")
      one_expected
      none
      (members_of (tar_stream (packed (codes "FlClash") ∷ [])))
      (members_of (tar_stream (packed (codes "FlClash") ∷ [])))
unfolding verify_members safe_name
verify_members-Covers_example =
    verify_members-Covers (λ bytes. bytes) some (codes "usr/share/flow/") one_expected none
      (tar_stream (packed (codes "FlClash") ∷ [])) refl

-- The header of an image with one section, and its file system behind it.
abbrev image : Bytes
image =
    elf
      (2 ∷ 1 ∷ 1 ∷ 0 ∷ codes "AI" ++ (2 ∷ 0 ∷ 0 ∷ 0 ∷ 0 ∷ 0 ∷ 2 ∷ 0 ∷ 62 ∷ 0 ∷ 0 ∷ 0 ∷ 0 ∷ 0 ∷ []))
    ++ (0 ∷ 0 ∷ 0 ∷ 0 ∷ 0 ∷ 0 ∷ 0 ∷ 0 ∷ 0 ∷ 0 ∷ 0 ∷ 0 ∷ 0 ∷ 0 ∷ 0 ∷ 0 ∷ [])
    ++ (64 ∷ 0 ∷ 0 ∷ 0 ∷ 0 ∷ 0 ∷ 0 ∷ 0 ∷ 0 ∷ 0 ∷ 0 ∷ 0 ∷ 64 ∷ 0 ∷ 0 ∷ 0 ∷ 0 ∷ 0 ∷ 64 ∷ 0 ∷ 1 ∷ 0 ∷ 0
        ∷ 0 ∷ [])
    ++ zeros 64
    ++ codes "hsqs"
    ++ zeros 92

appimage_payload_offset_run : appimage_payload_offset image (codes "amd64") ≡ ok 128
unfolding appimage_payload_offset
appimage_payload_offset_run = refl

appimage_payload_offset-Good_example :
    Ensures
      (Raises (codes "amd64"))
      (IsPayload image)
      (appimage_payload_offset image (codes "amd64"))
appimage_payload_offset-Good_example = appimage_payload_offset-Good image (codes "amd64")
