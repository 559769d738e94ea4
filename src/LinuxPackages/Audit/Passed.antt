-- ===== src/LinuxPackages/Audit/Passed.antt =====
-- What a passed audit of the packages for Linux shows, tool/verify_linux_packages.py.
use xfl_clash.Prelude.{
  ℕ, true, false, none, some, List, ◌≡◌, Text, codes, ◌==ₜ◌, ok, strip, is_space, ◌++◌, All,
}
use xfl_clash.Prelude.Decimal.{show}
use xfl_clash.Binary.{Bytes}
use xfl_clash.LinuxPackages.Cpio.{cpio_members}
use xfl_clash.LinuxPackages.Members.{Expected}
use xfl_clash.LinuxPackages.Members.Covered.{Covers, members_of}
use xfl_clash.LinuxPackages.Appimage.{appimage_payload_offset}
use xfl_clash.LinuxPackages.Audit.{
  TarMember, tar_stream, DistFile, Readers, Context, suffix_of, product_of, is_rpm_version,
  only_file, own_error, prefix_of, launcher_of, Audit, Outcome,
}

-- An outcome whose report has `passed` as it was.
abbrev Keeps : Audit → Outcome → Type 0
Keeps audit o = o.1.passed ≡ audit.passed

module _ (readers : Readers) where
  -- An image gives each module with its digest.
  abbrev pub IsSame : ℕ → DistFile → Text × Text → Type 0
  IsSame offset file (name, digest) =
      (content : Bytes) × (readers.squashfs_file offset file name ≡ ok content)
      × (readers.sha256 content ≡ digest)

  -- The version that the package states is that of the product and the build.
  abbrev pub IsRpmVersion : Context → DistFile → Type 0
  IsRpmVersion c file =
      (meta : Text) × (readers.rpm_version file ≡ ok meta)
      × (is_rpm_version (codes "1:" ++ product_of c ++ codes "-" ++ show c.build_number) meta
          ≡ true)

  abbrev pub IsDebVersion : Context → DistFile → Type 0
  IsDebVersion c file =
      (meta : Text) × (readers.deb_version file ≡ ok meta)
      × (strip is_space meta ≡ codes "1:" ++ product_of c ++ codes "+" ++ show c.build_number)

  -- What was checked of one package, by its kind.
  pub data IsVerified (c : Context) (expected : Expected) (kind : Text) (file : DistFile)
      : Type 0 where
    by_rpm :
        (archive : Bytes)
        → (kind ==ₜ codes "rpm") ≡ true
        → IsRpmVersion c file
        → readers.rpm_payload file ≡ ok archive
        → (let ms = members_of (cpio_members readers.int_16 readers.utf8 archive) in
            Covers readers.sha256 readers.utf8 (prefix_of c) expected (some (launcher_of c)) ms ms)
        → IsVerified c expected kind file
    by_deb :
        (members : List TarMember)
        → (kind ==ₜ codes "rpm") ≡ false
        → (kind ==ₜ codes "deb") ≡ true
        → IsDebVersion c file
        → readers.deb_members file ≡ ok members
        → Covers readers.sha256 readers.utf8
            (prefix_of c)
            expected
            none
            (members_of (tar_stream members))
            (members_of (tar_stream members))
        → IsVerified c expected kind file
    by_image :
        (offset : ℕ)
        → (kind ==ₜ codes "rpm") ≡ false
        → (kind ==ₜ codes "deb") ≡ false
        → own_error (appimage_payload_offset file.content c.arch) ≡ ok offset
        → All (IsSame offset file) expected
        → IsVerified c expected kind file

  module _ (c : Context) (expected : Expected) (kind : Text) (file : DistFile) where
    P : Unit {0} → Type 0
    P u = IsVerified c expected kind file

    -- A run whose result is known to be accepted shows it.
    abbrev Shows : Outcome → Type 0
    Shows o = o.0 ≡ ok tt → IsVerified c expected kind file

  -- A target has one package, which is no link, and its content was checked.
  abbrev pub IsChecked : (Text → List DistFile) → Context → Expected → Text → Type 0
  IsChecked glob c expected kind =
      (suffix : Text) × (file : DistFile) × (suffix_of kind ≡ ok suffix)
      × (only_file (glob suffix) ≡ ok file)
      × IsVerified c expected kind file
