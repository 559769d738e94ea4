-- ===== src/LinuxPackages/Audit.antt =====
-- `expected_modules`, `verify_appimage`, `_verify` and `verify` of tool/verify_linux_packages.py.
-- The package readers, the directories and `tarfile` are parameters, as are SHA-256 and `int`.
pub mod Passed
use xfl_clash.Prelude.{
  ℕ, zero, suc, ◌+◌, ◌*◌, Bool, true, false, not, ◌&&◌, ◌||◌, Option, none, some, List, [], ◌∷◌,
  ◌++◌, ltb, leb, ◌==◌, if◌then◌else◌, Text, codes, ◌==ₜ◌, all, any, drop, take, length,
  starts_with, is_one_of, is_digit, strip, is_space, Result, ok, err, ◌>>=◌, ◌>>◌, raise_if,
}
use Prim.Native.Nat.{bit_or}
use xfl_clash.Prelude.Int.{ℤ, pos}
use xfl_clash.Prelude.Decimal.{show}
use xfl_clash.Binary.{Bytes, Fault, rejected, struct_error, index_error, key_error, no_rounds}
use xfl_clash.LinuxPackages.Error.{
  PackageError, missing_bundle_runners, ambiguous_linux_package, rpm_version_mismatch,
  deb_version_mismatch, unsafe_tar_size, packaged_native_bytes_changed,
}
use xfl_clash.LinuxPackages.Error
use xfl_clash.LinuxPackages.Cpio.{Member, Stream, finished, broken, yields, cpio_members, max_size}
use xfl_clash.LinuxPackages.Members.{Expected, digest_of, elf_magic, verify_members}
use xfl_clash.LinuxPackages.Appimage.{appimage_payload_offset}

-- What `tarfile` yields: a regular file, a symbolic or hard link, or another member.
pub data TarKind : Type 0 where
  tar_file tar_link tar_other : TarKind

pub record TarMember : Type 0 where
  pub kind : TarKind
  pub name : Text
  pub mode : ℕ
  pub content : Bytes

-- A file of the bundle, by its path in it, in sorted order.
pub record BundleFile : Type 0 where
  pub path : Text
  pub is_plain : Bool
  pub content : Bytes

-- A file of the distribution directory.
pub record DistFile : Type 0 where
  pub path : Text
  pub is_symlink : Bool
  pub content : Bytes

-- The programs that read packages; each raises where it fails.
pub record Readers : Type 0 where
  pub rpm_version : DistFile → Result PackageError Text
  pub rpm_payload : DistFile → Result PackageError Bytes
  pub deb_version : DistFile → Result PackageError Text
  pub deb_members : DistFile → Result PackageError (List TarMember)
  pub squashfs_file : ℕ → DistFile → Text → Result PackageError Bytes
  pub sha256 : Bytes → Text
  pub int_16 : Bytes → Option ℤ
  pub utf8 : Bytes → Option Text

pub record Context : Type 0 where
  pub arch : Text
  pub product_version : Text
  pub build_number : ℕ
  pub package_app_name : Text
  pub targets : List Text

abbrev pub runners : List Text
runners = codes "FlClash" ∷ codes "FlClashCore" ∷ codes "FlClashHelperService" ∷ []

abbrev pub modules_of : (Bytes → Text) → List BundleFile → Expected
modules_of sha256 [] = []
modules_of sha256 (f ∷ fs) =
    if f.is_plain && take 4 f.content ==ₜ elf_magic
    then (f.path, sha256 f.content) ∷ modules_of sha256 fs
    else modules_of sha256 fs

unfoldable pub expected_modules : (Bytes → Text) → List BundleFile → Result PackageError Expected
unfolding is_one_of ◌==ₜ◌
expected_modules sha256 bundle =
    raise_if (not (all (λ r. any (λ m. m.0 ==ₜ r) (modules_of sha256 bundle)) runners))
      missing_bundle_runners
    >> ok (modules_of sha256 bundle)

-- `members`, the generator over a tar file.
abbrev pub tar_stream : List TarMember → Stream
tar_stream [] = finished
tar_stream (m ∷ ms) = elim m.kind [
  | tar_file ↦
      if ltb max_size (length m.content)
      then broken unsafe_tar_size
      else yields (record { name = m.name; mode = pos (bit_or 32768 m.mode); content = m.content })
          (tar_stream ms)
  | tar_link ↦
      yields (record { name = m.name; mode = pos (bit_or 40960 m.mode); content = [] })
        (tar_stream ms)
  | tar_other ↦ tar_stream ms
]

-- `product_version.split('+')[0]`, and `replace('-', '~', 1)`.
abbrev pub before_plus : Text → Text
before_plus [] = []
before_plus (c ∷ s) = if c == b'+' then [] else c ∷ before_plus s

abbrev pub tilde_first : Text → Text
tilde_first [] = []
tilde_first (c ∷ s) = if c == b'-' then b'~' ∷ s else c ∷ tilde_first s

abbrev pub product_of : Context → Text
product_of c = tilde_first (before_plus c.product_version)

abbrev pub is_release_char : ℕ → Bool
is_release_char c =
    is_digit c || (leb b'a' c && leb c b'z') || (leb b'A' c && leb c b'Z') || c == b'.' || c == b'_'

-- `(?:\.[A-Za-z0-9._]+)?` of a whole text.
abbrev pub is_release_suffix : Text → Bool
is_release_suffix [] = true
is_release_suffix (c ∷ []) = false
is_release_suffix (c ∷ d ∷ s) = c == b'.' && all is_release_char (d ∷ s)

abbrev pub is_rpm_version : Text → Text → Bool
is_rpm_version wanted meta =
    starts_with meta wanted && is_release_suffix (drop (length wanted) meta)

abbrev pub suffix_of : Text → Result PackageError Text
suffix_of kind =
    if kind ==ₜ codes "deb"
    then ok (codes ".deb")
    else if kind ==ₜ codes "rpm"
    then ok (codes ".rpm")
    else if kind ==ₜ codes "appimage"
    then ok (codes ".AppImage")
    else err Error.key_error

abbrev pub only_file : List DistFile → Result PackageError DistFile
only_file [] = err ambiguous_linux_package
only_file (f ∷ []) = if f.is_symlink then err ambiguous_linux_package else ok f
only_file (f ∷ g ∷ fs) = err ambiguous_linux_package

abbrev pub own_error : {A : Type 0} → Result (Fault PackageError) A → Result PackageError A
own_error (ok a) = ok a
own_error (err (rejected e)) = err e
own_error (err struct_error) = err Error.index_error
own_error (err index_error) = err Error.index_error
own_error (err key_error) = err Error.key_error
own_error (err no_rounds) = err Error.no_rounds

-- Where the modules stand in a package, and the launcher of an RPM.
abbrev pub prefix_of : Context → Text
prefix_of c = codes "usr/share/" ++ c.package_app_name ++ codes "/"

abbrev pub launcher_of : Context → Text × Text
launcher_of c = (
  codes "usr/bin/" ++ c.package_app_name,
  codes "/usr/share/" ++ c.package_app_name ++ codes "/FlClash",
)

-- How far the verification came.
pub data Stage : Type 0 where
  bundle_stage package_selection metadata payload appimage_readback complete : Stage

-- The report; `error` is the exception, which the source writes as its code and its class.
pub record Audit : Type 0 where
  pub passed : Bool
  pub stage : Stage
  pub format : Option Text
  pub packages : List (Text × ℕ)
  pub error : Option PackageError

abbrev pub first_audit : Audit
first_audit = record {
  passed = false;
  stage = bundle_stage;
  format = none;
  packages = [];
  error = none;
}

abbrev pub Outcome : Type 0
Outcome = Result PackageError (Unit {0}) × Audit

-- A step that raises leaves the audit as it is.
abbrev pub and_then : {A : Type 0} → Result PackageError A → Audit → (A → Outcome) → Outcome
and_then (ok a) audit f = f a
and_then (err e) audit f = (err e, audit)

abbrev pub recorded : Text → Expected → Outcome → Outcome
recorded kind expected (err e, audit) = (err e, audit)
recorded kind expected (ok u, audit) =
    (ok tt, record audit { packages = audit.packages ++ ((kind, length expected) ∷ []) })

abbrev pub next_target : (Audit → Outcome) → Outcome → Outcome
next_target rest (err e, audit) = (err e, audit)
next_target rest (ok u, audit) = rest audit

abbrev pub closed : Outcome → Outcome
closed (ok u, audit) = (ok tt, record audit { passed = true; stage = complete })
closed (err e, audit) = (err e, record audit { error = some e })

module _ (readers : Readers) where
  -- The loop over the modules of `verify_appimage`.
  pub same_files : ℕ → DistFile → Expected → Result PackageError (Unit {0})
  same_files offset file [] = ok tt
  same_files offset file ((name, digest) ∷ rest) = do
    content ← readers.squashfs_file offset file name
    raise_if (not (readers.sha256 content ==ₜ digest)) packaged_native_bytes_changed
    same_files offset file rest

  pub verify_appimage : DistFile → Expected → Text → Result PackageError (Unit {0})
  verify_appimage file expected arch = do
    offset ← own_error (appimage_payload_offset file.content arch)
    same_files offset file expected

  -- An RPM's or a Debian package's version, and its members.
  pub rpm_metadata : Context → DistFile → Result PackageError (Unit {0})
  rpm_metadata c file = do
    meta ← readers.rpm_version file
    raise_if
        (not (is_rpm_version (codes "1:" ++ product_of c ++ codes "-" ++ show c.build_number) meta))
        rpm_version_mismatch

  pub rpm_contents : Context → Expected → DistFile → Result PackageError (Unit {0})
  rpm_contents c expected file = do
    archive ← readers.rpm_payload file
    verify_members readers.sha256 readers.utf8 (cpio_members readers.int_16 readers.utf8 archive)
        (prefix_of c) expected (some (launcher_of c))

  pub deb_metadata : Context → DistFile → Result PackageError (Unit {0})
  deb_metadata c file = do
    meta ← readers.deb_version file
    raise_if
        (not (
          strip is_space meta ==ₜ (codes "1:" ++ product_of c ++ codes "+" ++ show c.build_number)))
        deb_version_mismatch

  pub deb_contents : Context → Expected → DistFile → Result PackageError (Unit {0})
  deb_contents c expected file = do
    members ← readers.deb_members file
    verify_members readers.sha256 readers.utf8 (tar_stream members) (prefix_of c) expected none

  -- From the metadata on, by the kind of the package; each part notes its stage first.
  pub verify_file : Context → Expected → Text → DistFile → Audit → Outcome
  verify_file c expected kind file audit =
      if kind ==ₜ codes "rpm"
      then and_then (rpm_metadata c file) (record audit { stage = metadata })
          (λ _. (rpm_contents c expected file, record audit { stage = payload }))
      else if kind ==ₜ codes "deb"
      then and_then (deb_metadata c file) (record audit { stage = metadata })
          (λ _. (deb_contents c expected file, record audit { stage = payload }))
      else (verify_appimage file expected c.arch, record audit { stage = appimage_readback })

  -- The body of the loop over the targets; `glob` lists the files with a suffix.
  pub verify_target : (Text → List DistFile) → Context → Expected → Text → Audit → Outcome
  verify_target glob c expected kind audit =
      let chosen = record audit { format = some kind; stage = package_selection } in
      and_then (suffix_of kind) chosen λ suffix.
        and_then (only_file (glob suffix)) chosen
          λ file. recorded kind expected (verify_file c expected kind file chosen)

  pub verify_targets : (Text → List DistFile) → Context → Expected → List Text → Audit → Outcome
  verify_targets glob c expected [] audit = (ok tt, audit)
  verify_targets glob c expected (kind ∷ kinds) audit =
      next_target (verify_targets glob c expected kinds) (verify_target glob c expected kind audit)

  -- `_verify`; `bundle` has the files of the bundle.
  pub verify_packages : List BundleFile → (Text → List DistFile) → Context → Audit → Outcome
  verify_packages bundle glob c audit =
      and_then (expected_modules readers.sha256 bundle) audit
        λ expected. verify_targets glob c expected c.targets audit

  -- `verify`: the audit is the report as it is written last.
  unfoldable pub verify : List BundleFile → (Text → List DistFile) → Context → Outcome
  unfolding verify_packages verify_targets verify_target verify_file rpm_metadata rpm_contents
      deb_metadata deb_contents verify_appimage same_files expected_modules digest_of cpio_members
      verify_members appimage_payload_offset starts_with ◌==ₜ◌ strip is_space show
  verify bundle glob c = closed (verify_packages bundle glob c first_audit)
