-- ===== src/LinuxPackages/Members.antt =====
-- `verify_members` of tool/verify_linux_packages.py: the members of a package against the modules
-- of the bundle. SHA-256 and `bytes.decode` are parameters.
pub mod Covered
use xfl_clash.Prelude.{
  ℕ, zero, suc, ◌+◌, ◌-◌, ◌/◌, ◌%◌, ◌^◌, Bool, true, false, not, ◌&&◌, ◌||◌, Option, none, some,
  List, [], ◌∷◌, ◌++◌, ltb, leb, ◌==◌, if◌then◌else◌, Text, codes, ◌==ₜ◌, any, all, drop, length,
  starts_with, is_one_of, Result, ok, err, ◌>>=◌, ◌>>◌, raise_if,
}
use xfl_clash.Prelude.Int.{ℤ, pos, negsuc}
use xfl_clash.Binary.{Bytes}
use xfl_clash.LinuxPackages.Error.{
  PackageError, invalid_packaged_launcher, unexpected_packaged_native_module,
  duplicate_or_linked_native_module, packaged_native_bytes_changed, packaged_runner_not_executable,
  missing_packaged_launcher, missing_packaged_native_module, not_utf8, overflow_error,
}
use xfl_clash.LinuxPackages.Cpio.{Member, Stream, finished, broken, yields, safe_name}

-- The modules of the bundle, by their path in it, with their digests.
abbrev pub Expected : Type 0
Expected = List (Text × Text)

unfoldable pub digest_of : Expected → Text → Option Text
unfolding ◌==ₜ◌
digest_of [] name = none
digest_of ((k, v) ∷ rest) name = if k ==ₜ name then some v else digest_of rest name

-- The functions of `stat` take no negative mode; the type stands in the four bits from 4096 on.
abbrev pub mode_of : ℤ → Result PackageError ℕ
mode_of (pos n) = ok n
mode_of (negsuc n) = err overflow_error

-- `stat.S_ISREG`, `stat.S_ISLNK` and `mode & 0o111`.
abbrev pub is_regular : ℕ → Bool
is_regular mode = mode / 4096 % 16 == 8

abbrev pub is_link : ℕ → Bool
is_link mode = mode / 4096 % 16 == 10

abbrev pub is_executable : ℕ → Bool
is_executable mode = mode % 2 == 1 || mode / 8 % 2 == 1 || mode / 64 % 2 == 1

abbrev pub elf_magic : Bytes
elf_magic = 0x7f ∷ codes "ELF"

-- What the loop over the members has met.
pub record Seen : Type 0 where
  pub modules : List Text
  pub launcher : Bool

abbrev pub nothing_seen : Seen
nothing_seen = record { modules = []; launcher = false }

abbrev pub is_text : Option Text → Text → Result PackageError Bool
is_text none wanted = err not_utf8
is_text (some t) wanted = ok (t ==ₜ wanted)

module _ (sha256 : Bytes → Text) (utf8 : Bytes → Option Text) where
  -- The launcher's member; the link's text is decoded where the two tests before it pass.
  pub see_launcher : Text → Member → Seen → Result PackageError Seen
  see_launcher link m seen = do
    raise_if seen.launcher invalid_packaged_launcher
    mode ← mode_of m.mode
    raise_if (not (is_link mode)) invalid_packaged_launcher
    same ← is_text (utf8 m.content) link
    raise_if (not same) invalid_packaged_launcher
    ok (record seen { launcher = true })

  pub launcher_step : Option (Text × Text) → Text → Member → Seen → Result PackageError Seen
  launcher_step none name m seen = ok seen
  launcher_step (some (path, link)) name m seen = elim (name ==ₜ path) [
    | true ↦ see_launcher link m seen
    | false ↦ ok seen
  ]

  -- A member of the bundle's directory, by its path in it.
  pub see_module : Option Text → Text → Member → Seen → Result PackageError Seen
  see_module none relative m seen = do
    mode ← mode_of m.mode
    raise_if (is_regular mode && starts_with m.content elf_magic) unexpected_packaged_native_module
    ok seen
  see_module (some digest) relative m seen = do
    raise_if (is_one_of relative seen.modules) duplicate_or_linked_native_module
    mode ← mode_of m.mode
    raise_if (not (is_regular mode)) duplicate_or_linked_native_module
    raise_if (not (sha256 m.content ==ₜ digest)) packaged_native_bytes_changed
    raise_if (not (any (λ c. c == b'/') relative) && not (is_executable mode))
        packaged_runner_not_executable
    ok (record seen { modules = relative ∷ seen.modules })

  pub module_step : Text → Expected → Text → Member → Seen → Result PackageError Seen
  module_step prefix expected name m seen = elim (starts_with name prefix) [
    | false ↦ ok seen
    | true ↦
        see_module (digest_of expected (drop (length prefix) name)) (drop (length prefix) name) m
          seen
  ]

  -- The body of the loop.
  pub see_member : Text → Expected → Option (Text × Text) → Member → Seen → Result PackageError Seen
  see_member prefix expected launcher m seen = do
    name ← safe_name m.name
    seen' ← launcher_step launcher name m seen
    module_step prefix expected name m seen'

  abbrev pub has_launcher : Option (Text × Text) → Seen → Bool
  has_launcher none seen = true
  has_launcher (some l) seen = seen.launcher

  -- After the loop. Every name seen is an expected one, so the sets differ where one is missing.
  pub conclude : Expected → Option (Text × Text) → Seen → Result PackageError (Unit {0})
  conclude expected launcher seen = do
    raise_if (not (has_launcher launcher seen)) missing_packaged_launcher
    raise_if (not (all (λ e. is_one_of e.0 seen.modules) expected)) missing_packaged_native_module

  pub verify_from :
      Text → Expected → Option (Text × Text) → Stream → Seen → Result PackageError (Unit {0})
  verify_from prefix expected launcher finished seen = conclude expected launcher seen
  verify_from prefix expected launcher (broken e) seen = err e
  verify_from prefix expected launcher (yields m rest) seen =
      see_member prefix expected launcher m seen >>= λ seen'.
      verify_from prefix expected launcher rest seen'

  unfoldable pub verify_members :
      Stream → Text → Expected → Option (Text × Text) → Result PackageError (Unit {0})
  unfolding digest_of verify_from conclude see_member module_step see_module launcher_step
      see_launcher is_one_of starts_with ◌==ₜ◌
  verify_members members prefix expected launcher =
      verify_from prefix expected launcher members nothing_seen
