-- ===== src/Tests/Uploads.antt =====
-- tool/upload_sentry_symbols.py at a concrete manifest for Linux.
use xfl_clash.Prelude.{
  ◌≡◌, refl, Bool, true, false, some, List, [], ◌∷◌, Text, codes, ◌==ₜ◌, contains, if◌then◌else◌,
  Result, ok, err, Returns, for_each, is_one_of,
}
use xfl_clash.Binary.{Bytes, byte_at, unpack_from, until}
use xfl_clash.Elf.{architecture_of, inspect_elf}
use xfl_clash.Elf.Notes.{read_notes}
use xfl_clash.Upload.Error.{SymbolError, no_separate_companion}
use xfl_clash.Upload.Check.{text, Files, Info}
use xfl_clash.Upload.Companions.{
  Entry, Required, Item, dictionary, no_copies, Manifest, Evidence, SafeLimitation,
  audit_elf_native,
}
use xfl_clash.Upload.Companions.Matched.{IsUpload, audit_elf_native-IsUpload}
use xfl_clash.Tests.Samples.{elf_file, companion_file}

abbrev is_companion : Text → Bool
is_companion path = contains path (codes ".debug")

abbrev name_of : Text → Text
name_of path = if contains path (codes "FlClash") then codes "FlClash" else codes "librust_api.so"

abbrev files : Files
files = record {
  is_absolute = λ s. false;
  is_inside = λ s. true;
  is_file = λ s. true;
  resolved = λ s. s;
  name = name_of;
  suffix = λ s. if is_companion s then codes ".debug" else codes ".so";
  content = λ s. if is_companion s then companion_file else elf_file;
}

abbrev cli : Text → Result SymbolError Info
cli path = ok (record {
  variants = record { debug_id = codes "AB-01"; arch = codes "x86_64" } ∷ [];
  is_usable = is_companion path;
  kind = some (codes "elf");
  features = codes "symtab, debug";
})

abbrev digest : Bytes → Text
digest bytes = []

abbrev entry : Text → Text → Entry
entry target debug_file = record {
  target = text target;
  architecture = text (codes "x64");
  source = text (codes "c");
  binary = text target;
  debug_file = text debug_file;
  binary_copies = no_copies;
}

abbrev needed : Text → Item Required
needed target = dictionary (record { target = text target; architecture = text (codes "x64") })

abbrev manifest_of : Text → Manifest
manifest_of debug_file = record {
  has_schema = true;
  is_for_platform = true;
  artifacts = some (
      dictionary (entry (codes "FlClash") (codes "FlClash.debug"))
      ∷ dictionary (entry (codes "librust_api.so") debug_file)
      ∷ []);
  required = some (needed (codes "FlClash") ∷ needed (codes "librust_api.so") ∷ []);
  limitations = some [];
}

abbrev artifacts_of :
    Result SymbolError (List Text × List Evidence × List SafeLimitation)
    → Result SymbolError (List Text)
artifacts_of (ok (artifacts, evidence, safe)) = ok artifacts
artifacts_of (err e) = err e

audit_run :
    artifacts_of (
      audit_elf_native digest files cli false
        (λ entries required. ok tt)
        (manifest_of (codes "api.debug")))
    ≡ ok (codes "FlClash.debug" ∷ codes "api.debug" ∷ [])
unfolding audit_elf_native inspect_elf byte_at ◌==ₜ◌ unpack_from architecture_of for_each until
    is_one_of read_notes contains
audit_run = refl

-- The binary itself is no companion.
audit_same :
    artifacts_of (
      audit_elf_native digest files cli false
        (λ entries required. ok tt)
        (manifest_of (codes "librust_api.so")))
    ≡ err no_separate_companion
unfolding audit_elf_native inspect_elf byte_at ◌==ₜ◌ unpack_from architecture_of for_each until
    is_one_of read_notes contains
audit_same = refl

audit_elf_native-IsUpload_example :
    Returns (IsUpload digest files false (manifest_of (codes "api.debug"))) (
      audit_elf_native digest files cli false
        (λ entries required. ok tt)
        (manifest_of (codes "api.debug")))
audit_elf_native-IsUpload_example =
    audit_elf_native-IsUpload digest files false cli (λ entries required. ok tt)
      (manifest_of (codes "api.debug"))
