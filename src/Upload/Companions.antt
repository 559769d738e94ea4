-- ===== src/Upload/Companions.antt =====
-- `audit_elf_native` of tool/upload_sentry_symbols.py: the debug companions of a manifest for
-- Android or Linux against the modules that are distributed. The comparison with the files of the
-- bundle, `_audit_native_inventory`, is a parameter.
pub mod Parts
pub mod Matched
use xfl_clash.Prelude.{
  ℕ, Bool, true, false, not, ◌&&◌, ◌||◌, Option, none, some, List, [], ◌∷◌, ◌++◌, if◌then◌else◌,
  map, all, any, Text, codes, ◌==ₜ◌, is_one_of, same_texts, Result, ok, err, ◌>>=◌, ◌>>◌, raise_if,
  for_each,
}
use xfl_clash.Binary.{Bytes, Fault}
use xfl_clash.Elf.{Elf, inspect_elf}
use xfl_clash.Elf.Error.{ElfError}
use xfl_clash.Upload.Error.{
  SymbolError, unexpected_manifest, no_companions, no_required, invalid_record,
  duplicate_architecture, wrong_binary_name, no_separate_companion, invalid_elf, build_id_mismatch,
  architecture_mismatch, executable_companion, no_line_information, debug_id_mismatch,
  no_debug_feature, no_unwind_feature, no_runtime_copies, invalid_required, duplicate_required,
  missing_companion, missing_mandatory, invalid_limitation, required_is_limitation,
}
use xfl_clash.Upload.Check.{
  Value, safe_label, Files, native_path, Fingerprint, fingerprint, Info, Checked, check_symbol,
  has_feature,
}

-- The runtime copies of an entry: none are named, the value is not a list that is not empty, or
-- the copies.
pub data Copies : Type 0 where
  no_copies bad_copies : Copies
  copies : Value → List Value → Copies

pub record Entry : Type 0 where
  pub target : Value
  pub architecture : Value
  pub source : Value
  pub binary : Value
  pub debug_file : Value
  pub binary_copies : Copies

pub record Required : Type 0 where
  pub target : Value
  pub architecture : Value

pub record Limitation : Type 0 where
  pub target : Value
  pub architecture : Value
  pub source : Value
  pub reason : Value

-- An item of a list: a dictionary, or another value.
pub data Item (A : Type 0) : Type 0 where
  dictionary : A → Item A
  not_dictionary : Item A

-- A parsed manifest; a value of another type than a list is none.
pub record Manifest : Type 0 where
  pub has_schema : Bool
  pub is_for_platform : Bool
  pub artifacts : Option (List (Item Entry))
  pub required : Option (List (Item Required))
  pub limitations : Option (List (Item Limitation))

abbrev pub Identity : Type 0
Identity = Text × Text

pub record Evidence : Type 0 where
  pub target : Text
  pub architecture : Text
  pub source : Text
  pub build_id : Text
  pub binary : Fingerprint
  pub symbols : Fingerprint
  pub checked : Checked
  pub binary_copies : Option (List Fingerprint)

pub record SafeLimitation : Type 0 where
  pub target : Text
  pub architecture : Text
  pub source : Text
  pub reason : Text

-- What the loop over the entries has collected.
pub record Seen : Type 0 where
  pub artifacts : List Text
  pub evidence : List Evidence
  pub seen : List Identity

abbrev pub nothing_seen : Seen
nothing_seen = record { artifacts = []; evidence = []; seen = [] }

-- The names of `inspect_elf` for the architectures of a platform.
abbrev pub architecture_of : Bool → Text → Option Text
architecture_of true a =
    if a ==ₜ codes "armeabi-v7a"
    then some (codes "arm")
    else if a ==ₜ codes "arm64-v8a"
    then some (codes "aarch64")
    else if a ==ₜ codes "x86_64"
    then some (codes "x86_64")
    else none
architecture_of false a =
    if a ==ₜ codes "x64"
    then some (codes "x86_64")
    else if a ==ₜ codes "arm64"
    then some (codes "aarch64")
    else none

unfoldable pub is_in : Identity → List Identity → Bool
unfolding ◌==ₜ◌
is_in (t, a) [] = false
is_in (t, a) ((u, b) ∷ ids) = (t ==ₜ u && a ==ₜ b) || is_in (t, a) ids

-- The architecture that an entry which is new must have.
abbrev pub new_architecture : Bool → Option Text → Result SymbolError Text
new_architecture true a = err duplicate_architecture
new_architecture false none = err duplicate_architecture
new_architecture false (some a) = ok a

abbrev pub is_empty : Text → Bool
is_empty [] = true
is_empty (c ∷ s) = false

abbrev pub readable : {A : Type 0} → Result (Fault ElfError) A → Result SymbolError A
readable (ok a) = ok a
readable (err e) = err invalid_elf

-- The comparison of a binary with its companion.
pub compare : Text → Elf → Elf → Result SymbolError (Unit {0})
compare architecture binary debug = do
  raise_if (is_empty binary.build_id || not (binary.build_id ==ₜ debug.build_id)) build_id_mismatch
  raise_if (not (binary.architecture ==ₜ architecture) || not (debug.architecture ==ₜ architecture))
      architecture_mismatch
  raise_if debug.has_executable_text executable_companion
  raise_if (not debug.has_debug_info || not debug.has_debug_line) no_line_information

-- The comparison of the reports of `sentry-cli`.
pub compare_checked : Checked → Checked → Result SymbolError (Unit {0})
compare_checked binary debug = do
  raise_if (not (same_texts binary.debug_ids debug.debug_ids)) debug_id_mismatch
  raise_if (not (has_feature (codes "debug") debug.features)) no_debug_feature
  raise_if
      (has_feature (codes "unwind") binary.features
        && not (has_feature (codes "unwind") debug.features))
      no_unwind_feature

abbrev pub sentry_android_targets : List Text
sentry_android_targets = codes "libsentry.so" ∷ codes "libsentry-android.so" ∷ []

abbrev pub static_targets : Bool → List Text
static_targets true = codes "libclash.so" ∷ codes "librust_api.so" ∷ []
static_targets false = codes "FlClash" ∷ codes "librust_api.so" ∷ []

abbrev pub is_supported : Option Text → Bool
is_supported none = false
is_supported (some a) = true

-- A required module is one that was not named before, on an architecture of the platform.
abbrev pub add_required : Bool → List Identity → Item Required → Result SymbolError (List Identity)
add_required android required not_dictionary = err invalid_required
add_required android required (dictionary r) = do
  target ← safe_label r.target
  architecture ← safe_label r.architecture
  raise_if (is_in (target, architecture) required) duplicate_required
  raise_if (not (is_supported (architecture_of android architecture))) duplicate_required
  ok (required ++ (target, architecture) ∷ [])

abbrev pub has_static : Bool → List Identity → Identity → Bool
has_static android required (t, a) = all (λ s. is_in (s, a) required) (static_targets android)

abbrev pub add_limitation :
    Bool
    → List Identity
    → List SafeLimitation
    → Item Limitation
    → Result SymbolError (List SafeLimitation)
add_limitation android required safe not_dictionary = err invalid_limitation
add_limitation android required safe (dictionary l) = do
  target ← safe_label l.target
  architecture ← safe_label l.architecture
  source ← safe_label l.source
  reason ← safe_label l.reason
  raise_if
      (android && is_one_of target sentry_android_targets && is_in (target, architecture) required)
      required_is_limitation
  ok (
      safe
      ++ record { target = target; architecture = architecture; source = source; reason = reason }
        ∷ [])

abbrev pub non_empty : {A : Type 0} → SymbolError → Option (List A) → Result SymbolError (List A)
non_empty e none = err e
non_empty e (some []) = err e
non_empty e (some (a ∷ rest)) = ok (a ∷ rest)

abbrev pub a_list : {A : Type 0} → Option (List A) → Result SymbolError (List A)
a_list none = err no_companions
a_list (some xs) = ok xs

module _ (sha256 : Bytes → Text) (files : Files) (cli : Text → Result SymbolError Info)
    (android : Bool) where
  -- The fingerprints of the runtime copies, on Linux.
  abbrev pub copies_of : Copies → Result SymbolError (Option (List Fingerprint))
  copies_of no_copies = ok none
  copies_of bad_copies = if android then ok none else err no_runtime_copies
  copies_of (copies v vs) =
      if android
      then ok none
      else (for_each
            (λ done value.
              native_path files value >>= λ path. ok (done ++ fingerprint sha256 files path ∷ []))
            [] (v ∷ vs)
          >>= λ all. ok (some all))

  -- The two files of an entry.
  pub check_pair : Text → Text → Text → Text → Result SymbolError (Elf × Checked)
  check_pair target wanted binary debug_file = do
    raise_if (not (files.name binary ==ₜ target)) wrong_binary_name
    raise_if
        (not (files.suffix debug_file ==ₜ codes ".debug")
          || files.resolved binary ==ₜ files.resolved debug_file)
        no_separate_companion
    binary_elf ← readable (inspect_elf sha256 (files.content binary))
    debug_elf ← readable (inspect_elf sha256 (files.content debug_file))
    compare wanted binary_elf debug_elf
    binary_info ← check_symbol files cli binary (codes "elf") false
    debug_info ← check_symbol files cli debug_file (codes "elf") true
    compare_checked binary_info debug_info
    ok (binary_elf, debug_info)

  pub audit_entry : Seen → Item Entry → Result SymbolError Seen
  audit_entry seen not_dictionary = err invalid_record
  audit_entry seen (dictionary entry) = do
    target ← safe_label entry.target
    architecture ← safe_label entry.architecture
    source ← safe_label entry.source
    wanted ←
        new_architecture (is_in (target, architecture) seen.seen)
          (architecture_of android architecture)
    binary ← native_path files entry.binary
    debug_file ← native_path files entry.debug_file
    (binary_elf, info) ← check_pair target wanted binary debug_file
    copied ← copies_of entry.binary_copies
    ok (record {
      artifacts = seen.artifacts ++ debug_file ∷ [];
      evidence =
          seen.evidence
          ++ record {
            target = target;
            architecture = architecture;
            source = source;
            build_id = binary_elf.build_id;
            binary = fingerprint sha256 files binary;
            symbols = fingerprint sha256 files debug_file;
            checked = info;
            binary_copies = copied;
          }
            ∷ [];
      seen = seen.seen ++ (target, architecture) ∷ [];
    })

  -- `inventory` is `_audit_native_inventory`.
  unfoldable pub audit_elf_native :
      (List (Item Entry) → List Identity → Result SymbolError (Unit {0}))
      → Manifest
      → Result SymbolError (List Text × List Evidence × List SafeLimitation)
  unfolding audit_entry check_pair compare compare_checked check_symbol has_feature native_path
      safe_label is_in is_one_of for_each same_texts ◌==ₜ◌
  audit_elf_native inventory manifest = do
    raise_if (not manifest.has_schema || not manifest.is_for_platform) unexpected_manifest
    entries ← non_empty no_companions manifest.artifacts
    limitations ← a_list manifest.limitations
    required_entries ← non_empty no_required manifest.required
    seen ← for_each audit_entry nothing_seen entries
    required ← for_each (add_required android) [] required_entries
    raise_if (not (all (λ r. is_in r seen.seen) required)) missing_companion
    raise_if (not (all (has_static android required) seen.seen)) missing_mandatory
    inventory entries required
    safe ← for_each (add_limitation android required) [] limitations
    ok (seen.artifacts, seen.evidence, safe)
