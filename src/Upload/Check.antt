-- ===== src/Upload/Check.antt =====
-- Labels, paths and the report of `sentry-cli` on one file, tool/upload_sentry_symbols.py.
use xfl_clash.Prelude.{
  ℕ, ◌+◌, Bool, true, false, not, ◌&&◌, ◌||◌, Option, none, some, List, [], ◌∷◌, ◌++◌, ltb, leb,
  ◌==◌, if◌then◌else◌, map, keep, all, any, Text, codes, ◌==ₜ◌, is_digit, is_one_of, length, Result,
  ok, err, ◌>>=◌, ◌>>◌, raise_if,
}
use xfl_clash.Binary.{Bytes}
use xfl_clash.Upload.Error.{
  SymbolError, missing_debug_artifact, unusable_debug_information, unexpected_symbol_format,
  invalid_label, not_relative, escaped_build_root, missing_artifact, key_error,
}

-- A value of a parsed manifest: a text, or one of another type; `get` gives the latter where the
-- key is missing.
pub data Value : Type 0 where
  text : Text → Value
  other : Value

abbrev pub is_letter : ℕ → Bool
is_letter c = (leb b'a' c && leb c b'z') || (leb b'A' c && leb c b'Z')

abbrev pub is_label_char : ℕ → Bool
is_label_char c = is_letter c || is_digit c || c == b'_' || c == b'.' || c == b'+' || c == b'-'

-- `_safe_label`
unfoldable pub safe_label : Value → Result SymbolError Text
safe_label other = err invalid_label
safe_label (text s) =
    if leb 1 (length s) && leb (length s) 100 && all is_label_char s
    then ok s
    else err invalid_label

-- What the checks read of the file system: paths below the build root by their text.
pub record Files : Type 0 where
  pub is_absolute : Text → Bool
  pub is_inside : Text → Bool
  pub is_file : Text → Bool
  pub resolved : Text → Text
  pub name : Text → Text
  pub suffix : Text → Text
  pub content : Text → Bytes

-- `_native_path`
unfoldable pub native_path : Files → Value → Result SymbolError Text
native_path files other = err not_relative
native_path files (text s) = do
  raise_if (length s == 0 || files.is_absolute s) not_relative
  raise_if (not (files.is_inside s)) escaped_build_root
  raise_if (not (files.is_file s)) missing_artifact
  ok s

pub record Fingerprint : Type 0 where
  pub name : Text
  pub bytes : ℕ
  pub sha256 : Text

abbrev pub fingerprint : (Bytes → Text) → Files → Text → Fingerprint
fingerprint sha256 files path = record {
  name = files.name path;
  bytes = length (files.content path);
  sha256 = sha256 (files.content path);
}

-- The order of texts, and a set of texts as its sorted list.
unfoldable pub before : Text → Text → Bool
before [] [] = false
before [] (d ∷ t) = true
before (c ∷ s) [] = false
before (c ∷ s) (d ∷ t) = ltb c d || (c == d && before s t)

unfoldable pub insert : Text → List Text → List Text
unfolding before ◌==ₜ◌
insert s [] = s ∷ []
insert s (t ∷ ts) = elim (s ==ₜ t) [
  | true ↦ t ∷ ts
  | false ↦ elim (before s t) [ true ↦ s ∷ t ∷ ts | false ↦ t ∷ insert s ts ]
]

unfoldable pub sorted_set : List Text → List Text
unfolding insert
sorted_set [] = []
sorted_set (s ∷ ss) = insert s (sorted_set ss)

-- A report of `sentry-cli debug-files check`; a key that is missing is an empty text.
pub record Variant : Type 0 where
  pub debug_id : Text
  pub arch : Text

pub record Info : Type 0 where
  pub variants : List Variant
  pub is_usable : Bool
  pub kind : Option Text
  pub features : Text

abbrev pub lower : ℕ → ℕ
lower c = if leb b'A' c && leb c b'Z' then c + 32 else c

abbrev pub is_id_char : ℕ → Bool
is_id_char c = is_digit c || (leb b'a' c && leb c b'f') || (leb b'A' c && leb c b'F') || c == b'-'

-- `[a-fA-F0-9-]+` with a digit that is not zero.
abbrev pub is_debug_id : Text → Bool
is_debug_id s = leb 1 (length s) && all is_id_char s && any (λ c. not (c == b'-' || c == b'0')) s

abbrev pub is_arch : Text → Bool
is_arch s =
    leb 1 (length s)
    && all (λ c. is_letter c || is_digit c || c == b'_' || c == b'+' || c == b'-') s

pub record Checked : Type 0 where
  pub debug_ids : List Text
  pub architectures : List Text
  pub format : Text
  pub features : Text

abbrev pub is_kind : Option Text → Text → Bool
is_kind none wanted = false
is_kind (some k) wanted = k ==ₜ wanted

abbrev pub format_of : Option Text → Result SymbolError Text
format_of none = err key_error
format_of (some k) = ok k

abbrev pub is_empty : List Text → Bool
is_empty [] = true
is_empty (s ∷ ss) = false

abbrev pub debug_ids_of : Info → List Text
debug_ids_of info =
    sorted_set (map (λ v. map lower v.debug_id) (keep (λ v. is_debug_id v.debug_id) info.variants))

-- `check_symbol` with an expected type; `cli` is the call of `sentry-cli` with its parsed output.
unfoldable pub check_symbol :
    Files → (Text → Result SymbolError Info) → Text → Text → Bool → Result SymbolError Checked
unfolding ◌==ₜ◌ sorted_set
check_symbol files cli path expected require_usable = do
  raise_if (not (files.is_file path)) missing_debug_artifact
  info ← cli path
  raise_if
      (is_empty (debug_ids_of info)
        || (require_usable && not (expected ==ₜ codes "pe") && not info.is_usable))
      unusable_debug_information
  raise_if (not (is_kind info.kind expected)) unexpected_symbol_format
  format ← format_of info.kind
  ok (record {
    debug_ids = debug_ids_of info;
    architectures = sorted_set (map (λ v. v.arch) (keep (λ v. is_arch v.arch) info.variants));
    format = format;
    features = info.features;
  })

-- `features.split(', ')`
unfoldable pub split_features : Text → Text → List Text
split_features part [] = part ∷ []
split_features part (c ∷ []) = (part ++ c ∷ []) ∷ []
split_features part (c ∷ d ∷ s) = elim (c == b',' && d == b' ') [
  | true ↦ part ∷ split_features [] s
  | false ↦ split_features (part ++ c ∷ []) (d ∷ s)
]

unfoldable pub has_feature : Text → Text → Bool
unfolding split_features is_one_of ◌==ₜ◌
has_feature feature features = is_one_of feature (split_features [] features)
