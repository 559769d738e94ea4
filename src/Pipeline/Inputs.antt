-- ===== src/Pipeline/Inputs.antt =====
-- `read_context` of tool/release_pipeline.py, on parsed values.
pub mod Artifacts
use xfl_clash.Prelude.{
  ℕ, zero, suc, ◌+◌, Bool, true, false, not, ◌&&◌, ◌||◌, Option, none, some, List, [], ◌∷◌, ◌++◌,
  leb, ◌==◌, if◌then◌else◌, all, any, Text, codes, ◌==ₜ◌, same_texts, all_digits, is_digit,
  is_one_of, length, Result, ok, err, ◌>>=◌, ◌>>◌, raise_if,
}
use xfl_clash.Prelude.Decimal.{show}
use xfl_clash.Pipeline.{
  PipelineError, invalid_context, invalid_context_field, invalid_build_number, invalid_target_types,
  invalid_target_set, Context,
}

-- A parsed value: a text, a natural number, a list of texts, a list that has another element, or
-- another one.
pub data Value : Type 0 where
  text : Text → Value
  number : ℕ → Value
  texts : List Text → Value
  mixed other : Value

-- A parsed context; `has_keys` says that it is a dictionary with just the keys that are required.
pub record Raw : Type 0 where
  pub has_keys : Bool
  pub schema_version : Value
  pub flavor : Value
  pub platform : Value
  pub arch : Value
  pub product_version : Value
  pub base_version : Value
  pub build_number : Value
  pub source_revision : Value
  pub build_tag : Value
  pub package_prefix : Value
  pub package_app_name : Value
  pub targets : Value

-- What is read: the context of the other steps, and the three values that it has not.
pub record Accepted : Type 0 where
  pub context : Context
  pub build_number : ℕ
  pub source_revision : Text
  pub build_tag : Text

-- The parts between the separators.
abbrev pub split_at : ℕ → Text → Text → List Text
split_at c part [] = part ∷ []
split_at c part (d ∷ s) = elim (d == c) [
  | true ↦ part ∷ split_at c [] s
  | false ↦ split_at c (part ++ d ∷ []) s
]

-- What stands before the first separator, and behind it.
abbrev pub cut_at : ℕ → Text → Text → Text × Option Text
cut_at c part [] = (part, none)
cut_at c part (d ∷ s) = elim (d == c) [
  | true ↦ (part, some s)
  | false ↦ cut_at c (part ++ d ∷ []) s
]

abbrev pub is_letter : ℕ → Bool
is_letter c = (leb b'a' c && leb c b'z') || (leb b'A' c && leb c b'Z')

-- `(0|[1-9][0-9]*)`, and `[A-Za-z0-9-]+`.
abbrev pub is_number : Text → Bool
is_number [] = false
is_number (c ∷ []) = is_digit c
is_number (c ∷ d ∷ s) = not (c == b'0') && all is_digit (c ∷ d ∷ s)

abbrev pub is_identifier : Text → Bool
is_identifier s = not (length s == 0) && all (λ c. is_letter c || is_digit c || c == b'-') s

abbrev pub is_suffix : Option Text → Bool
is_suffix none = true
is_suffix (some s) = all is_identifier (split_at b'.' [] s)

abbrev pub is_core : (Text → Bool) → Text → Bool
is_core p s = length (split_at b'.' [] s) == 3 && all p (split_at b'.' [] s)

abbrev pub is_product_version : Text → Bool
is_product_version s =
    let (left, build) = cut_at b'+' [] s in
    let (core, pre) = cut_at b'-' [] left in
    is_core is_number core && is_suffix pre && is_suffix build

abbrev pub is_base_version : Text → Bool
is_base_version s = is_core all_digits s

abbrev pub is_revision : Text → Bool
is_revision s = length s == 40 && all (λ c. is_digit c || (leb b'a' c && leb c b'f')) s

abbrev pub is_tag : Text → Bool
is_tag s = length s == 12 && all is_digit s

abbrev pub is_name : Text → Bool
is_name [] = false
is_name (c ∷ s) =
    (is_letter c || is_digit c)
    && all (λ d. is_letter d || is_digit d || d == b'.' || d == b'_' || d == b'-') s

abbrev pub field : (Text → Bool) → Value → Result PipelineError Text
field p (text s) = if p s then ok s else err invalid_context_field
field p (number n) = err invalid_context_field
field p (texts ts) = err invalid_context_field
field p mixed = err invalid_context_field
field p other = err invalid_context_field

abbrev pub flavor_of : Value → Result PipelineError Text
flavor_of (text s) =
    if is_one_of s (codes "brand_a" ∷ codes "brand_b" ∷ []) then ok s else err invalid_context
flavor_of (number n) = err invalid_context
flavor_of (texts ts) = err invalid_context
flavor_of mixed = err invalid_context
flavor_of other = err invalid_context

abbrev pub is_one : Value → Bool
is_one (number n) = n == 1
is_one (text s) = false
is_one (texts ts) = false
is_one mixed = false
is_one other = false

abbrev pub build_number_of : Value → Result PipelineError ℕ
build_number_of (number n) = if leb 1 n && leb n 65535 then ok n else err invalid_build_number
build_number_of (text s) = err invalid_build_number
build_number_of (texts ts) = err invalid_build_number
build_number_of mixed = err invalid_build_number
build_number_of other = err invalid_build_number

abbrev pub text_of : Value → Result PipelineError Text
text_of (text s) = ok s
text_of (number n) = err invalid_target_types
text_of (texts ts) = err invalid_target_types
text_of mixed = err invalid_target_types
text_of other = err invalid_target_types

abbrev pub texts_of : Value → Result PipelineError (List Text)
texts_of (texts ts) = ok ts
texts_of (text s) = err invalid_target_types
texts_of (number n) = err invalid_target_types
texts_of mixed = err invalid_target_set
texts_of other = err invalid_target_types

-- `allowed`: the target sets of a platform and an architecture.
abbrev pub allowed : List (Text × Text × List Text)
allowed =
    (codes "android", [], codes "apk" ∷ [])
    ∷ (codes "windows", codes "amd64", codes "exe" ∷ [])
    ∷ (codes "windows", codes "amd64", codes "exe" ∷ codes "zip" ∷ [])
    ∷ (codes "macos", codes "amd64", codes "dmg" ∷ [])
    ∷ (codes "macos", codes "arm64", codes "dmg" ∷ [])
    ∷ (codes "linux", codes "amd64", codes "deb" ∷ codes "appimage" ∷ [])
    ∷ (codes "linux", codes "amd64", codes "deb" ∷ codes "appimage" ∷ codes "rpm" ∷ [])
    ∷ (codes "linux", codes "arm64", codes "deb" ∷ codes "appimage" ∷ [])
    ∷ []

abbrev pub is_set : Text → Text → List Text → Text × Text × List Text → Bool
is_set platform arch targets row = row.0 ==ₜ platform && row.1 ==ₜ arch && same_texts row.2 targets

unfoldable pub read_context : Raw → Result PipelineError Accepted
unfolding is_one_of all_digits same_texts ◌==ₜ◌
read_context c = do
  raise_if (not c.has_keys || not (is_one c.schema_version)) invalid_context
  flavor ← flavor_of c.flavor
  product_version ← field is_product_version c.product_version
  base_version ← field is_base_version c.base_version
  source_revision ← field is_revision c.source_revision
  build_tag ← field is_tag c.build_tag
  package_prefix ← field is_name c.package_prefix
  package_app_name ← field is_name c.package_app_name
  build_number ← build_number_of c.build_number
  platform ← text_of c.platform
  arch ← text_of c.arch
  targets ← texts_of c.targets
  raise_if (not (any (is_set platform arch targets) allowed)) invalid_target_set
  ok (record {
    context = record {
      flavor = flavor;
      platform = platform;
      arch = arch;
      product_version = product_version;
      base_version = base_version;
      package_prefix = package_prefix;
      package_app_name = package_app_name;
      targets = targets;
    };
    build_number = build_number;
    source_revision = source_revision;
    build_tag = build_tag;
  })
