-- ===== src/Pipeline/Environment.antt =====
-- `package_environment`, `package_arguments` and `compose` of tool/release_pipeline.py: what the
-- build gets. A dictionary is an association list.
pub mod Kept
use xfl_clash.Prelude.{
  ℕ, Bool, true, false, not, ◌&&◌, ◌||◌, Option, none, some, List, [], ◌∷◌, ◌++◌, leb, ◌==◌,
  if◌then◌else◌, all, Text, codes, ◌==ₜ◌, is_digit, length, Result, ok, err, ◌>>=◌, ◌>>◌, raise_if,
}
use xfl_clash.Prelude.Decimal.{show}
use xfl_clash.Pipeline.{
  PipelineError, unknown_target, invalid_app_environment, defines_flavor_mismatch,
  invalid_core_hash, attribute_error, Context,
}
use xfl_clash.Pipeline.Inputs.{Value, text, number, texts, mixed, other, Accepted, is_letter}

unfoldable pub lookup : {A : Type 0} → Text → List (Text × A) → Option A
unfolding ◌==ₜ◌
lookup k [] = none
lookup k ((l, v) ∷ rest) = elim (l ==ₜ k) [ true ↦ some v | false ↦ lookup k rest ]

-- `d[k] = v`
unfoldable pub put : {A : Type 0} → Text → A → List (Text × A) → List (Text × A)
unfolding ◌==ₜ◌
put k v [] = (k, v) ∷ []
put k v ((l, w) ∷ rest) = elim (l ==ₜ k) [ true ↦ (k, v) ∷ rest | false ↦ (l, w) ∷ put k v rest ]

-- `d.update(…)`
unfoldable pub put_all : {A : Type 0} → List (Text × A) → List (Text × A) → List (Text × A)
unfolding put
put_all [] d = d
put_all ((k, v) ∷ more) d = put_all more (put k v d)

abbrev pub xcode_arch : Text → Result PipelineError Text
xcode_arch arch =
    if arch ==ₜ codes "amd64"
    then ok (codes "x86_64")
    else if arch ==ₜ codes "arm64"
    then ok (codes "arm64")
    else err unknown_target

abbrev pub excluded : Text → Text
excluded arch = if arch ==ₜ codes "x86_64" then codes "arm64" else codes "x86_64"

abbrev pub xcode_settings : Text → List (Text × Text)
xcode_settings arch =
    (codes "FLUTTER_XCODE_ARCHS", arch)
    ∷ (codes "FLUTTER_XCODE_EXCLUDED_ARCHS", excluded arch)
    ∷ (codes "FLUTTER_XCODE_ONLY_ACTIVE_ARCH", codes "NO")
    ∷ (codes "FLUTTER_MACOS_ARM64_ONLY", codes "false")
    ∷ []

unfoldable pub package_environment :
    Context → List (Text × Text) → Result PipelineError (List (Text × Text))
unfolding put_all ◌==ₜ◌
package_environment c environment =
    if c.platform ==ₜ codes "macos"
    then (xcode_arch c.arch >>= λ arch. ok (put_all (xcode_settings arch) environment))
    else ok environment

-- `','.join(items)`
abbrev pub join : List Text → Text
join [] = []
join (s ∷ []) = s
join (s ∷ t ∷ rest) = s ++ b',' ∷ join (t ∷ rest)

unfoldable pub package_arguments : Accepted → List Text
unfolding ◌==ₜ◌ show
package_arguments a =
    let c = a.context in
    let android = c.platform ==ₜ codes "android" in
    let options =
      codes "dart-define-from-file=env.json"
      ∷ (codes "build-name=" ++ c.base_version)
      ∷ (codes "build-number=" ++ show a.build_number)
      ∷ codes "split-debug-info=build/debug-info"
      ∷ (if android then codes "split-per-abi" ∷ [] else []) in
    codes "pub"
    ∷ codes "global"
    ∷ codes "run"
    ∷ codes "flutter_distributor:main"
    ∷ codes "package"
    ∷ codes "--skip-clean"
    ∷ codes "--platform"
    ∷ c.platform
    ∷ codes "--targets"
    ∷ join c.targets
    ∷ (codes "--flutter-build-args=" ++ join options)
    ∷ (if android
        then codes "--build-target-platform=android-arm,android-arm64"
          ∷ codes "--build-flavor"
          ∷ c.flavor
          ∷ []
        else codes "--description" ∷ c.arch ∷ [])

-- `[A-Za-z][A-Za-z0-9_-]{0,31}`
abbrev pub is_environment : Text → Bool
is_environment [] = false
is_environment (c ∷ s) =
    is_letter c
    && leb (length s) 31
    && all (λ d. is_letter d || is_digit d || d == b'_' || d == b'-') s

abbrev pub is_hash : Text → Bool
is_hash s =
    length s == 64
    && all (λ c. is_digit c || (leb b'a' c && leb c b'f') || (leb b'A' c && leb c b'F')) s

abbrev pub environment_of : Value → Result PipelineError Text
environment_of (text s) = if is_environment s then ok s else err invalid_app_environment
environment_of (number n) = err invalid_app_environment
environment_of (texts ts) = err invalid_app_environment
environment_of mixed = err invalid_app_environment
environment_of other = err invalid_app_environment

abbrev pub is_flavor : Option Value → Text → Bool
is_flavor (some (text s)) flavor = s ==ₜ flavor
is_flavor (some (number n)) flavor = false
is_flavor (some (texts ts)) flavor = false
is_flavor (some mixed) flavor = false
is_flavor (some other) flavor = false
is_flavor none flavor = false

-- The core's file: there is none, it is no dictionary, or it has a value under `CORE_SHA256`, none
-- where the key is missing.
pub data CoreFile : Type 0 where
  no_file not_dictionary : CoreFile
  entry : Option Value → CoreFile

abbrev pub hash_of : Value → Result PipelineError Text
hash_of (text s) = if length s == 0 || is_hash s then ok s else err invalid_core_hash
hash_of (number n) = err invalid_core_hash
hash_of (texts ts) = err invalid_core_hash
hash_of mixed = err invalid_core_hash
hash_of other = err invalid_core_hash

-- The hash of the core: empty where there is no file or no such key.
abbrev pub core_of : CoreFile → Result PipelineError Text
core_of no_file = ok []
core_of not_dictionary = err attribute_error
core_of (entry none) = ok []
core_of (entry (some v)) = hash_of v

abbrev pub defines_of :
    Option (List (Text × Value)) → Text → Result PipelineError (List (Text × Value))
defines_of none flavor = err defines_flavor_mismatch
defines_of (some d) flavor =
    if is_flavor (lookup (codes "XB_FLAVOR_ID") d) flavor then ok d else err defines_flavor_mismatch

abbrev pub settings : Accepted → Text → Text → List (Text × Value)
settings a app_env core =
    (codes "APP_ENV", text app_env)
    ∷ (codes "CORE_SHA256", text core)
    ∷ (codes "XB_FORM_A", text (codes "true"))
    ∷ (codes "XB_BUILD_TAG", text a.build_tag)
    ∷ (codes "XB_PRODUCT_VERSION", text a.context.product_version)
    ∷ (codes "XB_BUILD_NUMBER", text (show a.build_number))
    ∷ []

-- The file that is written; `defines` is none where it is no dictionary.
unfoldable pub compose :
    Accepted
    → Option (List (Text × Value))
    → CoreFile
    → Value
    → Result PipelineError (List (Text × Value))
unfolding lookup put_all show ◌==ₜ◌
compose a defines core app_env = do
  environment ← environment_of app_env
  found ← defines_of defines a.context.flavor
  hash ← core_of core
  ok (put_all (settings a environment hash) found)
