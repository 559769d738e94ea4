-- ===== src/Request.antt =====
-- tool/release_request.py: the request that starts a release run, and the pinned configuration.
-- The event, the configuration and the environment are parsed values; Git's answer is an argument.
pub mod Handover
use xfl_clash.Prelude.{
  ℕ, ◌+◌, ◌-◌, Bool, true, false, not, ◌&&◌, ◌||◌, Option, none, some, List, [], ◌∷◌, ◌++◌, ltb,
  leb, ◌==◌, if◌then◌else◌, Text, codes, ◌==ₜ◌, all, any, length, drop, map, starts_with, contains,
  is_one_of, is_digit, to_number, strip, is_space, Result, ok, err, ◌>>=◌, ◌>>◌, raise_if,
}
use xfl_clash.BuildNumber.{max_build_number, is_number_text}

-- The messages of `RequestError`.
pub data RequestError : Type 0 where
  bad_sha ref_required bad_ref bad_number wrong_repository bad_event : RequestError
  unsupported_event bad_fields bad_brand_or_target bad_upload : RequestError
  checkout_unavailable checkout_differs bad_config sdk_required bad_policy : RequestError

-- A value of a JSON object; numbers, lists and nested objects are `other`.
pub data Json : Type 0 where
  null : Json
  flag : Bool → Json
  text : Text → Json
  other : Json

abbrev pub Fields : Type 0
Fields = List (Text × Json)

abbrev pub repository : Text
repository = codes "wvjh3z/XFlClash"

abbrev pub targets : List Text
targets =
    codes "android"
    ∷ codes "windows-amd64"
    ∷ codes "linux-amd64"
    ∷ codes "linux-arm64"
    ∷ codes "macos-amd64"
    ∷ codes "macos-arm64"
    ∷ codes "desktop"
    ∷ codes "desktop-except-linux-amd64"
    ∷ codes "all"
    ∷ []

abbrev pub flavors : List Text
flavors = codes "brand_a" ∷ codes "brand_b" ∷ []

abbrev pub public_defaults : Fields
public_defaults =
    (codes "flavor", text (codes "brand_a"))
    ∷ (codes "target", text (codes "android"))
    ∷ (codes "build_number", text [])
    ∷ (codes "upload", flag false)
    ∷ []

-- `fields.get(key)`; an object's keys are different.
unfoldable pub get : Fields → Text → Option Json
unfolding ◌==ₜ◌
get [] key = none
get ((k, v) ∷ rest) key = if k ==ₜ key then some v else get rest key

-- `re.fullmatch(r"[a-f0-9]{40}", value)`
abbrev pub is_sha_text : Text → Bool
is_sha_text s = all (λ c. is_digit c || (leb b'a' c && leb c b'f')) s && length s == 40

-- The environment's values are texts.
unfoldable pub source_sha : Text → Result RequestError Text
source_sha value = if is_sha_text value then ok value else err bad_sha

-- The text behind the first slash.
abbrev pub behind_slash : Text → Text
behind_slash [] = []
behind_slash (c ∷ s) = if c == b'/' then s else behind_slash s

abbrev pub ends_with : Text → Text → Bool
ends_with s p = leb (length p) (length s) && drop (length s - length p) s ==ₜ p

-- `name.split('/')`
abbrev pub slash_parts : Text → Text → List Text
slash_parts w [] = w ∷ []
slash_parts w (c ∷ s) = elim (c == b'/') [
  | true ↦ w ∷ slash_parts [] s
  | false ↦ slash_parts (w ++ c ∷ []) s
]

abbrev pub is_ref_char : ℕ → Bool
is_ref_char c = not (ltb c 33) && (not (c == 127) && not (any (λ d. c == d) (codes "~^:?*[\\")))

unfoldable pub is_ref_name : Text → Bool
unfolding ◌==ₜ◌ starts_with contains
is_ref_name name =
    all is_ref_char name
    && not (
        name ==ₜ []
        || starts_with name (codes "/")
        || ends_with name (codes "/")
        || ends_with name (codes ".")
        || contains name (codes "//")
        || contains name (codes "..")
        || contains name (codes "@{")
        || any (λ part. starts_with part (codes ".") || ends_with part (codes ".lock"))
            (slash_parts [] name))

unfoldable pub source_ref : Text → Result RequestError Text
source_ref value = do
  raise_if
      (ltb 1024 (length value)
        || not (starts_with value (codes "refs/heads/") || starts_with value (codes "refs/tags/")))
      ref_required
  raise_if (not (is_ref_name (behind_slash (behind_slash value)))) bad_ref
  ok value

unfoldable pub requested_number : Json → Result RequestError Text
requested_number null = ok []
requested_number (text []) = ok []
requested_number (text (c ∷ s)) =
    if not (is_number_text 4 (c ∷ s)) || ltb max_build_number (to_number 0 (c ∷ s))
    then err bad_number
    else ok (c ∷ s)
requested_number (flag b) = err bad_number
requested_number other = err bad_number

-- `{**PUBLIC_DEFAULTS, **supplied}[key]`
abbrev pub value_of : Fields → Text → Json
value_of supplied key = elim (get (supplied ++ public_defaults) key) [ none ↦ null | some v ↦ v ]

abbrev pub choice : List Text → Json → Result RequestError Text
choice options (text s) = if is_one_of s options then ok s else err bad_brand_or_target
choice options null = err bad_brand_or_target
choice options (flag b) = err bad_brand_or_target
choice options other = err bad_brand_or_target

unfoldable pub upload_of : Json → Result RequestError Bool
upload_of (flag b) = ok b
upload_of (text s) =
    if s ==ₜ codes "true" then ok true else if s ==ₜ codes "false" then ok false else err bad_upload
upload_of null = err bad_upload
upload_of other = err bad_upload

pub record Request : Type 0 where
  pub flavor : Text
  pub target : Text
  pub requested_number : Text
  pub upload : Text
  pub source_sha : Text
  pub source_ref : Text

-- What `event.get("inputs", {})` is: absent, not an object, or an object.
pub data Inputs : Type 0 where
  absent not_object : Inputs
  object : Fields → Inputs

abbrev pub supplied_of : Inputs → Result RequestError Fields
supplied_of absent = ok []
supplied_of not_object = err bad_fields
supplied_of (object fields) =
    if all (λ f. is_one_of f.0 (map (λ d. d.0) public_defaults)) fields
    then ok fields
    else err bad_fields

abbrev pub get_or : (Text → Option Text) → Text → Text
get_or env key = elim (env key) [ none ↦ [] | some v ↦ v ]

abbrev pub env_is : (Text → Option Text) → Text → Text → Bool
env_is env key wanted = elim (env key) [ none ↦ false | some v ↦ v ==ₜ wanted ]

abbrev pub inputs_of : Option Inputs → Result RequestError Inputs
inputs_of none = err bad_event
inputs_of (some inputs) = ok inputs

abbrev pub flag_text : Bool → Text
flag_text true = codes "true"
flag_text false = codes "false"

-- `normalize`; the event is `none` where it is not an object.
unfoldable pub normalize : Option Inputs → (Text → Option Text) → Result RequestError Request
unfolding get source_sha source_ref requested_number upload_of is_one_of ◌==ₜ◌ is_ref_name
    starts_with
normalize event env = do
  raise_if (not (env_is env (codes "GITHUB_REPOSITORY") repository)) wrong_repository
  inputs ← inputs_of event
  raise_if (not (env_is env (codes "GITHUB_EVENT_NAME") (codes "workflow_dispatch")))
      unsupported_event
  supplied ← supplied_of inputs
  flavor ← choice flavors (value_of supplied (codes "flavor"))
  target ← choice targets (value_of supplied (codes "target"))
  number ← requested_number (value_of supplied (codes "build_number"))
  upload ← upload_of (value_of supplied (codes "upload"))
  sha ← source_sha (get_or env (codes "GITHUB_SHA"))
  ref ← source_ref (get_or env (codes "GITHUB_REF"))
  ok (record {
    flavor = flavor;
    target = target;
    requested_number = number;
    upload = flag_text upload;
    source_sha = sha;
    source_ref = ref;
  })

-- `check_source_checkout`; `head` is what `git rev-parse HEAD` prints, `none` where it fails.
unfoldable pub check_source_checkout : Option Text → Text → Result RequestError (Unit {0})
check_source_checkout head expected = do
  sha ← source_sha expected
  elim head [
    | none ↦ err checkout_unavailable
    | some out ↦ raise_if (not (strip is_space out ==ₜ sha)) checkout_differs
  ]

pub record Config : Type 0 where
  pub sdk_ref : Text
  pub verify_symbolication : Text

abbrev pub sdk_of : Option Json → Result RequestError Text
sdk_of (some (text sdk)) =
    if is_sha_text sdk
    then ok sdk
    else if starts_with sdk (codes "refs/tags/")
    then source_ref sdk
    else err sdk_required
sdk_of (some null) = err sdk_required
sdk_of (some (flag b)) = err sdk_required
sdk_of (some other) = err sdk_required
sdk_of none = err bad_config

abbrev pub policy_of : Option Json → Result RequestError Text
policy_of (some (flag b)) = ok (flag_text b)
policy_of (some (text s)) = err bad_policy
policy_of (some null) = err bad_policy
policy_of (some other) = err bad_policy
policy_of none = err bad_config

-- `set(values) != {"sdk_ref", "verify_symbolication"}`
abbrev pub has_config_keys : Fields → Bool
has_config_keys fields =
    all (λ f. is_one_of f.0 (codes "sdk_ref" ∷ codes "verify_symbolication" ∷ [])) fields
    && (any (λ f. f.0 ==ₜ codes "sdk_ref") fields
        && any (λ f. f.0 ==ₜ codes "verify_symbolication") fields)

abbrev pub config_fields : Option Fields → Result RequestError Fields
config_fields none = err bad_config
config_fields (some fields) = if has_config_keys fields then ok fields else err bad_config

-- `config`; `values` is the parsed file, `none` where it is not an object.
unfoldable pub config :
    Option Text → (Text → Option Text) → Option Fields → Result RequestError Config
config head env values = do
  check_source_checkout head (get_or env (codes "BUILD_SOURCE_SHA"))
  fields ← config_fields values
  sdk ← sdk_of (get fields (codes "sdk_ref"))
  policy ← policy_of (get fields (codes "verify_symbolication"))
  ok (record { sdk_ref = sdk; verify_symbolication = policy })
