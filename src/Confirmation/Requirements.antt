-- ===== src/Confirmation/Requirements.antt =====
-- `cpu`, `requirements` and `matches` of tool/sentry_upload_confirmation.py.
pub mod Sound
use xfl_clash.Prelude.{
  ℕ, zero, suc, ◌+◌, ◌-◌, Bool, true, false, not, ◌&&◌, ◌||◌, Option, none, some, List, [], ◌∷◌,
  ◌++◌, map, ltb, leb, ◌==◌, if◌then◌else◌, Text, codes, ◌==ₜ◌, same_texts, is_one_of, is_digit,
  strip, is_space, any, all, keep, length, take, drop, Result, ok, err, ◌>>=◌, ◌>>◌, raise_if,
  for_each,
}

-- The values of the local inventory and of the server's rows: `other` is a number or a Boolean,
-- with its truth and its `str`. Dictionaries inside an item or a row are not modelled.
pub data Scalar : Type 0 where
  nothing : Scalar
  text : Text → Scalar
  other : Bool → Text → Scalar

pub data Value : Type 0 where
  scalar : Scalar → Value
  items : List Scalar → Value

-- The categories of `UploadError` that the confirmation raises, and the others by name.
pub data Category : Type 0 where
  invalid_local_inventory invalid_local_features invalid_local_debug_id : Category
  invalid_local_architecture empty_local_inventory : Category
  transport_error server_error rate_limited confirmation_deadline : Category
  symbols_unconfirmed_before_deadline : Category
  -- Not an `UploadError`: a list as the format is a `TypeError`.
  unhashable_format : Category
  refused : Text → Category

-- One item of the inventory; `none` where the key is missing.
pub record Item : Type 0 where
  pub format : Option Value
  pub features : Option Value
  pub architectures : Option Value
  pub architecture : Option Value
  pub debug_ids : Option Value

-- The features are given by what they hold of `debug`, `symtab` and `unwind`, in this order.
pub record Requirement : Type 0 where
  pub ident : Text
  pub format : Text
  pub architecture : Text
  pub features : List Text

abbrev pub to_lower : ℕ → ℕ
to_lower c = if leb b'A' c && leb c b'Z' then c + 32 else if c == 0x212a then b'k' else c

-- `str.lower` for a comparison with an ASCII text: but for the Kelvin sign no text outside ASCII has
-- an ASCII text as its lower case, and its characters stay as they are here.
abbrev pub lower : Text → Text
lower s = map to_lower s

abbrev pub aliases : List (Text × Text)
aliases =
    (codes "x64", codes "x86_64")
    ∷ (codes "amd64", codes "x86_64")
    ∷ (codes "aarch64", codes "arm64")
    ∷ (codes "arm64-v8a", codes "arm64")
    ∷ (codes "armeabi-v7a", codes "arm")
    ∷ (codes "armv7", codes "arm")
    ∷ (codes "armv7l", codes "arm")
    ∷ (codes "i386", codes "x86")
    ∷ []

abbrev pub alias_or : List (Text × Text) → Text → Text
alias_or [] s = s
alias_or ((k, v) ∷ rest) s = if k ==ₜ s then v else alias_or rest s

unfoldable pub cpu : Text → Text
cpu value = alias_or aliases (lower value)

abbrev pub is_hex : ℕ → Bool
is_hex c = is_digit c || (leb b'a' c && leb c b'f') || (leb b'A' c && leb c b'F')

-- Exactly `n` hexadecimal digits, then a text that passes the rest of the pattern.
abbrev pub hex_then : ℕ → (Text → Bool) → Text → Bool
hex_then zero rest s = rest s
hex_then (suc n) rest [] = false
hex_then (suc n) rest (c ∷ s) = is_hex c && hex_then n rest s

abbrev pub dash_then : (Text → Bool) → Text → Bool
dash_then rest [] = false
dash_then rest (c ∷ s) = c == b'-' && rest s

abbrev pub age_suffix : Text → Bool
age_suffix [] = true
age_suffix (c ∷ []) = false
age_suffix (c ∷ d ∷ s) = c == b'-' && all is_hex (d ∷ s)

unfoldable pub is_debug_id : Text → Bool
is_debug_id = hex_then 8 (
    dash_then (
      hex_then 4
        (dash_then (hex_then 4 (dash_then (hex_then 4 (dash_then (hex_then 12 age_suffix))))))))

abbrev is_arch_char : ℕ → Bool
is_arch_char c =
    is_digit c
    || (leb b'a' c && leb c b'z')
    || (leb b'A' c && leb c b'Z')
    || c == b'_'
    || c == b'+'
    || c == b'-'

unfoldable pub is_arch_text : Text → Bool
is_arch_text s = (ltb 0 (length s) && leb (length s) 32) && all is_arch_char s

abbrev pub formats : List Text
formats = codes "elf" ∷ codes "pdb" ∷ codes "dsym" ∷ codes "breakpad" ∷ codes "portablepdb" ∷ []

-- FEATURES without `sources`, which `--no-sources` keeps from being uploaded.
abbrev pub required_features : List Text
required_features = codes "debug" ∷ codes "symtab" ∷ codes "unwind" ∷ []

abbrev pub known_features : List Text
known_features = codes "sources" ∷ required_features

-- `text.split(',')`
abbrev pub commas : Text → Text → List Text
commas w [] = w ∷ []
commas w (c ∷ s) = elim (c == b',') [ true ↦ w ∷ commas [] s | false ↦ commas (w ++ c ∷ []) s ]

abbrev pub is_filled : Text → Bool
is_filled [] = false
is_filled (c ∷ s) = true

-- `frozenset(x.strip() for x in text.split(',') if x.strip())`
unfoldable pub feature_texts : Text → List Text
feature_texts s = keep is_filled (map (strip is_space) (commas [] s))

abbrev pub is_truthy : Value → Bool
is_truthy (scalar nothing) = false
is_truthy (scalar (text [])) = false
is_truthy (scalar (text (c ∷ s))) = true
is_truthy (scalar (other b s)) = b
is_truthy (items []) = false
is_truthy (items (x ∷ xs)) = true

abbrev scalar_of : Option Value → Option Scalar
scalar_of none = some nothing
scalar_of (some (scalar s)) = some s
scalar_of (some (items xs)) = none

-- A list where one is needed.
abbrev pub as_list : Option Value → Result Category (List Scalar)
as_list (some (items xs)) = ok xs
as_list (some (scalar s)) = err invalid_local_inventory
as_list none = err invalid_local_inventory

abbrev or_single : Option Value → Result Category (List Scalar)
or_single v = elim (scalar_of v) [ none ↦ ok (other true [] ∷ []) | some s ↦ ok (s ∷ []) ]

-- `item.get('architectures') or [item.get('architecture')]`
abbrev pub arches_of : Item → Result Category (List Scalar)
arches_of item = elim item.architectures [
  | none ↦ or_single item.architecture
  | some v ↦ if is_truthy v then as_list (some v) else or_single item.architecture
]

abbrev pub feature_text : Option Value → Result Category Text
feature_text none = ok []
feature_text (some (scalar (text s))) = ok s
feature_text (some (scalar nothing)) = err invalid_local_inventory
feature_text (some (scalar (other b s))) = err invalid_local_inventory
feature_text (some (items xs)) = err invalid_local_inventory

abbrev pub format_of : Option Value → Result Category Text
format_of (some (scalar (text s))) =
    if is_one_of s formats then ok s else err invalid_local_inventory
format_of (some (scalar nothing)) = err invalid_local_inventory
format_of (some (scalar (other b s))) = err invalid_local_inventory
format_of (some (items xs)) = err unhashable_format
format_of none = err invalid_local_inventory

abbrev pub text_or : Category → (Text → Bool) → Scalar → Result Category Text
text_or e p (text s) = if p s then ok s else err e
text_or e p nothing = err e
text_or e p (other b s) = err e

abbrev pub server_format : Text → Text
server_format s = if s ==ₜ codes "dsym" then codes "macho" else s

abbrev pub same_requirement : Requirement → Requirement → Bool
same_requirement p q =
    p.ident ==ₜ q.ident
    && (p.format ==ₜ q.format
        && (p.architecture ==ₜ q.architecture && same_texts p.features q.features))

abbrev pub add_requirement : Requirement → List Requirement → List Requirement
add_requirement r rs = if any (same_requirement r) rs then rs else rs ++ (r ∷ [])

-- `for arch in arches`, for one identifier.
pub add_arch :
    Text → Text → List Text → List Requirement → Scalar → Result Category (List Requirement)
add_arch ident format features expected arch = do
  name ← text_or invalid_local_architecture is_arch_text arch
  ok (
      add_requirement
        (record {
          ident = lower ident;
          format = server_format format;
          architecture = cpu name;
          features = features;
        })
        expected)

-- `for ident in ids`
pub add_ident :
    List Scalar → Text → List Text → List Requirement → Scalar → Result Category (List Requirement)
add_ident arches format features expected ident = do
  name ← text_or invalid_local_debug_id is_debug_id ident
  for_each (add_arch name format features) expected arches

abbrev pub is_nil {ℓ} : {A : Type ℓ} → List A → Bool
is_nil [] = true
is_nil (x ∷ xs) = false

pub add_item : List Requirement → Item → Result Category (List Requirement)
add_item expected item = do
  listed ← feature_text item.features
  arches ← arches_of item
  ids ← as_list item.debug_ids
  raise_if (is_nil ids) invalid_local_inventory
  format ← format_of item.format
  raise_if
      (is_nil arches
        || is_nil (feature_texts listed)
        || not (all (λ x. is_one_of x known_features) (feature_texts listed)))
      invalid_local_inventory
  let features = keep (λ f. is_one_of f (feature_texts listed)) required_features
  raise_if (is_nil features) invalid_local_features
  for_each (add_ident arches format features) expected ids

unfoldable pub requirements : List Item → Result Category (List Requirement)
unfolding add_item add_ident add_arch for_each cpu is_debug_id is_arch_text feature_texts
requirements inventory = do
  expected ← for_each add_item [] inventory
  raise_if (is_nil expected) empty_local_inventory
  ok expected

-- A row of the server's answer; `features` is the list under `data`.
pub record Row : Type 0 where
  pub debug_id : Option Value
  pub symbol_type : Option Value
  pub cpu_name : Option Value
  pub features : Option Value

abbrev pub text_of : Option Value → Option Text
text_of (some (scalar (text s))) = some s
text_of (some (scalar nothing)) = none
text_of (some (scalar (other b s))) = none
text_of (some (items xs)) = none
text_of none = none

abbrev pub texts_in : List Scalar → List Text
texts_in [] = []
texts_in (text s ∷ xs) = s ∷ texts_in xs
texts_in (nothing ∷ xs) = texts_in xs
texts_in (other b s ∷ xs) = texts_in xs

abbrev pub has_features : Option Value → List Text → Bool
has_features (some (items xs)) wanted = all (λ f. is_one_of f (texts_in xs)) wanted
has_features (some (scalar s)) wanted = false
has_features none wanted = false

abbrev pub is_text : (Text → Text) → Option Value → Text → Bool
is_text f v wanted = elim (text_of v) [ none ↦ false | some s ↦ f s ==ₜ wanted ]

-- `cpu(row.get('cpuName'))`; the `str` of a list starts with a bracket.
abbrev pub cpu_of : Option Value → Text
cpu_of none = cpu (codes "None")
cpu_of (some (scalar nothing)) = cpu (codes "None")
cpu_of (some (scalar (text s))) = cpu s
cpu_of (some (scalar (other b s))) = cpu s
cpu_of (some (items xs)) = codes "["

unfoldable pub matches : Row → Requirement → Bool
unfolding cpu
matches row r =
    is_text lower row.debug_id r.ident
    && (is_text (λ s. s) row.symbol_type r.format
        && (cpu_of row.cpu_name ==ₜ r.architecture && has_features row.features r.features))
