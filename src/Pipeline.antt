-- ===== src/Pipeline.antt =====
-- tool/release_pipeline.py: the names of the final artifacts, and `normalize`, which gives the
-- packages of the distribution directory these names and records them. The file system's verdict
-- on a rename and the digest of hashlib are parameters.
pub mod Renames
pub mod Verified
pub mod Inputs
pub mod Environment
use xfl_clash.Prelude.{
  ℕ, ◌+◌, ◌-◌, Bool, true, false, not, ◌&&◌, ◌||◌, Option, none, some, List, [], ◌∷◌, ◌++◌, map,
  leb, ◌==◌, if◌then◌else◌, Text, codes, ◌==ₜ◌, all, any, keep, length, take, drop, is_one_of,
  Result, ok, err, ◌>>=◌, ◌>>◌, raise_if,
}
use xfl_clash.Binary.{Bytes}

pub data PipelineError : Type 0 where
  unknown_target missing_dist missing_or_duplicate empty_or_symlink : PipelineError
  destination_exists unexpected_artifact rename_failed : PipelineError
  invalid_context invalid_context_field invalid_build_number invalid_target_types : PipelineError
  invalid_target_set invalid_app_environment defines_flavor_mismatch invalid_core_hash :
      PipelineError
  manifest_identity_mismatch manifest_inventory_mismatch unsafe_dist : PipelineError
  unexpected_final_artifact invalid_manifest_record final_artifact_changed : PipelineError
  -- Not a `PipelineError`: the core's file is no dictionary.
  attribute_error : PipelineError

pub record Context : Type 0 where
  pub flavor : Text
  pub platform : Text
  pub arch : Text
  pub product_version : Text
  pub base_version : Text
  pub package_prefix : Text
  pub package_app_name : Text
  pub targets : List Text

-- A symbolic link carries whether it leads to something, and whether that is a regular file.
pub data Kind : Type 0 where
  regular directory : Kind
  symlink : Bool → Kind

pub record File : Type 0 where
  pub name : Text
  pub kind : Kind
  pub content : Bytes

abbrev pub suffixes : List (Text × Text)
suffixes =
    (codes "exe", codes "-setup.exe")
    ∷ (codes "zip", codes ".zip")
    ∷ (codes "dmg", codes ".dmg")
    ∷ (codes "deb", codes ".deb")
    ∷ (codes "appimage", codes ".AppImage")
    ∷ (codes "rpm", codes ".rpm")
    ∷ []

-- `suffix[t]`; a missing key is a `KeyError`.
abbrev pub suffix_of : List (Text × Text) → Text → Result PipelineError Text
suffix_of [] t = err unknown_target
suffix_of ((k, v) ∷ rest) t = if k ==ₜ t then ok v else suffix_of rest t

abbrev pub target_names : Text → Text → List Text → Result PipelineError (List (Text × Text))
target_names stem arch [] = ok []
target_names stem arch (t ∷ ts) = do
  suffix ← suffix_of suffixes t
  rest ← target_names stem arch ts
  ok ((if t ==ₜ codes "exe" then codes "setup.exe" else suffix, stem ++ arch ++ suffix) ∷ rest)

unfoldable pub expected_artifacts : Context → Result PipelineError (List (Text × Text))
unfolding ◌==ₜ◌
expected_artifacts c =
    let stem =
      c.package_prefix ++ codes "-" ++ c.product_version ++ codes "-" ++ c.platform ++ codes "-" in
    if c.platform ==ₜ codes "android"
    then ok (
        (codes "armeabi-v7a.apk", stem ++ codes "armeabi-v7a.apk")
        ∷ (codes "arm64-v8a.apk", stem ++ codes "arm64-v8a.apk")
        ∷ [])
    else target_names stem c.arch c.targets

abbrev pub ends_with : Text → Text → Bool
ends_with s p = leb (length p) (length s) && drop (length s - length p) s ==ₜ p

abbrev pub package_suffixes : List Text
package_suffixes =
    codes ".apk"
    ∷ codes ".exe"
    ∷ codes ".zip"
    ∷ codes ".dmg"
    ∷ codes ".deb"
    ∷ codes ".AppImage"
    ∷ codes ".rpm"
    ∷ []

abbrev pub is_directory : Kind → Bool
is_directory directory = true
is_directory regular = false
is_directory (symlink b) = false

abbrev pub is_package : File → Bool
is_package f = not (is_directory f.kind) && any (ends_with f.name) package_suffixes

-- `suffix.removesuffix('.apk')`
abbrev pub abi_of : Text → Text
abi_of suffix = if ends_with suffix (codes ".apk") then take (length suffix - 4) suffix else suffix

abbrev pub original_name : Context → Text → Text
original_name c suffix =
    c.package_app_name
    ++ codes "-"
    ++ c.base_version
    ++ codes "-android-"
    ++ abi_of suffix
    ++ codes "-"
    ++ c.flavor
    ++ codes ".apk"

abbrev pub is_match : Context → Text → Text → File → Bool
is_match c suffix target f =
    if c.platform ==ₜ codes "android"
    then is_one_of f.name (original_name c suffix ∷ target ∷ [])
    else ends_with f.name suffix

abbrev pub only_one : List File → Result PipelineError File
only_one [] = err missing_or_duplicate
only_one (f ∷ []) = ok f
only_one (f ∷ g ∷ rest) = err missing_or_duplicate

abbrev pub is_regular : Kind → Bool
is_regular regular = true
is_regular directory = false
is_regular (symlink b) = false

abbrev pub is_filled_file : File → Bool
is_filled_file f = is_regular f.kind && not (length f.content == 0)

-- `destination.exists()` follows links.
abbrev pub leads_somewhere : Kind → Bool
leads_somewhere regular = true
leads_somewhere directory = true
leads_somewhere (symlink b) = b

abbrev pub exists_at : Text → List File → Bool
exists_at name dir = any (λ f. f.name ==ₜ name && leads_somewhere f.kind) dir

-- The body of the loop over the expected artifacts.
pub plan_one : Context → List File → Text → Text → Result PipelineError (Text × Text)
plan_one c dir suffix target = do
  source ← only_one (keep (is_match c suffix target) (keep is_package dir))
  raise_if (not (is_filled_file source)) empty_or_symlink
  raise_if (not (source.name ==ₜ target) && exists_at target dir) destination_exists
  ok (source.name, target)

pub plan_all : Context → List File → List (Text × Text) → Result PipelineError (List (Text × Text))
plan_all c dir [] = ok []
plan_all c dir ((suffix, target) ∷ rest) = do
  plan ← plan_one c dir suffix target
  plans ← plan_all c dir rest
  ok (plan ∷ plans)

-- `os.rename`: the file gets the name, and a file that had it is gone.
abbrev pub renamed : Text → Text → File → File
renamed source target f = if f.name ==ₜ source then record f { name = target } else f

unfoldable pub rename : Text → Text → List File → List File
rename source target [] = []
rename source target (f ∷ fs) =
    let rest = rename source target fs in
    if f.name ==ₜ target then rest else renamed source target f ∷ rest

pub record Entry : Type 0 where
  pub file : Text
  pub size : ℕ
  pub sha256 : Text

module _ (can_rename : Text → Text → List File → Bool) where
  -- `for source,destination in reversed(completed)`, with the last rename first.
  pub roll_back : List (Text × Text) → List File → List File
  roll_back [] dir = dir
  roll_back ((source, target) ∷ completed) dir = elim (can_rename target source dir) [
    | true ↦ roll_back completed (rename target source dir)
    | false ↦ dir
  ]

  -- The renames: all of them, or those that were made are undone.
  pub move_all : List (Text × Text) → List (Text × Text) → List File → Bool × List File
  move_all [] completed dir = (true, dir)
  move_all ((source, target) ∷ plans) completed dir = elim (source ==ₜ target) [
    | true ↦ move_all plans completed dir
    | false ↦ elim (can_rename source target dir) [
      | true ↦ move_all plans ((source, target) ∷ completed) (rename source target dir)
      | false ↦ (false, roll_back completed dir)
    ]
  ]

module _ (can_rename : Text → Text → List File → Bool) (sha256 : Bytes → Text) where
  abbrev pub entry_of : File → Entry
  entry_of f = record { file = f.name; size = length f.content; sha256 = sha256 f.content }

  abbrev pub entries : List (Text × Text) → List File → List Entry
  entries [] dir = []
  entries ((source, target) ∷ plans) dir =
      map entry_of (keep (λ f. f.name ==ₜ target) dir) ++ entries plans dir

  abbrev pub recorded :
      List (Text × Text) → Bool × List File → Result PipelineError (List Entry) × List File
  recorded plans (true, dir) = (ok (entries plans dir), dir)
  recorded plans (false, dir) = (err rename_failed, dir)

  abbrev pub covers : List (Text × Text) → List File → Bool
  covers plans packages =
      all (λ f. any (λ p. p.0 ==ₜ f.name) plans) packages
      && all (λ p. any (λ f. f.name ==ₜ p.0) packages) plans

  abbrev pub checked_plans : Context → List File → Result PipelineError (List (Text × Text))
  checked_plans c dir = do
    expected ← expected_artifacts c
    plans ← plan_all c dir expected
    raise_if (not (covers plans (keep is_package dir))) unexpected_artifact
    ok plans

  -- `normalize`: the report's entries and the directory. `dist` is `none` where it is missing or a
  -- link. The manifest says that the check failed until the last step replaces it.
  unfoldable pub normalize :
      Context → Option (List File) → Result PipelineError (List Entry) × Option (List File)
  unfolding expected_artifacts plan_all plan_one move_all roll_back rename is_one_of
  normalize c none = (err missing_dist, none)
  normalize c (some dir) = elim (checked_plans c dir) [
    | err e ↦ (err e, some dir)
    | ok plans ↦
        let (result, dir') = recorded plans (move_all can_rename plans [] dir) in
        (result, some dir')
  ]
