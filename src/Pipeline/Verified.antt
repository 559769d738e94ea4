-- ===== src/Pipeline/Verified.antt =====
-- `verified_files` of tool/release_pipeline.py: the artifacts of a distribution directory against
-- the manifest that `normalize` wrote, before they are published.
pub mod Final
use xfl_clash.Prelude.{
  ℕ, ◌+◌, Bool, true, false, not, ◌&&◌, ◌||◌, Option, none, some, List, [], ◌∷◌, ◌++◌, leb, ◌==◌,
  if◌then◌else◌, map, keep, all, any, Text, codes, ◌==ₜ◌, is_one_of, is_digit, length, Result, ok,
  err, ◌>>=◌, ◌>>◌, raise_if,
}
use xfl_clash.Prelude.Int.{ℤ, pos, negsuc, ◌==ℤ◌}
use xfl_clash.Binary.{Bytes}
use xfl_clash.Pipeline.{
  PipelineError, manifest_identity_mismatch, manifest_inventory_mismatch, unsafe_dist,
  unexpected_final_artifact, invalid_manifest_record, final_artifact_changed, Context, File,
  is_regular, ends_with, package_suffixes, expected_artifacts,
}

-- A value of the parsed manifest is none where it is missing or of another type.
pub record Row : Type 0 where
  pub file : Option Text
  pub size : Option ℤ
  pub sha256 : Option Text

pub record Identity : Type 0 where
  pub flavor : Option Text
  pub platform : Option Text
  pub arch : Option Text
  pub product_version : Option Text
  pub build_number : Option ℤ
  pub source_revision : Option Text

pub record Report : Type 0 where
  pub identity : Identity
  pub passed : Bool
  pub rows : List Row

abbrev pub same_text : Option Text → Text → Bool
same_text none t = false
same_text (some s) t = s ==ₜ t

abbrev pub same_number : Option ℤ → ℕ → Bool
same_number none n = false
same_number (some m) n = m ==ℤ pos n

abbrev pub is_same : Identity → Context → ℕ → Text → Bool
is_same i c build_number source_revision =
    same_text i.flavor c.flavor
    && same_text i.platform c.platform
    && same_text i.arch c.arch
    && same_text i.product_version c.product_version
    && same_number i.build_number build_number
    && same_text i.source_revision source_revision

-- `len({…})`
abbrev pub count_distinct : List Text → ℕ
count_distinct [] = 0
count_distinct (s ∷ ss) = let n = count_distinct ss in if is_one_of s ss then n else n + 1

abbrev pub is_wanted : List Text → Option Text → Bool
is_wanted wanted none = false
is_wanted wanted (some s) = is_one_of s wanted

-- `{r.get('file') for r in rows} == wanted`
abbrev pub same_files : List Row → List Text → Bool
same_files rows wanted =
    all (λ r. is_wanted wanted r.file) rows && all (λ t. any (λ r. same_text r.file t) rows) wanted

abbrev pub actual_names : List File → List Text
actual_names dir = keep (λ n. any (ends_with n) package_suffixes) (map (λ f. f.name) dir)

abbrev pub same_names : List Text → List Text → Bool
same_names names wanted = all (λ n. is_one_of n wanted) names && all (λ t. is_one_of t names) wanted

abbrev pub file_at : Text → List File → Option File
file_at name [] = none
file_at name (f ∷ fs) = elim (f.name ==ₜ name) [ true ↦ some f | false ↦ file_at name fs ]

-- `[0-9a-f]{64}`
abbrev pub is_digest : Text → Bool
is_digest s = length s == 64 && all (λ c. is_digit c || (leb b'a' c && leb c b'f')) s

abbrev pub size_of : Option ℤ → Result PipelineError ℕ
size_of (some (pos n)) = if n == 0 then err invalid_manifest_record else ok n
size_of (some (negsuc n)) = err invalid_manifest_record
size_of none = err invalid_manifest_record

abbrev pub digest_of : Option Text → Result PipelineError Text
digest_of none = err invalid_manifest_record
digest_of (some s) = if is_digest s then ok s else err invalid_manifest_record

abbrev pub name_of : Option Text → Result PipelineError Text
name_of none = err invalid_manifest_record
name_of (some s) = ok s

abbrev pub found : Option File → Result PipelineError File
found none = err final_artifact_changed
found (some f) = ok f

abbrev pub directory_of : Option (List File) → Result PipelineError (List File)
directory_of none = err unsafe_dist
directory_of (some dir) = ok dir

module _ (sha256 : Bytes → Text) where
  -- The body of the loop; a row's file is one that is wanted.
  pub verify_row : List File → Row → Result PipelineError Text
  verify_row dir row = do
    size ← size_of row.size
    digest ← digest_of row.sha256
    name ← name_of row.file
    file ← found (file_at name dir)
    raise_if (not (is_regular file.kind && length file.content == size)) final_artifact_changed
    raise_if (not (sha256 file.content ==ₜ digest)) final_artifact_changed
    ok name

  pub verify_rows : List File → List Row → Result PipelineError (List Text)
  verify_rows dir [] = ok []
  verify_rows dir (row ∷ rows) = do
    name ← verify_row dir row
    names ← verify_rows dir rows
    ok (name ∷ names)

  -- `dist` is none where it is a symbolic link.
  unfoldable pub verified_files :
      Context → ℕ → Text → Report → Option (List File) → Result PipelineError (List Text)
  unfolding verify_rows verify_row expected_artifacts is_one_of ◌==ₜ◌
  verified_files c build_number source_revision report dist = do
    raise_if (not (is_same report.identity c build_number source_revision))
        manifest_identity_mismatch
    expected ← expected_artifacts c
    raise_if
        (not report.passed
          || not (length report.rows == count_distinct (map (λ e. e.1) expected))
          || not (same_files report.rows (map (λ e. e.1) expected)))
        manifest_inventory_mismatch
    dir ← directory_of dist
    raise_if (not (same_names (actual_names dir) (map (λ e. e.1) expected)))
        unexpected_final_artifact
    verify_rows dir report.rows
