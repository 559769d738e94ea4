-- ===== src/Tests/Manifests.antt =====
-- `verified_files` of tool/release_pipeline.py on a concrete manifest and directory.
use xfl_clash.Prelude.{◌≡◌, refl, true, some, List, [], ◌∷◌, Text, codes, Returns, ok, err}
use xfl_clash.Prelude.Int.{pos}
use xfl_clash.Binary.{Bytes}
use xfl_clash.Pipeline.{
  Context, File, regular, symlink, final_artifact_changed, unexpected_final_artifact,
}
use xfl_clash.Pipeline.Verified.{Report, verified_files}
use xfl_clash.Pipeline.Verified.Final.{IsVerified, verified_files-IsVerified}

abbrev context : Context
context = record {
  flavor = codes "brand_a";
  platform = codes "macos";
  arch = codes "arm64";
  product_version = codes "1.2.3";
  base_version = codes "1.2.3";
  package_prefix = codes "Flow";
  package_app_name = codes "Flow";
  targets = codes "dmg" ∷ [];
}

abbrev digest : Bytes → Text
digest bytes = codes "0123456789abcdef0123456789abcdef0123456789abcdef0123456789abcdef"

abbrev image : Text
image = codes "Flow-1.2.3-macos-arm64.dmg"

abbrev report : Report
report = record {
  identity = record {
    flavor = some (codes "brand_a");
    platform = some (codes "macos");
    arch = some (codes "arm64");
    product_version = some (codes "1.2.3");
    build_number = some (pos 7);
    source_revision = some (codes "abc");
  };
  passed = true;
  rows = record { file = some image; size = some (pos 2); sha256 = some (digest []) } ∷ [];
}

abbrev dist : List File
dist =
    record { name = image; kind = regular; content = 1 ∷ 2 ∷ [] }
    ∷ record { name = codes "notes.txt"; kind = regular; content = [] }
    ∷ []

verified_files_run :
    verified_files digest context 7 (codes "abc") report (some dist) ≡ ok (image ∷ [])
unfolding verified_files
verified_files_run = refl

verified_files_changed :
    verified_files digest context 7
      (codes "abc")
      report
      (some (record { name = image; kind = symlink true; content = 1 ∷ 2 ∷ [] } ∷ []))
    ≡ err final_artifact_changed
unfolding verified_files
verified_files_changed = refl

verified_files_more :
    verified_files digest context 7
      (codes "abc")
      report
      (some (record { name = codes "old.dmg"; kind = regular; content = [] } ∷ dist))
    ≡ err unexpected_final_artifact
unfolding verified_files
verified_files_more = refl

verified_files-IsVerified_example :
    Returns
      (IsVerified digest context report (some dist))
      (verified_files digest context 7 (codes "abc") report (some dist))
verified_files-IsVerified_example =
    verified_files-IsVerified digest context 7 (codes "abc") report (some dist)
