-- ===== src/Tests/Builds.antt =====
-- `package_environment`, `package_arguments` and `compose` of tool/release_pipeline.py at a concrete
-- context.
use xfl_clash.Prelude.{◌≡◌, refl, some, List, [], ◌∷◌, Text, codes, ok, err, Returns, drop}
use xfl_clash.Pipeline.{defines_flavor_mismatch, attribute_error, invalid_core_hash}
use xfl_clash.Pipeline.Inputs.{Value, text, Accepted}
use xfl_clash.Pipeline.Environment.{
  package_environment, package_arguments, no_file, entry, not_dictionary, compose,
}
use xfl_clash.Pipeline.Environment.Kept.{IsComposed, compose-IsComposed}

abbrev accepted : Accepted
accepted = record {
  context = record {
    flavor = codes "brand_a";
    platform = codes "macos";
    arch = codes "amd64";
    product_version = codes "1.2.3";
    base_version = codes "1.2.3";
    package_prefix = codes "Flow";
    package_app_name = codes "Flow";
    targets = codes "dmg" ∷ [];
  };
  build_number = 70;
  source_revision = codes "0123456789abcdef0123456789abcdef01234567";
  build_tag = codes "202601011200";
}

abbrev defines : List (Text × Value)
defines = (codes "XB_FLAVOR_ID", text (codes "brand_a")) ∷ []

package_environment_run :
    package_environment accepted.context ((codes "FLUTTER_XCODE_ARCHS", codes "arm64") ∷ [])
    ≡ ok (
        (codes "FLUTTER_XCODE_ARCHS", codes "x86_64")
        ∷ (codes "FLUTTER_XCODE_EXCLUDED_ARCHS", codes "arm64")
        ∷ (codes "FLUTTER_XCODE_ONLY_ACTIVE_ARCH", codes "NO")
        ∷ (codes "FLUTTER_MACOS_ARM64_ONLY", codes "false")
        ∷ [])
unfolding package_environment
package_environment_run = refl

package_arguments_run :
    drop 10 (package_arguments accepted)
    ≡ codes
        "--flutter-build-args=dart-define-from-file=env.json,build-name=1.2.3,build-number=70,split-debug-info=build/debug-info"
      ∷ codes "--description"
      ∷ codes "amd64"
      ∷ []
unfolding package_arguments
package_arguments_run = refl

compose_mismatch :
    compose accepted (some []) no_file (text (codes "stable")) ≡ err defines_flavor_mismatch
unfolding compose
compose_mismatch = refl

compose_core :
    (compose accepted (some defines) not_dictionary (text (codes "stable")) ≡ err attribute_error)
    × (compose accepted (some defines) (entry (some (text (codes "ab")))) (text (codes "stable"))
        ≡ err invalid_core_hash)
unfolding compose
compose_core = (refl, refl)

compose-IsComposed_example :
    Returns
      (IsComposed accepted (some defines))
      (compose accepted (some defines) no_file (text (codes "stable")))
compose-IsComposed_example =
    compose-IsComposed accepted (some defines) no_file (text (codes "stable"))
