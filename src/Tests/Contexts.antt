-- ===== src/Tests/Contexts.antt =====
-- `read_context` of tool/release_pipeline.py on a concrete context.
use xfl_clash.Prelude.{◌≡◌, refl, true, List, [], ◌∷◌, Text, codes, Result, ok, err, Returns}
use xfl_clash.Pipeline.{
  PipelineError, invalid_target_set, invalid_context_field, invalid_build_number,
}
use xfl_clash.Pipeline.Inputs.{Raw, Accepted, text, number, texts, mixed, read_context}
use xfl_clash.Pipeline.Inputs.Artifacts.{HasArtifacts, read_context-HasArtifacts}

abbrev raw : Raw
raw = record {
  has_keys = true;
  schema_version = number 1;
  flavor = text (codes "brand_b");
  platform = text (codes "linux");
  arch = text (codes "arm64");
  product_version = text (codes "1.20.3-beta.1+x-2");
  base_version = text (codes "1.20.3");
  build_number = number 70;
  source_revision = text (codes "0123456789abcdef0123456789abcdef01234567");
  build_tag = text (codes "202601011200");
  package_prefix = text (codes "Flow");
  package_app_name = text (codes "flow");
  targets = texts (codes "deb" ∷ codes "appimage" ∷ []);
}

abbrev targets_of : Result PipelineError Accepted → Result PipelineError (List Text)
targets_of (ok a) = ok a.context.targets
targets_of (err e) = err e

read_context_run : targets_of (read_context raw) ≡ ok (codes "deb" ∷ codes "appimage" ∷ [])
unfolding read_context
read_context_run = refl

read_context_targets :
    targets_of (read_context (record raw { targets = texts (codes "rpm" ∷ []) }))
    ≡ err invalid_target_set
unfolding read_context
read_context_targets = refl

read_context_mixed :
    targets_of (read_context (record raw { targets = mixed })) ≡ err invalid_target_set
unfolding read_context
read_context_mixed = refl

read_context_version :
    targets_of (read_context (record raw { product_version = text (codes "1.02.3") }))
    ≡ err invalid_context_field
unfolding read_context
read_context_version = refl

read_context_number :
    targets_of (read_context (record raw { build_number = number 65536 }))
    ≡ err invalid_build_number
unfolding read_context
read_context_number = refl

read_context-HasArtifacts_example : Returns (λ a. HasArtifacts a.context) (read_context raw)
read_context-HasArtifacts_example = read_context-HasArtifacts raw
