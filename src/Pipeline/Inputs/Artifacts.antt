-- ===== src/Pipeline/Inputs/Artifacts.antt =====
-- A context that `read_context` of tool/release_pipeline.py accepts, and the artifacts of a build.
use xfl_clash.Prelude.{
  ℕ, Bool, true, false, not, ◌||◌, ◌&&◌, List, [], ◌∷◌, ◌≡◌, refl, inl, inr, any, if◌then◌else◌,
  length, Text, codes, ◌==ₜ◌, ==ₜ_sound, same_texts, same_texts_sound, ok, Returns, Returns-guard,
  Returns-bind, Bool-cases, and_true, not-false, All,
}
use mathlib.Core.Path.{subst}
use xfl_clash.Pipeline.{Context, expected_artifacts, invalid_context, invalid_target_set}
use xfl_clash.Pipeline.Inputs.{
  Raw, Accepted, field, flavor_of, is_product_version, is_base_version, is_revision, is_tag,
  is_name, is_one, build_number_of, text_of, texts_of, allowed, is_set, read_context,
}

-- The number of artifacts of a build.
abbrev pub count_of : Context → ℕ
count_of c = if c.platform ==ₜ codes "android" then 2 else length c.targets

abbrev pub HasArtifacts : Context → Type 0
HasArtifacts c =
    (expected : List (Text × Text)) × (expected_artifacts c ≡ ok expected)
    × (length expected ≡ count_of c)

satisfied :
    {A : Type 0} (q : A → Bool) (P : A → Type 0) (xs : List A)
    → any q xs ≡ true
    → All P xs
    → (x : A) × (q x ≡ true) × P x
satisfied q P [] h a = cc
satisfied q P (x ∷ xs) h (p, ps) = elim (Bool-cases (q x)) [
  | inl e ↦ (x, e, p)
  | inr e ↦ satisfied q P xs (rw e at h) ps
]

module _ (flavor arch product_version base_version package_prefix package_app_name : Text) where
  abbrev with_targets : Text → List Text → Context
  with_targets platform targets = record {
    flavor = flavor;
    platform = platform;
    arch = arch;
    product_version = product_version;
    base_version = base_version;
    package_prefix = package_prefix;
    package_app_name = package_app_name;
    targets = targets;
  }

  allowed-HasArtifacts : All (λ row. HasArtifacts (with_targets row.0 row.2)) allowed
  unfolding expected_artifacts ◌==ₜ◌
  allowed-HasArtifacts = (
    (_, refl, refl),
    (
      (_, refl, refl),
      (
        (_, refl, refl),
        (
          (_, refl, refl),
          ((_, refl, refl), ((_, refl, refl), ((_, refl, refl), ((_, refl, refl), tt)))),
        ),
      ),
    ),
  )

  accepted-HasArtifacts :
      (platform : Text) (targets : List Text)
      → any (is_set platform arch targets) allowed ≡ true
      → HasArtifacts (with_targets platform targets)
  accepted-HasArtifacts platform targets h =
      let (row, same, has) =
        satisfied (is_set platform arch targets) (λ row. HasArtifacts (with_targets row.0 row.2))
          allowed h allowed-HasArtifacts in
      let (p, rest) =
        and_true (row.0 ==ₜ platform) (row.1 ==ₜ arch && same_texts row.2 targets)
          (conjuncts (row.0 ==ₜ platform) (row.1 ==ₜ arch) (same_texts row.2 targets) same) in
      let (_, t) = and_true (row.1 ==ₜ arch) (same_texts row.2 targets) rest in
      subst (λ x. HasArtifacts (with_targets platform x)) (same_texts_sound row.2 targets t)
        (subst (λ x. HasArtifacts (with_targets x row.2)) (==ₜ_sound row.0 platform p) has)
    where
      conjuncts : (a b c : Bool) → (a && b && c) ≡ true → (a && (b && c)) ≡ true
      conjuncts true true true h = refl
      conjuncts true true false h = h
      conjuncts true false c h = h
      conjuncts false b c h = h

-- For every context that read_context accepts, expected_artifacts returns a list, with no missing
-- key: two artifacts on Android, and otherwise one for each target.
pub read_context-HasArtifacts : (c : Raw) → Returns (λ a. HasArtifacts a.context) (read_context c)
unfolding read_context
read_context-HasArtifacts c =
    let P : Accepted → Type 0 = λ a. HasArtifacts a.context in
    Returns-guard P (not c.has_keys || not (is_one c.schema_version)) invalid_context _ λ _.
      Returns-bind P (flavor_of c.flavor) _ λ flavor _.
        Returns-bind P (field is_product_version c.product_version) _ λ product_version _.
          Returns-bind P (field is_base_version c.base_version) _ λ base_version _.
            Returns-bind P (field is_revision c.source_revision) _ λ source_revision _.
              Returns-bind P (field is_tag c.build_tag) _ λ build_tag _.
                Returns-bind P (field is_name c.package_prefix) _ λ package_prefix _.
                  Returns-bind P (field is_name c.package_app_name) _ λ package_app_name _.
                    Returns-bind P (build_number_of c.build_number) _ λ build_number _.
                      Returns-bind P (text_of c.platform) _ λ platform _.
                        Returns-bind P (text_of c.arch) _ λ arch _.
                          Returns-bind P (texts_of c.targets) _ λ targets _.
                            Returns-guard P (not (any (is_set platform arch targets) allowed))
                              invalid_target_set (ok _)
                              λ h.
                                accepted-HasArtifacts flavor arch product_version base_version
                                  package_prefix package_app_name platform targets
                                  (not-false (any (is_set platform arch targets) allowed) h)
