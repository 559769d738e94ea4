-- ===== src/Pipeline/Environment/Kept.antt =====
-- What `package_environment` and `compose` of tool/release_pipeline.py leave as it was.
use xfl_clash.Prelude.{
  Bool, true, false, not, Option, none, some, List, [], ◌∷◌, ◌≡◌, refl, sym, ap, ◌∙◌, inl, inr,
  Text, codes, ◌==ₜ◌, ==ₜ_sound, Bool-cases, and_true, all, Result, ok, err, Returns, Returns-bind,
}
use xfl_clash.Pipeline.{PipelineError, defines_flavor_mismatch}
use xfl_clash.Pipeline.Inputs.{Value, text, number, texts, mixed, other, Accepted}
use xfl_clash.Pipeline.Environment.{
  CoreFile, lookup, put, put_all, environment_of, is_flavor, core_of, defines_of, settings, compose,
}

not-true : (b : Bool) → not b ≡ true → b ≡ false
not-true true h = sym h
not-true false h = refl

-- A key that is none of some settings.
abbrev pub is_absent : {A : Type 0} → Text → List (Text × A) → Bool
is_absent k more = all (λ e. not (e.0 ==ₜ k)) more

module _ {A : Type 0} where
  lookup-put :
      (k l : Text) (v : A) (d : List (Text × A))
      → (l ==ₜ k) ≡ false
      → lookup k (put l v d) ≡ lookup k d
  unfolding lookup put
  lookup-put k l v [] h = rw (h, lookup) refl
  lookup-put k l v ((m, w) ∷ d) h = elim (Bool-cases (m ==ₜ l)) [
    | inl e ↦
        (let other_key : (m ==ₜ k) ≡ false = ap (λ z. z ==ₜ k) (==ₜ_sound m l e) ∙ h in
          rw (e, put, lookup, h, other_key) refl)
    | inr e ↦
        rw (e, put)
          (elim (Bool-cases (m ==ₜ k)) [
            | inl f ↦ rw (f, lookup) refl
            | inr f ↦ rw (f, lookup) (lookup-put k l v d h)
          ])
  ]

  lookup-put_all :
      (k : Text) (more d : List (Text × A))
      → is_absent k more ≡ true
      → lookup k (put_all more d) ≡ lookup k d
  unfolding put_all
  lookup-put_all k [] d h = refl
  lookup-put_all k ((l, v) ∷ more) d h =
      let (one, rest) = and_true (not (l ==ₜ k)) (is_absent k more) h in
      lookup-put_all k more (put l v d) rest ∙ lookup-put k l v d (not-true (l ==ₜ k) one)

-- What is composed keeps the brand, and every definition but those that are set.
pub record IsComposed (a : Accepted) (defines : Option (List (Text × Value)))
    (d : List (Text × Value)) : Type 0 where
  pub original : List (Text × Value)
  pub read : defines ≡ some original
  pub brand : lookup (codes "XB_FLAVOR_ID") d ≡ some (text a.context.flavor)
  pub others :
      (k : Text)
      → ((app_env core : Text) → is_absent k (settings a app_env core) ≡ true)
      → lookup k d ≡ lookup k original

is_flavor-some :
    (o : Option Value) (flavor : Text) → is_flavor o flavor ≡ true → o ≡ some (text flavor)
is_flavor-some none flavor h = cc
is_flavor-some (some (text s)) flavor h = ap (λ z. some (text z)) (==ₜ_sound s flavor h)
is_flavor-some (some (number n)) flavor h = cc
is_flavor-some (some (texts ts)) flavor h = cc
is_flavor-some (some mixed) flavor h = cc
is_flavor-some (some other) flavor h = cc

defines_of-ok :
    (defines : Option (List (Text × Value))) (flavor : Text) (d : List (Text × Value))
    → defines_of defines flavor ≡ ok d
    → (defines ≡ some d) × (lookup (codes "XB_FLAVOR_ID") d ≡ some (text flavor))
defines_of-ok none flavor d h = cc
defines_of-ok (some e) flavor d h =
    elim (Bool-cases (is_flavor (lookup (codes "XB_FLAVOR_ID") e) flavor)) [
      | inl f ↦
          (let same : e ≡ d = the_same e d (rw f at h) in
            (
              ap some same,
              ap (lookup (codes "XB_FLAVOR_ID")) (sym same)
                  ∙ is_flavor-some (lookup (codes "XB_FLAVOR_ID") e) flavor f,
            ))
      | inr f ↦
          (let nothing : ◌≡◌ {A = Result PipelineError (List (Text × Value))}
                (err defines_flavor_mismatch) (ok d) =
              rw f at h in
            cc)
    ]
  where
    the_same :
        (e d : List (Text × Value))
        → ◌≡◌ {A = Result PipelineError (List (Text × Value))} (ok e) (ok d)
        → e ≡ d
    the_same e d h = cc

flavor_absent :
    (a : Accepted) (app_env core : Text)
    → is_absent (codes "XB_FLAVOR_ID") (settings a app_env core) ≡ true
unfolding ◌==ₜ◌
flavor_absent a app_env core = refl

-- A configuration that compose writes comes from definitions of the brand of the context, keeps
-- the brand, and keeps the value of every key that is none of the six settings.
pub compose-IsComposed :
    (a : Accepted) (defines : Option (List (Text × Value))) (core : CoreFile) (app_env : Value)
    → Returns (IsComposed a defines) (compose a defines core app_env)
unfolding compose
compose-IsComposed a defines core app_env =
    let P = IsComposed a defines in
    Returns-bind P (environment_of app_env) _ λ environment _.
      Returns-bind P (defines_of defines a.context.flavor) _ λ d hd.
        Returns-bind P (core_of core) _ λ hash _.
          (let (read, brand) = defines_of-ok defines a.context.flavor d hd in
            record {
              original = d;
              read = read;
              brand =
                  lookup-put_all (codes "XB_FLAVOR_ID") (settings a environment hash) d
                    (flavor_absent a environment hash)
                  ∙ brand;
              others = λ k h. lookup-put_all k (settings a environment hash) d (h environment hash);
            })
