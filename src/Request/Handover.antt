-- ===== src/Request/Handover.antt =====
-- What the later steps of a release rely on in a request that `normalize` accepts.
use xfl_clash.Prelude.{
  not-false, ℕ, ◌≤◌, Bool, true, false, not, ◌||◌, Option, List, [], ◌∷◌, ◌++◌, ◌≡◌, ◌⊎◌, inl, inr,
  refl, ltb, leb, ◌==◌, Text, codes, all, any, length, starts_with, is_one_of, to_number, arith,
  Result, ok, err, Ensures, Ensures-ok, raise_if, ◌>>=◌, ◌>>◌, ltb→le, and_true, or_false,
  Bool-cases,
}
use xfl_clash.BuildNumber.{integer, resolve, below_counter, max_build_number, is_number_text}
use xfl_clash.BuildNumber.Publish.{is_publication}
use xfl_clash.Request.{
  RequestError, Json, bad_number, ref_required, bad_ref, text, null, flag, other, Request, Inputs,
  requested_number, source_sha, source_ref, is_ref_name, is_ref_char, behind_slash, is_sha_text,
  normalize, choice, flavors, targets, env_is, repository, wrong_repository, inputs_of,
  unsupported_event, supplied_of, value_of, upload_of, get_or,
}

number_of_shape : (s : Text) → is_number_text 4 s ≡ true → is_number_text 9 s ≡ true
number_of_shape [] h = cc
number_of_shape (c ∷ s) h = ground arith

accepted :
    (s : Text)
    → (not (is_number_text 4 s) || ltb max_build_number (to_number 0 s)) ≡ false
    → integer max_build_number s ≡ ok (to_number 0 s)
unfolding integer
accepted s h = ground (arith, number_of_shape s)

-- A number of a request is empty or one that the counter's reader takes.
requested_number_lem :
    (v : Json) (s : Text)
    → requested_number v ≡ ok s
    → (s ≡ []) ⊎ ((n : ℕ) × (integer max_build_number s ≡ ok n))
unfolding requested_number integer
requested_number_lem null s h = inl cc
requested_number_lem (text []) s h = inl cc
requested_number_lem (text (c ∷ t)) s h =
    elim (Bool-cases
      (not (is_number_text 4 (c ∷ t)) || ltb max_build_number (to_number 0 (c ∷ t)))) [
        | inl bad ↦ let refused : err bad_number ≡ ok s = rw bad at h in cc
        | inr good ↦
            let same : ok (c ∷ t) ≡ ok s = rw good at h in
            inr
              (to_number 0 s, let same' : (c ∷ t) ≡ s = cc in rw (← same') (accepted (c ∷ t) good))
      ]
requested_number_lem (flag b) s h = cc
requested_number_lem other s h = cc

choice-ok :
    (options : List Text) (v : Json) (s : Text)
    → choice options v ≡ ok s
    → is_one_of s options ≡ true
choice-ok options (text t) s h = ground arith
choice-ok options null s h = cc
choice-ok options (flag b) s h = cc
choice-ok options other s h = cc

source_sha-ok : (v s : Text) → source_sha v ≡ ok s → is_sha_text s ≡ true
unfolding source_sha
source_sha-ok v s h = ground arith

both_passed :
    (b c : Bool) (e f : RequestError) (v s : Text)
    → (raise_if b e >> (raise_if c f >> ok v)) ≡ ok s
    → (b ≡ false) × (c ≡ false) × (v ≡ s)
both_passed true c e f v s h = cc
both_passed false true e f v s h = cc
both_passed false false e f v s h = (refl, refl, cc)

ltb-leb : (m n : ℕ) → ltb m n ≡ false → leb n m ≡ true
ltb-leb m n h = ground arith

source_ref-ok :
    (v s : Text)
    → source_ref v ≡ ok s
    → (leb (length s) 1024 ≡ true) × (is_ref_name (behind_slash (behind_slash s)) ≡ true)
unfolding source_ref
source_ref-ok v s h =
    let (long, name, same) = both_passed _ _ ref_required bad_ref v s h in
    rw (← same)
      (ltb-leb 1024 (length v) (or_false (ltb 1024 (length v)) _ long).0, not-false _ name)

abbrev is_control : ℕ → Bool
is_control c = ltb c 32 || c == 127

no_control : (s : Text) → all is_ref_char s ≡ true → any is_control s ≡ false
no_control [] h = refl
no_control (c ∷ s) h =
    let (e, f) = and_true (is_ref_char c) (all is_ref_char s) h in
    rw (no_control s f) (ground arith)

prefix_of : (s p : Text) → starts_with s p ≡ true → (rest : Text) × (s ≡ p ++ rest)
unfolding starts_with
prefix_of s [] h = (s, refl)
prefix_of [] (c ∷ p) h = cc
prefix_of (x ∷ s) (c ∷ p) h =
    let (e, f) = and_true (x == c) (starts_with s p) h in
    let (rest, g) = prefix_of s p f in (rest, grind arith)

branch-has_no_control :
    (ref : Text)
    → starts_with ref (codes "refs/heads/") ≡ true
    → is_ref_name (behind_slash (behind_slash ref)) ≡ true
    → any is_control ref ≡ false
unfolding is_ref_name
branch-has_no_control ref h k =
    let (rest, e) = prefix_of ref (codes "refs/heads/") h in
    rw e (no_control rest (and_true _ _ (rw e at k)).0)

-- What an accepted request holds.
record Accepted (r : Request) : Type 0 where
  brand : is_one_of r.flavor flavors ≡ true
  number :
      (r.requested_number ≡ []) ⊎ ((n : ℕ) × (integer max_build_number r.requested_number ≡ ok n))
  sha : is_sha_text r.source_sha ≡ true
  short : leb (length r.source_ref) 1024 ≡ true
  name : is_ref_name (behind_slash (behind_slash r.source_ref)) ≡ true

-- A step of `normalize` that gives a value leads on with the equation for it.
after :
    {A : Type 0} (m : Result RequestError A) (f : A → Result RequestError Request)
    → ((a : A) → m ≡ ok a → Ensures (λ _. Unit) Accepted (f a))
    → Ensures (λ _. Unit) Accepted (m >>= f)
after (ok a) f k = k a refl
after (err e) f k = tt

all_checked :
    (event : Option Inputs) (env : Text → Option Text)
    → Ensures (λ _. Unit) Accepted (normalize event env)
unfolding normalize
all_checked event env =
    after (raise_if (not (env_is env (codes "GITHUB_REPOSITORY") repository)) wrong_repository) _
      λ _ _. after (inputs_of event) _ λ inputs _.
        after
          (raise_if (not (env_is env (codes "GITHUB_EVENT_NAME") (codes "workflow_dispatch")))
            unsupported_event)
          _
          λ _ _. after (supplied_of inputs) _ λ supplied _.
            after (choice flavors (value_of supplied (codes "flavor"))) _ λ flavor f.
              after (choice targets (value_of supplied (codes "target"))) _ λ target t.
                after (requested_number (value_of supplied (codes "build_number"))) _ λ number n.
                  after (upload_of (value_of supplied (codes "upload"))) _ λ upload u.
                    after (source_sha (get_or env (codes "GITHUB_SHA"))) _ λ sha s.
                      after (source_ref (get_or env (codes "GITHUB_REF"))) _ λ ref x. record {
                        brand = choice-ok flavors (value_of supplied (codes "flavor")) flavor f;
                        number =
                            requested_number_lem (value_of supplied (codes "build_number")) number
                              n;
                        sha = source_sha-ok (get_or env (codes "GITHUB_SHA")) sha s;
                        short = (source_ref-ok (get_or env (codes "GITHUB_REF")) ref x).0;
                        name = (source_ref-ok (get_or env (codes "GITHUB_REF")) ref x).1;
                      }

normalize-Accepted :
    (event : Option Inputs) (env : Text → Option Text) (r : Request)
    → normalize event env ≡ ok r
    → Accepted r
normalize-Accepted event env r h =
    Ensures-ok (λ _. Unit) Accepted (normalize event env) r h (all_checked event env)

resolve_of :
    (current s : Text) (counter : ℕ)
    → integer max_build_number current ≡ ok counter
    → (s ≡ []) ⊎ ((n : ℕ) × (integer max_build_number s ≡ ok n))
    → ((n : ℕ) × (resolve current s ≡ ok n) × (counter ≤ n))
      ⊎ (resolve current s ≡ err below_counter)
unfolding resolve
resolve_of current [] counter c e = inl (counter, c, omega arith)
resolve_of current (d ∷ s) counter c (inl e) = cc
resolve_of current (d ∷ s) counter c (inr (n, e)) =
    rw (c, e)
      (elim (Bool-cases (ltb n counter)) [
        | inl below ↦ rw below (inr refl)
        | inr above ↦ rw above (inl (n, refl, ltb→le n counter above))
      ])

-- The number of an accepted request is one that resolve takes: against a counter that reads as a
-- build number, resolve gives a number that is not below the counter, or finds the requested one
-- below it, and raises nothing else.
pub normalize-resolve :
    (event : Option Inputs) (env : Text → Option Text) (r : Request) (current : Text) (counter : ℕ)
    → normalize event env ≡ ok r
    → integer max_build_number current ≡ ok counter
    → ((n : ℕ) × (resolve current r.requested_number ≡ ok n) × (counter ≤ n))
      ⊎ (resolve current r.requested_number ≡ err below_counter)
normalize-resolve event env r current counter h c =
    resolve_of current r.requested_number counter c (normalize-Accepted event env r h).number

-- An accepted request for a branch passes the guard of publish with its brand, reference and SHA.
pub normalize-is_publication :
    (event : Option Inputs) (env : Text → Option Text) (r : Request)
    → normalize event env ≡ ok r
    → starts_with r.source_ref (codes "refs/heads/") ≡ true
    → is_publication r.flavor r.source_ref r.source_sha ≡ true
unfolding is_publication
normalize-is_publication event env r h b =
    let a = normalize-Accepted event env r h in
    rw (a.brand, a.short, b, branch-has_no_control r.source_ref b a.name, a.sha) refl
