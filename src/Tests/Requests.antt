-- ===== src/Tests/Requests.antt =====
-- tool/release_request.py at a concrete event and environment.
use xfl_clash.Prelude.{
  ◌≡◌, refl, true, [], ◌∷◌, Option, some, none, Text, codes, ◌==ₜ◌, if◌then◌else◌, ok, err, ℕ, ◌≤◌,
  ◌⊎◌, starts_with, to_number,
}
use xfl_clash.BuildNumber.{integer, resolve, below_counter, max_build_number}
use xfl_clash.BuildNumber.Publish.{is_publication}
use xfl_clash.Request.{
  text, object, Request, normalize, source_ref, bad_ref, ref_required, is_ref_name,
}
use xfl_clash.Request.Handover.{normalize-resolve, normalize-is_publication}

abbrev sha : Text
sha = codes "0123456789abcdef0123456789abcdef01234567"

abbrev env : Text → Option Text
env key =
    if key ==ₜ codes "GITHUB_REPOSITORY"
    then some (codes "wvjh3z/XFlClash")
    else if key ==ₜ codes "GITHUB_EVENT_NAME"
    then some (codes "workflow_dispatch")
    else if key ==ₜ codes "GITHUB_SHA"
    then some sha
    else if key ==ₜ codes "GITHUB_REF"
    then some (codes "refs/heads/main")
    else none

abbrev request : Request
request = record {
  flavor = codes "brand_b";
  target = codes "android";
  requested_number = codes "42";
  upload = codes "true";
  source_sha = sha;
  source_ref = codes "refs/heads/main";
}

normalize_run :
    normalize
      (some (
        object (
          (codes "flavor", text (codes "brand_b"))
          ∷ (codes "build_number", text (codes "42"))
          ∷ (codes "upload", text (codes "true"))
          ∷ [])))
      env
    ≡ ok request
unfolding normalize ◌==ₜ◌ to_number
normalize_run = refl

dots_refused : source_ref (codes "refs/heads/a..b") ≡ err bad_ref
unfolding source_ref starts_with is_ref_name
dots_refused = refl

lock_refused : source_ref (codes "refs/tags/a.lock/b") ≡ err bad_ref
unfolding source_ref starts_with is_ref_name
lock_refused = refl

short_ref_refused : source_ref (codes "main") ≡ err ref_required
unfolding source_ref starts_with is_ref_name
short_ref_refused = refl

counter_reads : integer max_build_number (codes "40") ≡ ok 40
unfolding integer to_number
counter_reads = refl

normalize-resolve_example :
    ((n : ℕ) × (resolve (codes "40") (codes "42") ≡ ok n) × (40 ≤ n))
    ⊎ (resolve (codes "40") (codes "42") ≡ err below_counter)
normalize-resolve_example =
    normalize-resolve _ env request (codes "40") 40 normalize_run counter_reads

main_is_branch : starts_with (codes "refs/heads/main") (codes "refs/heads/") ≡ true
unfolding starts_with
main_is_branch = refl

normalize-is_publication_example :
    is_publication
      (codes "brand_b")
      (codes "refs/heads/main")
      (codes "0123456789abcdef0123456789abcdef01234567")
    ≡ true
normalize-is_publication_example =
    normalize-is_publication _ env request normalize_run main_is_branch
