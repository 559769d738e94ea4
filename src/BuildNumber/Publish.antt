-- ===== src/BuildNumber/Publish.antt =====
-- `publish` of tool/release_build_number.py: a bounded compare-and-swap push of the counter.
-- Git and the checkout are a parameter: each call is an action on a state that holds the working
-- copy, the remote and whatever other clients do to it meanwhile.
pub mod Lease
use xfl_clash.Prelude.{
  ℕ, zero, suc, ◌+◌, Bool, true, false, not, ◌&&◌, ◌||◌, Option, none, some, List, [], ◌∷◌, ◌++◌,
  ltb, leb, ◌==◌, Text, codes, all, any, length, starts_with, is_one_of, ◌==ₜ◌, same_texts, strip,
  is_space, split, is_digit, Result, ok, err,
}
use xfl_clash.Prelude.Decimal.{show}
use xfl_clash.BuildNumber.{
  BuildError, bad_publication, git_failed, checkout_differs, checkout_dirty, source_not_contained,
  counter_unsafe, not_extending, push_exhausted, unavailable, counter_unavailable, max_build_number,
  integer, next_counter,
}

-- How a Git process ends: with exit status zero and its output, with another status, or not at
-- all (it cannot be started, or runs into the timeout).
pub data Reply (A : Type 0) : Type 0 where
  done : A → Reply A
  nonzero : Reply A
  not_run : Reply A

-- A regular file whose name and directory are no symbolic links has a text, or cannot be read or
-- decoded.
pub data Content : Type 0 where
  unsafe unreadable : Content
  content : Text → Content

pub record Git (S : Type 0) : Type 0 where
  pub check_ref_format : Text → S → Reply (Unit {0})
  pub head : S → Reply Text
  pub status : S → Reply Text
  pub fetch : Text → S → Reply (Unit {0}) × S
  pub fetched_tip : S → Reply Text
  pub is_ancestor : Text → Text → S → Reply (Unit {0})
  pub reset : Text → S → Reply (Unit {0}) × S
  pub safe_file : Text → S → Content
  pub write_text : Text → Text → S → Reply (Unit {0}) × S
  pub add : Text → S → Reply (Unit {0}) × S
  pub commit : Text → S → Reply (Unit {0}) × S
  pub parents : Text → S → Reply Text
  -- `push --force-with-lease=REF:TIP origin COMMIT:REF`
  pub push : Text → Text → Text → S → Reply (Unit {0}) × S

-- Code that runs Git and may raise.
abbrev pub Action : Type 0 → Type 0 → Type 0
Action S A = S → Result BuildError A × S

abbrev pub continue : {S A B : Type 0} → Result BuildError A → (A → Action S B) → Action S B
continue (ok a) f s = f a s
continue (err e) f s = (err e, s)

infixl 5 ◌>>=◌ ◌>>◌
pub ◌>>=◌ : {S A B : Type 0} → Action S A → (A → Action S B) → Action S B
◌>>=◌ m f s = let (r, s') = m s in continue r f s'

abbrev pub ◌>>◌ : {S A B : Type 0} → Action S A → Action S B → Action S B
m >> n = m >>= λ _. n

abbrev pub pure : {S A : Type 0} → A → Action S A
pure a s = (ok a, s)

abbrev pub lift : {S A : Type 0} → Result BuildError A → Action S A
lift r s = (r, s)

abbrev pub require : {S : Type 0} → Bool → BuildError → Action S (Unit {0})
require true e s = (ok tt, s)
require false e s = (err e, s)

-- `git(…)` with `check=True`: any other exit status raises.
abbrev pub checked : {A : Type 0} → Reply A → Result BuildError A
checked (done a) = ok a
checked nonzero = err git_failed
checked not_run = err unavailable

abbrev pub query : {S A : Type 0} → (S → Reply A) → Action S A
query f s = (checked (f s), s)

abbrev pub run : {S A : Type 0} → (S → Reply A × S) → Action S A
run f s = let (r, s') = f s in (checked r, s')

-- `check=False`: the exit status is the result.
abbrev pub status_of : {A : Type 0} → Reply A → Result BuildError Bool
status_of (done a) = ok true
status_of nonzero = ok false
status_of not_run = err unavailable

abbrev pub run_status : {S A : Type 0} → (S → Reply A × S) → Action S Bool
run_status f s = let (r, s') = f s in (status_of r, s')

abbrev pub query_status : {S A : Type 0} → (S → Reply A) → Action S Bool
query_status f s = (status_of (f s), s)

abbrev pub file_text : Content → Result BuildError Text
file_text unsafe = err counter_unsafe
file_text unreadable = err counter_unavailable
file_text (content t) = ok t

-- What the run prints before it returns: the number stands already, or was pushed.
pub data Published : Type 0 where
  sufficient : ℕ → Published
  pushed : ℕ → Published

-- `re.fullmatch(r'[a-f0-9]{40}', source)`
abbrev pub is_source_sha : Text → Bool
is_source_sha s = all (λ c. is_digit c || (leb b'a' c && leb c b'f')) s && length s == 40

abbrev pub flavors : List Text
flavors = codes "brand_a" ∷ codes "brand_b" ∷ []

unfoldable pub is_publication : Text → Text → Text → Bool
unfolding is_one_of starts_with
is_publication flavor ref source =
    is_one_of flavor flavors
    && leb (length ref) 1024
    && starts_with ref (codes "refs/heads/")
    && not (any (λ c. ltb c 32 || c == 127) ref)
    && is_source_sha source

abbrev pub counter_path : Text → Text
counter_path flavor = codes "scripts/build_number." ++ flavor ++ codes ".txt"

module _ {S : Type 0} (g : Git S) where
  -- The push, and what its exit status means for the loop.
  pub leased_push : Text → Text → ℕ → Text → Action S (Option Published)
  leased_push ref tip number commit = do
    accepted ← run_status (g.push ref tip commit)
    pure (elim accepted [ true ↦ some (pushed number) | false ↦ none ])

  -- The new commit is pushed only if it has the fetched tip as its one parent.
  pub push_counter : Text → Text → ℕ → Text → Action S (Option Published)
  push_counter ref tip number commit = do
    line ← query (g.parents commit)
    require (same_texts (split line) (commit ∷ tip ∷ [])) not_extending
    leased_push ref tip number commit

  pub commit_counter : Text → Text → Text → ℕ → Action S (Option Published)
  commit_counter flavor ref tip number = do
    run (g.write_text (counter_path flavor) (show number ++ b'\n' ∷ []))
    run (g.add (counter_path flavor))
    run (g.commit (codes "[xfork] chore(build): " ++ flavor ++ codes " next build " ++ show number))
    commit ← query g.head
    push_counter ref tip number (strip is_space commit)

  -- One round of the loop: `none` when the push was not accepted.
  pub try_publish : Text → Text → Text → Text → Action S (Option Published)
  try_publish flavor ref source built = do
    run (g.fetch ref)
    fetched ← query g.fetched_tip
    contained ← query_status (g.is_ancestor source (strip is_space fetched))
    require contained source_not_contained
    run (g.reset (strip is_space fetched))
    stored ← (λ s. (file_text (g.safe_file (counter_path flavor) s), s))
    number ← lift (next_counter (strip is_space stored) built)
    counted ← lift (integer (max_build_number + 1) (strip is_space stored))
    elim (number == counted) [
      | true ↦ pure (some (sufficient number))
      | false ↦ commit_counter flavor ref (strip is_space fetched) number
    ]

  abbrev or_retry : Action S Published → Option Published → Action S Published
  or_retry again none = again
  or_retry again (some p) = pure p

  pub attempts : ℕ → Text → Text → Text → Text → Action S Published
  attempts zero flavor ref source built = lift (err push_exhausted)
  attempts (suc left) flavor ref source built =
      try_publish flavor ref source built >>= or_retry (attempts left flavor ref source built)

  pub publish : Text → Text → Text → Text → Action S Published
  publish flavor ref source built = do
    require (is_publication flavor ref source) bad_publication
    lift (integer max_build_number built)
    query (g.check_ref_format ref)
    head ← query g.head
    require (strip is_space head ==ₜ source) checkout_differs
    changes ← query g.status
    require (strip is_space changes ==ₜ []) checkout_dirty
    attempts 3 flavor ref source built
