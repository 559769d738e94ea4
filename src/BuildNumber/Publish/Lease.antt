-- ===== src/BuildNumber/Publish/Lease.antt =====
-- The push of tool/release_build_number.py never rewrites the remote branch.
use xfl_clash.Prelude.{
  Bool, true, false, Option, none, some, [], ◌∷◌, ◌≡◌, ◌⊎◌, Text, split, Result, ok, err, ◌==ₜ◌,
  if◌then◌else◌,
}
use xfl_clash.BuildNumber.{BuildError, unavailable}
use xfl_clash.BuildNumber.Publish.{
  done, nonzero, not_run, Git, Action, require, Published, sufficient, pushed,
}

-- What is relied on of Git. `remote branch` is the tip of a branch there, `Others` what other
-- clients do to it while a call runs, `IsChild t c` that commit `c` has the one parent `t`.
pub record Laws {S : Type 0} (g : Git S) (remote : Text → S → Text)
    (Others IsChild : Text → Text → Type 0) : Type 0 where
  pub idle : (t : Text) → Others t t
  pub join : {t u v : Text} → Others t u → Others u v → Others t v
  pub fetch_quiet : (b ref : Text) (s : S) → Others (remote b s) (remote b (g.fetch ref s).1)
  pub reset_quiet : (b tip : Text) (s : S) → Others (remote b s) (remote b (g.reset tip s).1)
  pub write_quiet : (b f t : Text) (s : S) → Others (remote b s) (remote b (g.write_text f t s).1)
  pub add_quiet : (b f : Text) (s : S) → Others (remote b s) (remote b (g.add f s).1)
  pub commit_quiet : (b m : Text) (s : S) → Others (remote b s) (remote b (g.commit m s).1)
  pub parents_line :
      (c t out : Text) (s : S) → g.parents c s ≡ done out → split out ≡ c ∷ t ∷ [] → IsChild t c
  -- A push that is accepted found the leased tip of its branch and replaced it; one that is not
  -- changed nothing. No push moves another branch.
  pub push_leased :
      (ref tip c : Text) (s : S)
      → (g.push ref tip c s).0 ≡ done tt
      → (Others (remote ref s) tip) × (Others c (remote ref (g.push ref tip c s).1))
  pub push_refused :
      (ref tip c : Text) (s : S)
      → (g.push ref tip c s).0 ≡ nonzero
      → Others (remote ref s) (remote ref (g.push ref tip c s).1)
  pub push_lost :
      (ref tip c : Text) (s : S)
      → (g.push ref tip c s).0 ≡ not_run
      → Others (remote ref s) (remote ref (g.push ref tip c s).1)
        ⊎ ((Others (remote ref s) tip) × (Others c (remote ref (g.push ref tip c s).1)))
  pub push_elsewhere :
      (b ref tip c : Text) (s : S)
      → (b ==ₜ ref) ≡ false
      → Others (remote b s) (remote b (g.push ref tip c s).1)

module _ (Others IsChild : Text → Text → Type 0) where
  -- One commit was added on top of the tip that the branch had.
  pub record Extended (before after : Text) : Type 0 where
    pub tip : Text
    pub commit : Text
    pub before_push : Others before tip
    pub is_child : IsChild tip commit
    pub after_push : Others commit after

  module _ (named : Bool) where
    -- What a push did to a branch: the one that it names got a commit, any other is left to others.
    abbrev pub Pushed : Text → Text → Type 0
    Pushed before after = if named then Extended before after else Others before after

    -- What a run did to the branch, by its result: `Q` says it for a value that is returned. After
    -- a call that did not end nobody knows whether the push was taken.
    abbrev pub Effect :
        {A : Type 0} (Q : A → Text → Text → Type 0) → Result BuildError A → Text → Text → Type 0
    Effect Q (ok a) before after = Q a before after
    Effect Q (err unavailable) before after = Others before after ⊎ Pushed before after
    Effect Q (err _) before after = Others before after

    abbrev pub Done : Published → Text → Text → Type 0
    Done (pushed n) before after = Pushed before after
    Done (sufficient n) before after = Others before after

    abbrev pub Round : Option Published → Text → Text → Type 0
    Round none before after = Others before after
    Round (some p) before after = Done p before after

-- The branch `b` during a run for `ref`.
module _ {S : Type 0} (g : Git S) (remotes : Text → S → Text)
    (Others IsChild : Text → Text → Type 0) (laws : Laws g remotes Others IsChild)
    (b ref : Text) where
  abbrev remote : S → Text
  remote s = remotes b s

  abbrev named : Bool
  named = b ==ₜ ref

  -- A part of a run that leaves the branch to others, whether it returns or raises.
  record IsQuiet {A : Type 0} (m : Action S A) : Type 0 where
    at : (s : S) → Others (remote s) (remote (m s).1)

  record Has {A : Type 0} (Q : A → Text → Text → Type 0) (m : Action S A) : Type 0 where
    at : (s : S) → Effect Others IsChild named Q (m s).0 (remote s) (remote (m s).1)

  -- What others do before the effect belongs to it.
  record IsStable {A : Type 0} (Q : A → Text → Text → Type 0) : Type 0 where
    before : (a : A) (t u v : Text) → Others t u → Q a u v → Q a t v

  IsQuiet-require : (c : Bool) (e : BuildError) → IsQuiet (require c e)
  IsQuiet-require true e = record { at = λ s. laws.idle (remote s) }
  IsQuiet-require false e = record { at = λ s. laws.idle (remote s) }
