-- ===== src/Upload/Cli/Attempts.antt =====
-- The attempts of an upload, `run_cli` of tool/upload_sentry_symbols.py.
use xfl_clash.Prelude.{
  ℕ, suc, ◌+◌, ◌-◌, ◌≤◌, true, false, Option, none, some, List, [], ◌∷◌, ◌++◌, ◌≡◌, refl, inl, inr,
  leb, length, length-append, Text, All, All-append, Bool-cases, Result, ok, err, arith,
}
use xfl_clash.Prelude.Int.{pos, ◌==ℤ◌}
use xfl_clash.Upload.Cli.{
  Completed, Category, CliError, cli_timeout, upload_failed, Cli, is_transient, budget, delays,
  is_upload, Runs, after_failure, after_run, attempt, attempts, output_of, run_cli,
}

module _ {W : Type 0} (cli : Cli W) (arguments : List Text) where
  -- A run after which the upload may be tried again.
  abbrev pub IsTransient : Completed → Type 0
  IsTransient r = ((r.returncode ==ℤ pos 0) ≡ false) × (is_transient (cli.cli_failure r) ≡ true)

  -- How the runs end: with a success, or without one.
  abbrev pub IsAnswer : List Completed → Result CliError Completed → Type 0
  IsAnswer log (ok r) =
      (earlier : List Completed) × (log ≡ earlier ++ r ∷ [])
      × ((r.returncode ==ℤ pos 0) ≡ true)
      × All IsTransient earlier
  IsAnswer log (err e) = All (λ r. (r.returncode ==ℤ pos 0) ≡ false) log

  pub record IsSound (limit : ℕ) (o : Runs) : Type 0 where
    pub few : length o.1 ≤ limit
    pub answer : IsAnswer o.1 o.0

  transient_failed :
      (log : List Completed) → All IsTransient log → All (λ r. (r.returncode ==ℤ pos 0) ≡ false) log
  transient_failed [] a = tt
  transient_failed (r ∷ log) ((e, t), a) = (e, transient_failed log a)

  module _ (deadline : ℕ) (limit : ℕ) (next : List Completed → W → Runs × W)
      (log : List Completed) where
    -- What the attempts that follow have to give.
    abbrev Continues : Type 0
    Continues =
        (later : List Completed) (w : W)
        → length later ≤ suc (length log)
        → All IsTransient later
        → IsSound limit (next later w).0

    failed-IsSound :
        (category : Category) (r : Completed)
        → suc (length log) ≤ limit
        → All IsTransient log
        → (r.returncode ==ℤ pos 0) ≡ false
        → IsSound limit (err (upload_failed category (length (log ++ r ∷ []))), log ++ r ∷ [])
    failed-IsSound category r short a e = record {
      few = omega (arith, short, length-append log (r ∷ []));
      answer =
          All-append (λ x. (x.returncode ==ℤ pos 0) ≡ false) log (r ∷ []) (transient_failed log a)
            (e, tt);
    }

    after_failure-IsSound :
        (pause : Option ℕ) (r : Completed) (w : W)
        → suc (length log) ≤ limit
        → All IsTransient log
        → (r.returncode ==ℤ pos 0) ≡ false
        → Continues
        → IsSound limit
            (after_failure cli arguments deadline pause next
              (cli.cli_failure r)
              (log ++ r ∷ [])
              w).0
    unfolding after_failure
    after_failure-IsSound none r w short a e k = failed-IsSound (cli.cli_failure r) r short a e
    after_failure-IsSound (some pause) r w short a e k =
        elim (Bool-cases (is_transient (cli.cli_failure r))) [
          | inr fatal ↦ rw fatal (failed-IsSound (cli.cli_failure r) r short a e)
          | inl transient ↦ rw transient (elim (Bool-cases (leb (deadline - (cli.now w).0) pause)) [
            | inl late ↦ rw late (failed-IsSound (cli.cli_failure r) r short a e)
            | inr early ↦ rw early (
                k (log ++ r ∷ []) (cli.sleep pause (cli.now w).1)
                  (omega (arith, length-append log (r ∷ [])))
                  (All-append IsTransient log (r ∷ []) a ((e, transient), tt)))
          ])
        ]

    after_run-IsSound :
        (pause : Option ℕ) (run : Result CliError Completed × W)
        → suc (length log) ≤ limit
        → All IsTransient log
        → Continues
        → IsSound limit (after_run cli arguments deadline pause next log run).0
    unfolding after_run
    after_run-IsSound pause (err e, w) short a k = record {
      few = omega (arith, short);
      answer = transient_failed log a;
    }
    after_run-IsSound pause (ok r, w) short a k = elim (Bool-cases (r.returncode ==ℤ pos 0)) [
      | inl done ↦ rw done (record {
        few = omega (arith, short, length-append log (r ∷ []));
        answer = (log, refl, done, a);
      })
      | inr bad ↦ rw bad (after_failure-IsSound pause r w short a bad k)
    ]

    attempt-IsSound :
        (pause : Option ℕ) (w : W)
        → suc (length log) ≤ limit
        → All IsTransient log
        → Continues
        → IsSound limit (attempt cli arguments deadline pause next log w).0
    unfolding attempt
    attempt-IsSound pause w short a k = elim (Bool-cases (leb deadline (cli.now w).0)) [
      | inl late ↦ rw late (record { few = omega (arith, short); answer = transient_failed log a })
      | inr early ↦ rw early (
          after_run-IsSound pause (cli.run arguments (deadline - (cli.now w).0) (cli.now w).1) short
            a k)
    ]

  attempts-IsSound :
      (deadline limit : ℕ) (pauses : List ℕ) (log : List Completed) (w : W)
      → suc (length log) + length pauses ≤ limit
      → All IsTransient log
      → IsSound limit (attempts cli arguments deadline pauses log w).0
  unfolding attempts
  attempts-IsSound deadline limit [] log w short a =
      attempt-IsSound deadline limit (λ log' w'. ((err cli_timeout, log'), w')) log none w
        (omega (arith, short)) a
        (λ later w' near b. record {
          few = omega (arith, short, near);
          answer = transient_failed later b;
        })
  attempts-IsSound deadline limit (pause ∷ pauses) log w short a =
      attempt-IsSound deadline limit (attempts cli arguments deadline pauses) log (some pause) w
        (omega (arith, short)) a
        (λ later w' near b.
          attempts-IsSound deadline limit pauses later w' (omega (arith, short, near)) b)

  -- What an upload returns, with the runs that completed.
  pub record IsUploaded (o : Result CliError Text × List Completed) : Type 0 where
    pub few : length o.1 ≤ 3
    pub answer :
        (out : Text)
        → o.0 ≡ ok out
        → (earlier : List Completed) × (last : Completed) × (o.1 ≡ earlier ++ last ∷ [])
          × (last.stdout ≡ out)
          × ((last.returncode ==ℤ pos 0) ≡ true)
          × All IsTransient earlier

  output_of-IsUploaded : (runs : Runs) → IsSound 3 runs → IsUploaded (output_of runs)
  output_of-IsUploaded (ok r, log) h = record {
    few = h.few;
    answer = λ out e.
        (let (earlier, same, good, a) = h.answer in
          (earlier, r, same, strip_ok r.stdout out e, good, a));
  }
    where
      strip_ok : (s t : Text) → ◌≡◌ {A = Result CliError Text} (ok s) (ok t) → s ≡ t
      strip_ok s t e = cc
  output_of-IsUploaded (err e, log) h = record {
    few = h.few;
    answer =
        λ out same. (let nothing : ◌≡◌ {A = Result CliError Text} (err e) (ok out) = same in cc);
  }

  -- An upload makes at most three runs that complete. Where it returns, the output is that of the
  -- last of them, which exited with zero, and each earlier one failed with a transient failure.
  pub run_cli-IsUploaded :
      (w : W) → is_upload arguments ≡ true → IsUploaded (run_cli cli arguments w).0
  unfolding run_cli
  run_cli-IsUploaded w e = rw e (
      output_of-IsUploaded _
        (attempts-IsSound ((cli.now w).0 + budget) 3 delays [] (cli.now w).1 (omega arith) tt))
