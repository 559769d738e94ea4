-- ===== src/Tests/Commands.antt =====
-- `run_cli` of tool/upload_sentry_symbols.py on a scripted sequence of runs.
use xfl_clash.Prelude.{
  ℕ, ◌+◌, ◌≡◌, refl, List, [], ◌∷◌, Text, codes, if◌then◌else◌, ◌==ₜ◌, same_texts, Result, ok, err,
}
use xfl_clash.Prelude.Int.{pos}
use xfl_clash.Upload.Cli.{
  Completed, transport_error, other_failure, CliError, upload_failed, timeout_expired,
  command_failed, Cli, run_cli,
}
use xfl_clash.Upload.Cli.Attempts.{IsUploaded, run_cli-IsUploaded}

-- The clock, and the runs that are to come.
abbrev World : Type 0
World = ℕ × List Completed

abbrev next_run : List Completed → ℕ → Result CliError Completed × World
next_run [] t = (err timeout_expired, (t, []))
next_run (r ∷ rs) t = (ok r, (t + 100, rs))

abbrev cli : Cli World
cli = record {
  now = λ w. (w.0, w);
  run = λ arguments limit w. next_run w.1 w.0;
  sleep = λ pause w. (w.0 + pause, w.1);
  cli_failure = λ r. if r.stderr ==ₜ codes "reset" then transport_error else other_failure;
}

abbrev reset : Completed
reset = record { returncode = pos 1; stdout = []; stderr = codes "reset" }

abbrev denied : Completed
denied = record { returncode = pos 1; stdout = []; stderr = codes "denied" }

abbrev done : Completed
done = record { returncode = pos 0; stdout = codes "sent"; stderr = [] }

abbrev upload : List Text
upload = codes "debug-files" ∷ codes "upload" ∷ codes "a.debug" ∷ []

retried :
    (run_cli cli upload (0, reset ∷ reset ∷ done ∷ [])).0
    ≡ (ok (codes "sent"), reset ∷ reset ∷ done ∷ [])
unfolding run_cli ◌==ₜ◌
retried = refl

given_up :
    (run_cli cli upload (0, reset ∷ reset ∷ reset ∷ done ∷ [])).0
    ≡ (err (upload_failed transport_error 3), reset ∷ reset ∷ reset ∷ [])
unfolding run_cli ◌==ₜ◌
given_up = refl

fatal :
    (run_cli cli upload (0, denied ∷ done ∷ [])).0
    ≡ (err (upload_failed other_failure 1), denied ∷ [])
unfolding run_cli ◌==ₜ◌
fatal = refl

not_retried :
    (run_cli cli (codes "releases" ∷ []) (0, reset ∷ done ∷ [])).0
    ≡ (err (command_failed (pos 1)), reset ∷ [])
unfolding run_cli ◌==ₜ◌
not_retried = refl

run_cli-IsUploaded_example : IsUploaded cli upload (run_cli cli upload (0, reset ∷ done ∷ [])).0
unfolding same_texts ◌==ₜ◌
run_cli-IsUploaded_example = run_cli-IsUploaded cli upload (0, reset ∷ done ∷ []) refl
