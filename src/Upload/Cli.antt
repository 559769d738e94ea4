-- ===== src/Upload/Cli.antt =====
-- `run_cli` of tool/upload_sentry_symbols.py: a call of `sentry-cli`, where an upload is tried
-- again after a transient failure. Times are in milliseconds; the clock, the process and the
-- classification of a failure are parameters.
pub mod Attempts
use xfl_clash.Prelude.{
  ℕ, zero, suc, ◌+◌, ◌-◌, ◌*◌, Bool, true, false, not, ◌&&◌, ◌||◌, Option, none, some, length, List,
  [], ◌∷◌, ◌++◌, leb, ◌==◌, if◌then◌else◌, Text, codes, ◌==ₜ◌, same_texts, take, starts_with,
  lstrip, is_space, Result, ok, err, ◌>>=◌, ◌>>◌, raise_if,
}
use xfl_clash.Prelude.Int.{ℤ, pos, negsuc, ◌==ℤ◌}

pub record Completed : Type 0 where
  pub returncode : ℤ
  pub stdout : Text
  pub stderr : Text

pub data Category : Type 0 where
  transport_error server_error other_failure : Category

-- What is raised: the budget is used up, the process ran out of time, a classified failure with
-- the number of attempts where it is noted, or the exit status of another command.
pub data CliError : Type 0 where
  cli_timeout timeout_expired : CliError
  upload_failed : Category → ℕ → CliError
  command_failed : ℤ → CliError

pub record Cli (W : Type 0) : Type 0 where
  pub now : W → ℕ × W
  pub run : List Text → ℕ → W → Result CliError Completed × W
  pub sleep : ℕ → W → W
  pub cli_failure : Completed → Category

abbrev pub is_transient : Category → Bool
is_transient transport_error = true
is_transient server_error = true
is_transient other_failure = false

abbrev pub budget : ℕ
budget = 900 * 1000

abbrev pub delays : List ℕ
delays = 2000 ∷ 5000 ∷ []

abbrev pub is_upload : List Text → Bool
is_upload arguments = same_texts (take 2 arguments) (codes "debug-files" ∷ codes "upload" ∷ [])

abbrev pub is_check : List Text → Bool
is_check arguments =
    same_texts (take 3 arguments) (codes "debug-files" ∷ codes "check" ∷ codes "--json" ∷ [])

-- The result of the loop and the runs that completed.
abbrev pub Runs : Type 0
Runs = Result CliError Completed × List Completed

module _ {W : Type 0} (cli : Cli W) (arguments : List Text) (deadline : ℕ) where
  -- After a failure, with the pause before the next attempt if there is one.
  pub after_failure :
      Option ℕ → (List Completed → W → Runs × W) → Category → List Completed → W → Runs × W
  after_failure none next category log w = ((err (upload_failed category (length log)), log), w)
  after_failure (some pause) next category log w =
      let (t, w1) = cli.now w in
      if not (is_transient category)
      then ((err (upload_failed category (length log)), log), w)
      else if leb (deadline - t) pause
      then ((err (upload_failed category (length log)), log), w1)
      else next log (cli.sleep pause w1)

  pub after_run :
      Option ℕ
      → (List Completed → W → Runs × W)
      → List Completed
      → Result CliError Completed × W
      → Runs × W
  after_run pause next log (err e, w) = ((err e, log), w)
  after_run pause next log (ok result, w) =
      if result.returncode ==ℤ pos 0
      then ((ok result, log ++ result ∷ []), w)
      else after_failure pause next (cli.cli_failure result) (log ++ result ∷ []) w

  pub attempt : Option ℕ → (List Completed → W → Runs × W) → List Completed → W → Runs × W
  attempt pause next log w =
      let (t, w1) = cli.now w in
      if leb deadline t
      then ((err cli_timeout, log), w1)
      else after_run pause next log (cli.run arguments (deadline - t) w1)

  -- The loop of an upload, by the pauses that are left.
  pub attempts : List ℕ → List Completed → W → Runs × W
  attempts [] log w = attempt none (λ log' w'. ((err cli_timeout, log'), w')) log w
  attempts (pause ∷ pauses) log w = attempt (some pause) (attempts pauses) log w

abbrev pub output_of : Runs → Result CliError Text × List Completed
output_of (ok result, log) = (ok result.stdout, log)
output_of (err e, log) = (err e, log)

-- `check --json` may exit with one and metadata.
abbrev pub is_accepted : List Text → Completed → Bool
is_accepted arguments result =
    result.returncode ==ℤ pos 0
    || (is_check arguments
        && result.returncode ==ℤ pos 1
        && starts_with (lstrip is_space result.stdout) (codes "{"))

-- The result of a command that is not an upload.
abbrev pub accepted : List Text → Result CliError Completed → Result CliError Text × List Completed
accepted arguments (err e) = (err e, [])
accepted arguments (ok result) =
    if is_accepted arguments result
    then (ok result.stdout, result ∷ [])
    else (err (command_failed result.returncode), result ∷ [])

module _ {W : Type 0} (cli : Cli W) (arguments : List Text) where
  abbrev pub upload : ℕ → W → (Result CliError Text × List Completed) × W
  upload start w =
      let (runs, w1) = attempts cli arguments (start + budget) delays [] w in (output_of runs, w1)

  abbrev pub call : Result CliError Completed × W → (Result CliError Text × List Completed) × W
  call (result, w) = (accepted arguments result, w)

  abbrev pub other_command : ℕ → W → (Result CliError Text × List Completed) × W
  other_command start w =
      let (t, w1) = cli.now w in
      if leb (start + budget) t
      then ((err cli_timeout, []), w1)
      else call (cli.run arguments budget w1)

  -- The output, the runs that completed, and the world.
  unfoldable pub run_cli : W → (Result CliError Text × List Completed) × W
  unfolding attempts attempt after_run after_failure same_texts starts_with lstrip is_space
  run_cli w =
      let (start, w1) = cli.now w in
      if is_upload arguments then upload start w1 else other_command start w1
