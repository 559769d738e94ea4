-- ===== src/Tests/Retries.antt =====
-- `execute` of tool/pub_get_retry.py at a concrete command, which fails once.
use xfl_clash.Prelude.{
  ℕ, ◌+◌, ◌≡◌, ◌≢◌, refl, true, [], ◌∷◌, some, ltb, if◌then◌else◌, codes, arith,
}
use xfl_clash.Prelude.Int.{pos}
use xfl_clash.Retry.{Attempt, exited, Runner, Limits, success, endless, execute}
use xfl_clash.Retry.Sound.{IsSound, execute-IsSound}
use xfl_clash.Retry.Waiting.{Clock, execute-ends}

abbrev unreachable : Attempt
unreachable = record {
  reason = exited;
  exit_code = some (pos 1);
  cleanup_succeeded = true;
  network = codes "dns" ∷ [];
  permanent = [];
}

abbrev complete : Attempt
complete = record {
  reason = exited;
  exit_code = some (pos 0);
  cleanup_succeeded = true;
  network = [];
  permanent = [];
}

-- The world is the clock; the network is back after five seconds.
abbrev machine : Runner ℕ
machine = record {
  now = λ t. (t, t);
  sleep = λ d t. t + d;
  signal = λ t. (0, t);
  attempt = λ budget t. (if ltb t 5 then unreachable else complete, t + 1);
  tick = 3;
}

abbrev limits : Limits
limits = record {
  attempts = 3;
  attempt_timeout = 300;
  total_timeout = 720;
  first_delay = 10;
  later_delays = 30 ∷ [];
}

execute_run :
    (execute machine limits 0).0
    ≡ record { outcome = success; exit_code = pos 0; attempts = unreachable ∷ complete ∷ [] }
unfolding execute
execute_run = refl

execute-IsSound_example : IsSound 3 (execute machine limits 0).0
execute-IsSound_example = execute-IsSound machine limits 0

machine-Clock : Clock machine (λ t. t)
machine-Clock = record {
  reads = λ w. refl;
  now_passes = λ w. omega arith;
  signal_passes = λ w. omega arith;
  sleep_passes = λ d w. omega arith;
  steps = omega arith;
}

execute-ends_example : (execute machine limits 0).0.outcome ≢ endless
execute-ends_example = execute-ends machine limits (λ t. t) machine-Clock 0
