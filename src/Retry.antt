-- ===== src/Retry.antt =====
-- `execute` of tool/pub_get_retry.py: a dependency command is tried again after a network failure.
-- The clock, the waiting, the cancellation flag and one attempt are actions on a world.
pub mod Waiting
pub mod Sound
use xfl_clash.Prelude.{
  ℕ, zero, suc, ◌+◌, ◌-◌, Bool, true, false, not, ◌&&◌, ◌||◌, Option, none, some, List, [], ◌∷◌,
  ◌++◌, ltb, leb, ◌==◌, if◌then◌else◌, max, min, Text, ◌≡◌,
}
use xfl_clash.Prelude.Int.{ℤ, pos, negsuc}

-- The `reason` of an attempt.
pub data Reason : Type 0 where
  exited output_limit attempt_cancelled attempt_timeout : Reason
  launch_or_io_error worker_protocol_error : Reason

-- What `execute` reads of an attempt's record.
pub record Attempt : Type 0 where
  pub reason : Reason
  pub exit_code : Option ℤ
  pub cleanup_succeeded : Bool
  pub network : List Text
  pub permanent : List Text

pub data Outcome : Type 0 where
  failed cancelled budget_exhausted cleanup_failed process_crash success : Outcome
  -- The model's own: a pause outlived the rounds that it was granted.
  endless : Outcome

-- How the loop was left, and the records so far.
pub record Run : Type 0 where
  pub outcome : Outcome
  pub exit_code : ℤ
  pub attempts : List Attempt

-- `tick` is the .05 seconds of a pause's step, in the clock's unit.
pub record Runner (W : Type 0) : Type 0 where
  pub now : W → ℕ × W
  pub sleep : ℕ → W → W
  pub signal : W → ℕ × W
  pub attempt : ℕ → W → Attempt × W
  pub tick : ℕ

-- The delays are not empty: a first one, and those that follow.
abbrev pub delay_at : ℕ → List ℕ → ℕ → ℕ
delay_at d [] i = d
delay_at d (e ∷ es) zero = d
delay_at d (e ∷ es) (suc i) = delay_at e es i

pub record Limits : Type 0 where
  pub attempts : ℕ
  pub attempt_timeout : ℕ
  pub total_timeout : ℕ
  pub first_delay : ℕ
  pub later_delays : List ℕ

abbrev pub is_exit : Reason → Bool
is_exit exited = true
is_exit _ = false

abbrev pub is_cancelled : Reason → Bool
is_cancelled attempt_cancelled = true
is_cancelled _ = false

abbrev pub is_timeout : Reason → Bool
is_timeout attempt_timeout = true
is_timeout _ = false

abbrev pub is_empty {ℓ} : {A : Type ℓ} → List A → Bool
is_empty [] = true
is_empty (x ∷ xs) = false

-- A code that says that a signal, or the system, ended the child; the outcome that it stands for
-- and the code that is passed on.
unfoldable pub crash_of : ℤ → Option (Outcome × ℤ)
crash_of (negsuc n) = some (if n == 1 || n == 14 then cancelled else process_crash, pos (129 + n))
crash_of (pos n) =
    if n == 130 || n == 143
    then some (cancelled, pos n)
    else if leb 0x80000000 n
    then some (process_crash, pos n)
    else none

-- `item['exit_code'] or 1`
abbrev pub code_or_one : Option ℤ → ℤ
code_or_one none = pos 1
code_or_one (some (pos zero)) = pos 1
code_or_one (some (pos (suc n))) = pos (suc n)
code_or_one (some (negsuc n)) = negsuc n

unfoldable pub failure_code : Attempt → ℤ
failure_code item = if is_timeout item.reason then pos 124 else code_or_one item.exit_code

unfoldable pub is_retryable : Attempt → Bool
is_retryable item =
    (is_exit item.reason || is_timeout item.reason)
    && (is_empty item.permanent && (not (is_empty item.network) || is_timeout item.reason))

abbrev pub is_zero_code : Option ℤ → Bool
is_zero_code (some (pos zero)) = true
is_zero_code (some (pos (suc n))) = false
is_zero_code (some (negsuc n)) = false
is_zero_code none = false

-- What an ended child's code means: a crash, success, or a failure.
pub data Ending : Type 0 where
  crashed : Outcome → ℤ → Ending
  succeeded not_done : Ending

abbrev pub crash_or : Bool → Option (Outcome × ℤ) → Ending
crash_or b (some (o, c)) = crashed o c
crash_or true none = succeeded
crash_or false none = not_done

abbrev pub code_ending : Option ℤ → Ending
code_ending none = not_done
code_ending (some c) = crash_or (is_zero_code (some c)) (crash_of c)

unfoldable pub ending_of : Attempt → Ending
ending_of item = if is_exit item.reason then code_ending item.exit_code else not_done

-- `max(1, min(255, exit_code)) if exit_code else 0`
unfoldable pub clamp : ℤ → ℕ
clamp (pos zero) = 0
clamp (pos (suc n)) = max 1 (min 255 (suc n))
clamp (negsuc n) = 1

module _ {W : Type 0} (runner : Runner W) (limits : Limits) where
  -- `while time.monotonic() < until and not cancelled()`; `false` where the rounds ran out.
  pub pause : ℕ → ℕ → W → Bool × W
  pause zero until w = (false, w)
  pause (suc rounds) until w =
      let (time, w1) = runner.now w in
      elim (leb until time) [
        | true ↦ (true, w1)
        | false ↦
            let (signal, w2) = runner.signal w1 in
            elim (signal == 0) [
              | false ↦ (true, w2)
              | true ↦
                  let (later, w3) = runner.now w2 in
                  pause rounds until (runner.sleep (min runner.tick (until - later)) w3)
            ]
      ]

  abbrev pub stop : Outcome → ℤ → List Attempt → W → Run × W
  stop o c items w = (record { outcome = o; exit_code = c; attempts = items }, w)

  abbrev pub paused : (List Attempt → W → Run × W) → List Attempt → Bool × W → Run × W
  paused again items (true, w) = again items w
  paused again items (false, w) = stop endless (pos 1) items w

  -- From the choice of the delay on; `again` is the next turn of the loop.
  pub wait_and_retry : (List Attempt → W → Run × W) → ℕ → ℕ → List Attempt → W → Run × W
  wait_and_retry again start delay items w =
      let (time, w1) = runner.now w in
      if leb limits.total_timeout (time - start + delay)
      then stop budget_exhausted (pos 124) items w1
      else let (from, w2) = runner.now w1 in
        paused again items (pause (delay + 1) (from + delay) w2)

  pub after_ending :
      (List Attempt → W → Run × W) → ℕ → ℕ → Bool → List Attempt → Attempt → Ending → W → Run × W
  after_ending again start index is_last items item (crashed o c) w = stop o c items w
  after_ending again start index is_last items item succeeded w = stop success (pos 0) items w
  after_ending again start index is_last items item not_done w =
      if not (is_retryable item) || is_last
      then stop failed (failure_code item) items w
      else wait_and_retry again start (delay_at limits.first_delay limits.later_delays index) items
          w

  -- What follows an attempt; `items` has its record at the end.
  pub judge : (List Attempt → W → Run × W) → ℕ → ℕ → Bool → List Attempt → Attempt → W → Run × W
  judge again start index is_last items item w =
      if not item.cleanup_succeeded
      then stop cleanup_failed (pos 125) items w
      else let (signal, w1) = runner.signal w in
        if not (signal == 0) || is_cancelled item.reason
        then (let (last, w2) = runner.signal w1 in
            stop cancelled (pos (128 + (if last == 0 then 2 else last))) items w2)
        else after_ending again start index is_last items item (ending_of item) w1

  -- The turn with `index`, with `left` more behind it.
  pub turn : (List Attempt → W → Run × W) → ℕ → ℕ → Bool → List Attempt → W → Run × W
  turn again start index is_last items w =
      let (signal, w1) = runner.signal w in
      if not (signal == 0)
      then (let (last, w2) = runner.signal w1 in stop cancelled (pos (128 + last)) items w2)
      else let (time, w2) = runner.now w1 in
        if leb limits.total_timeout (time - start)
        then stop budget_exhausted (pos 124) items w2
        else let (item, w3) =
            runner.attempt (min limits.attempt_timeout (limits.total_timeout - (time - start)))
              w2 in
          judge again start index is_last (items ++ (item ∷ [])) item w3

  pub turns : ℕ → ℕ → ℕ → List Attempt → W → Run × W
  turns zero start index items w = stop failed (pos 1) items w
  turns (suc left) start index items w =
      turn (turns left start (index + 1)) start index (left == 0) items w

  unfoldable pub execute : W → Run × W
  unfolding turns turn judge after_ending wait_and_retry pause crash_of ending_of is_retryable
      failure_code
  execute w = let (start, w') = runner.now w in turns limits.attempts start 0 [] w'
