-- ===== src/Retry/Waiting.antt =====
-- The pauses of `execute` end, tool/pub_get_retry.py.
use xfl_clash.Prelude.{
  ℕ, zero, suc, ◌+◌, ◌-◌, ◌≤◌, ◌<◌, Bool, true, false, not, ◌||◌, List, [], ◌∷◌, ◌++◌, ◌≡◌, ◌≢◌,
  refl, leb, ◌==◌, min, Bool-cases, arith, Option, some, none,
}
use xfl_clash.Prelude.Int.{ℤ, pos, negsuc}
use xfl_clash.Retry.{
  Attempt, Outcome, cancelled, process_crash, endless, Run, Runner, Limits, is_retryable,
  is_cancelled, Ending, crashed, succeeded, not_done, ending_of, pause, paused, wait_and_retry,
  after_ending, judge, turn, turns, execute, delay_at,
}
use xfl_clash.Prelude.{inl, inr}
use xfl_clash.Retry.{crash_of, code_ending, is_zero_code, is_exit}
use xfl_clash.Retry.Sound.{crash_or-crashed}

-- A monotonic clock: no call sets it back, and a sleep lasts as long as it was asked to.
pub record Clock {W : Type 0} (runner : Runner W) (time_of : W → ℕ) : Type 0 where
  pub reads : (w : W) → (runner.now w).0 ≡ time_of w
  pub now_passes : (w : W) → time_of w ≤ time_of (runner.now w).1
  pub signal_passes : (w : W) → time_of w ≤ time_of (runner.signal w).1
  pub sleep_passes : (d : ℕ) (w : W) → time_of w + d ≤ time_of (runner.sleep d w)
  pub steps : 1 ≤ runner.tick

carried :
    (o' : Outcome) (d' : ℤ) (o : Outcome) (d : ℤ)
    → o' ≢ endless
    → ◌≡◌ {A = Option (Outcome × ℤ)} (some (o', d')) (some (o, d))
    → o ≢ endless
carried o' d' o d n h = let same : o' ≡ o = cc in rw same at n

crash_of-ends : (c : ℤ) (o : Outcome) (d : ℤ) → crash_of c ≡ some (o, d) → o ≢ endless
unfolding crash_of
crash_of-ends (negsuc n) o d h = elim (Bool-cases (n == 1 || n == 14)) [
  | inl t ↦ carried cancelled (pos (129 + n)) o d (λ e. cc) (rw t at h)
  | inr f ↦ carried process_crash (pos (129 + n)) o d (λ e. cc) (rw f at h)
]
crash_of-ends (pos n) o d h = elim (Bool-cases (n == 130 || n == 143)) [
  | inl t ↦ carried cancelled (pos n) o d (λ e. cc) (rw t at h)
  | inr f ↦ elim (Bool-cases (leb 0x80000000 n)) [
    | inl big ↦ carried process_crash (pos n) o d (λ e. cc) (rw (f, big) at h)
    | inr small ↦
        let none_at : ◌≡◌ {A = Option (Outcome × ℤ)} none (some (o, d)) = rw (f, small) at h in cc
  ]
]

code_ending-ends : (c : Option ℤ) (o : Outcome) (d : ℤ) → code_ending c ≡ crashed o d → o ≢ endless
code_ending-ends none o d h = cc
code_ending-ends (some c) o d h =
    crash_of-ends c o d (crash_or-crashed (is_zero_code (some c)) (crash_of c) o d h)

ending_of-ends : (item : Attempt) (o : Outcome) (d : ℤ) → ending_of item ≡ crashed o d → o ≢ endless
unfolding ending_of
ending_of-ends item o d h = elim (Bool-cases (is_exit item.reason)) [
  | inl e ↦ code_ending-ends item.exit_code o d (rw e at h)
  | inr f ↦ let other : not_done ≡ crashed o d = rw f at h in cc
]

module _ {W : Type 0} (runner : Runner W) (limits : Limits) (time_of : W → ℕ)
    (clock : Clock runner time_of) where
  pause-ends :
      (rounds until : ℕ) (w : W)
      → until - time_of w < rounds
      → (pause runner limits rounds until w).0 ≡ true
  unfolding pause
  pause-ends zero until w h = ground (arith, h)
  pause-ends (suc rounds) until w h =
      let (time, w1) = runner.now w in
      elim (Bool-cases (leb until time)) [
        | inl done ↦ rw (done, pause) refl
        | inr early ↦
            rw (early, pause)
              (let (signal, w2) = runner.signal w1 in
                elim (Bool-cases (signal == 0)) [
                  | inr set ↦ rw set refl
                  | inl unset ↦ rw unset (
                      let (later, w3) = runner.now w2 in
                      pause-ends rounds until (runner.sleep (min runner.tick (until - later)) w3) (
                        ground (
                          arith,
                          h,
                          early,
                          clock.reads w,
                          clock.now_passes w,
                          clock.signal_passes w1,
                          clock.reads w2,
                          clock.now_passes w2,
                          clock.sleep_passes (min runner.tick (until - later)) w3,
                          clock.steps,
                        )))
                ])
      ]

  abbrev Ends : Run → Type 0
  Ends run = run.outcome ≢ endless

  wait_and_retry-Ends :
      (again : List Attempt → W → Run × W) (start delay : ℕ) (items : List Attempt) (w : W)
      → ((w' : W) → Ends (again items w').0)
      → Ends (wait_and_retry runner limits again start delay items w).0
  unfolding wait_and_retry
  wait_and_retry-Ends again start delay items w k =
      let (time, w1) = runner.now w in
      elim (Bool-cases (leb limits.total_timeout (time - start + delay))) [
        | inl over ↦ rw over (λ e. cc)
        | inr left ↦ rw left (
            let (from, w2) = runner.now w1 in
            paused-Ends (pause runner limits (delay + 1) (from + delay) w2) (
              pause-ends (delay + 1) (from + delay) w2
                (omega (arith, clock.reads w1, clock.now_passes w1))))
      ]
    where
      paused-Ends : (p : Bool × W) → p.0 ≡ true → Ends (paused runner limits again items p).0
      paused-Ends (true, w') h = k w'
      paused-Ends (false, w') h = cc

  after_ending-Ends :
      (again : List Attempt → W → Run × W) (start index : ℕ) (is_last : Bool) (items : List Attempt)
      (item : Attempt) (e : Ending) (w : W)
      → ending_of item ≡ e
      → ((w' : W) → Ends (again items w').0)
      → Ends (after_ending runner limits again start index is_last items item e w).0
  unfolding after_ending
  after_ending-Ends again start index is_last items item (crashed o d) w h k =
      ending_of-ends item o d h
  after_ending-Ends again start index is_last items item succeeded w h k = λ e. cc
  after_ending-Ends again start index is_last items item not_done w h k =
      elim (Bool-cases (not (is_retryable item) || is_last)) [
        | inl end ↦ rw end (λ e. cc)
        | inr on ↦ rw on (
            wait_and_retry-Ends again start (delay_at limits.first_delay limits.later_delays index)
              items w k)
      ]

  judge-Ends :
      (again : List Attempt → W → Run × W) (start index : ℕ) (is_last : Bool) (items : List Attempt)
      (item : Attempt) (w : W)
      → ((w' : W) → Ends (again items w').0)
      → Ends (judge runner limits again start index is_last items item w).0
  unfolding judge
  judge-Ends again start index is_last items item w k = elim (Bool-cases item.cleanup_succeeded) [
    | inr dirty ↦ simp dirty (λ e. cc)
    | inl clean ↦ simp clean (
        let (signal, w1) = runner.signal w in
        elim (Bool-cases (not (signal == 0) || is_cancelled item.reason)) [
          | inl end ↦ rw end (λ e. cc)
          | inr on ↦
              rw on
                (after_ending-Ends again start index is_last items item (ending_of item) w1 refl k)
        ])
  ]

  turns-Ends :
      (left start index : ℕ) (items : List Attempt) (w : W)
      → Ends (turns runner limits left start index items w).0
  unfolding turns turn
  turns-Ends zero start index items w = λ e. cc
  turns-Ends (suc left) start index items w =
      let (signal, w1) = runner.signal w in
      elim (Bool-cases (not (signal == 0))) [
        | inl end ↦ rw end (λ e. cc)
        | inr on ↦ rw on (
            let (time, w2) = runner.now w1 in
            elim (Bool-cases (leb limits.total_timeout (time - start))) [
              | inl over ↦ rw over (λ e. cc)
              | inr early ↦ rw early (
                  let (item, w3) =
                    runner.attempt
                      (min limits.attempt_timeout (limits.total_timeout - (time - start))) w2 in
                  judge-Ends (turns runner limits left start (index + 1)) start index (left == 0)
                    (items ++ (item ∷ [])) item w3
                    (λ w'. turns-Ends left start (index + 1) (items ++ (item ∷ [])) w'))
            ])
      ]

  -- On a monotonic clock, with sleeps that last as long as asked, every pause of a run ends.
  pub execute-ends : (w : W) → (execute runner limits w).0.outcome ≢ endless
  unfolding execute
  execute-ends w = let (start, w') = runner.now w in turns-Ends limits.attempts start 0 [] w'
