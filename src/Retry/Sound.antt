-- ===== src/Retry/Sound.antt =====
-- What a run of `execute` shows, tool/pub_get_retry.py.
use xfl_clash.Prelude.{
  not-false, ℕ, zero, suc, ◌+◌, ◌-◌, ◌≤◌, Bool, true, false, not, ◌||◌, Option, none, some, List,
  [], ◌∷◌, ◌++◌, ◌≡◌, ◌≢◌, ◌↔◌, ◌⊎◌, inl, inr, refl, leb, ◌==◌, if◌then◌else◌, min, length, All,
  All-append, length-append, Bool-cases, arith, or_false,
}
use xfl_clash.Prelude.Int.{ℤ, pos, negsuc}
use xfl_clash.Retry.{
  Attempt, Outcome, failed, cancelled, budget_exhausted, cleanup_failed, process_crash, success,
  endless, Run, Runner, Limits, is_exit, is_retryable, is_cancelled, is_timeout, is_zero_code,
  crash_of, failure_code, code_or_one, crash_or, code_ending, Ending, crashed, succeeded, not_done,
  ending_of, clamp, stop, paused, wait_and_retry, after_ending, judge, turn, turns, execute,
  delay_at,
}

-- An attempt after which another one was made.
pub record Retried (item : Attempt) : Type 0 where
  pub retryable : is_retryable item ≡ true
  pub cleaned : item.cleanup_succeeded ≡ true

pub record Succeeded (item : Attempt) : Type 0 where
  pub ended : is_exit item.reason ≡ true
  pub code : is_zero_code item.exit_code ≡ true
  pub cleaned : item.cleanup_succeeded ≡ true

-- Every attempt but the last was followed by another, and in a successful run the last succeeded.
abbrev pub Earlier : List Attempt → Type 0
Earlier [] = Unit
Earlier (x ∷ []) = Unit
Earlier (x ∷ y ∷ ys) = Retried x × Earlier (y ∷ ys)

abbrev pub LastSucceeded : List Attempt → Type 0
LastSucceeded [] = ⊥
LastSucceeded (x ∷ []) = Succeeded x
LastSucceeded (x ∷ y ∷ ys) = LastSucceeded (y ∷ ys)

pub record IsSound (limit : ℕ) (run : Run) : Type 0 where
  pub earlier : Earlier run.attempts
  pub count : length run.attempts ≤ limit
  pub last : (run.outcome ≢ success) ⊎ LastSucceeded run.attempts
  pub code : (clamp run.exit_code ≡ 0) ↔ (run.outcome ≡ success)
  pub byte : clamp run.exit_code ≤ 255

Earlier-All : (xs : List Attempt) → All Retried xs → Earlier xs
Earlier-All [] h = tt
Earlier-All (x ∷ []) h = tt
Earlier-All (x ∷ y ∷ ys) (r, rs) = (r, Earlier-All (y ∷ ys) rs)

Earlier-snoc : (xs : List Attempt) (a : Attempt) → All Retried xs → Earlier (xs ++ (a ∷ []))
Earlier-snoc [] a h = tt
Earlier-snoc (x ∷ []) a (r, _) = (r, tt)
Earlier-snoc (x ∷ y ∷ ys) a (r, rs) = (r, Earlier-snoc (y ∷ ys) a rs)

LastSucceeded-snoc :
    (xs : List Attempt) (a : Attempt) → Succeeded a → LastSucceeded (xs ++ (a ∷ []))
LastSucceeded-snoc [] a s = s
LastSucceeded-snoc (x ∷ []) a s = s
LastSucceeded-snoc (x ∷ y ∷ ys) a s = LastSucceeded-snoc (y ∷ ys) a s

clamp-byte : (c : ℤ) → clamp c ≤ 255
unfolding clamp
clamp-byte (pos zero) = omega arith
clamp-byte (pos (suc n)) = omega arith
clamp-byte (negsuc n) = omega arith

clamp-pos : (n : ℕ) → 1 ≤ n → 1 ≤ clamp (pos n)
unfolding clamp
clamp-pos zero h = omega arith
clamp-pos (suc n) h = omega arith

code_or_one-IsNonzero : (c : Option ℤ) → 1 ≤ clamp (code_or_one c)
unfolding clamp
code_or_one-IsNonzero none = omega arith
code_or_one-IsNonzero (some (pos zero)) = omega arith
code_or_one-IsNonzero (some (pos (suc n))) = omega arith
code_or_one-IsNonzero (some (negsuc n)) = omega arith

failure_code-IsNonzero : (item : Attempt) → 1 ≤ clamp (failure_code item)
unfolding failure_code clamp
failure_code-IsNonzero item = elim (Bool-cases (is_timeout item.reason)) [
  | inl t ↦ rw t (omega arith)
  | inr f ↦ rw f (code_or_one-IsNonzero item.exit_code)
]

carried :
    (o' : Outcome) (d' : ℤ) (o : Outcome) (d : ℤ)
    → o' ≢ success
    → 1 ≤ clamp d'
    → ◌≡◌ {A = Option (Outcome × ℤ)} (some (o', d')) (some (o, d))
    → (o ≢ success) × (1 ≤ clamp d)
carried o' d' o d n p h =
    let same : o' ≡ o = cc in let code : d' ≡ d = cc in (rw same at n, rw code at p)

crash_of-IsNonzero :
    (c : ℤ) (o : Outcome) (d : ℤ) → crash_of c ≡ some (o, d) → (o ≢ success) × (1 ≤ clamp d)
unfolding crash_of
crash_of-IsNonzero (negsuc n) o d h = elim (Bool-cases (n == 1 || n == 14)) [
  | inl t ↦
      carried cancelled (pos (129 + n)) o d (λ e. cc) (clamp-pos (129 + n) (omega arith))
        (rw t at h)
  | inr f ↦
      carried process_crash (pos (129 + n)) o d (λ e. cc) (clamp-pos (129 + n) (omega arith))
        (rw f at h)
]
crash_of-IsNonzero (pos n) o d h = elim (Bool-cases (n == 130 || n == 143)) [
  | inl t ↦ carried cancelled (pos n) o d (λ e. cc) (clamp-pos n (ground arith)) (rw t at h)
  | inr f ↦ elim (Bool-cases (leb 0x80000000 n)) [
    | inl big ↦
        carried process_crash (pos n) o d (λ e. cc) (clamp-pos n (ground arith)) (rw (f, big) at h)
    | inr small ↦
        let none_at : ◌≡◌ {A = Option (Outcome × ℤ)} none (some (o, d)) = rw (f, small) at h in cc
  ]
]

-- A run that was left without success.
stopped :
    (limit : ℕ) (o : Outcome) (c : ℤ) (items : List Attempt)
    → o ≢ success
    → 1 ≤ clamp c
    → Earlier items
    → length items ≤ limit
    → IsSound limit (record { outcome = o; exit_code = c; attempts = items })
stopped limit o c items n p e l = record {
  earlier = e;
  count = l;
  last = inl n;
  code = (λ z. ground arith, λ s. elim (n s) [ ]);
  byte = clamp-byte c;
}

clamp_zero : clamp (pos 0) ≡ 0
unfolding clamp
clamp_zero = refl

crash_or-succeeded : (b : Bool) (m : Option (Outcome × ℤ)) → crash_or b m ≡ succeeded → b ≡ true
crash_or-succeeded b (some (o, c)) h = cc
crash_or-succeeded true none h = refl
crash_or-succeeded false none h = cc

pub crash_or-crashed :
    (b : Bool) (m : Option (Outcome × ℤ)) (o : Outcome) (d : ℤ)
    → crash_or b m ≡ crashed o d
    → m ≡ some (o, d)
crash_or-crashed b (some (o', c)) o d h = cc
crash_or-crashed true none o d h = cc
crash_or-crashed false none o d h = cc

code_ending-succeeded : (c : Option ℤ) → code_ending c ≡ succeeded → is_zero_code c ≡ true
code_ending-succeeded none h = cc
code_ending-succeeded (some c) h = crash_or-succeeded (is_zero_code (some c)) (crash_of c) h

code_ending-crashed :
    (c : Option ℤ) (o : Outcome) (d : ℤ)
    → code_ending c ≡ crashed o d
    → (o ≢ success) × (1 ≤ clamp d)
code_ending-crashed none o d h = cc
code_ending-crashed (some c) o d h =
    crash_of-IsNonzero c o d (crash_or-crashed (is_zero_code (some c)) (crash_of c) o d h)

ending_of-Succeeded :
    (item : Attempt) → ending_of item ≡ succeeded → item.cleanup_succeeded ≡ true → Succeeded item
unfolding ending_of
ending_of-Succeeded item h c = elim (Bool-cases (is_exit item.reason)) [
  | inl e ↦ record {
    ended = e;
    code = code_ending-succeeded item.exit_code (rw e at h);
    cleaned = c;
  }
  | inr f ↦ let other : not_done ≡ succeeded = rw f at h in cc
]

ending_of-IsNonzero :
    (item : Attempt) (o : Outcome) (d : ℤ)
    → ending_of item ≡ crashed o d
    → (o ≢ success) × (1 ≤ clamp d)
unfolding ending_of
ending_of-IsNonzero item o d h = elim (Bool-cases (is_exit item.reason)) [
  | inl e ↦ code_ending-crashed item.exit_code o d (rw e at h)
  | inr f ↦ let other : not_done ≡ crashed o d = rw f at h in cc
]

module _ {W : Type 0} (runner : Runner W) (limits : Limits) where
  module _ (again : List Attempt → W → Run × W) (items : List Attempt) (item : Attempt)
      (before : All Retried items) (fits : length items + 1 ≤ limits.attempts)
      (later : Retried item
        → (w : W) → IsSound limits.attempts (again (items ++ (item ∷ [])) w).0) where
    abbrev reached : List Attempt
    reached = items ++ (item ∷ [])

    stop_here :
        (o : Outcome) (c : ℤ) (w : W)
        → o ≢ success
        → 1 ≤ clamp c
        → IsSound limits.attempts (stop runner limits o c reached w).0
    stop_here o c w n p =
        stopped limits.attempts o c reached n p (Earlier-snoc items item before)
          (rw (length-append items (item ∷ [])) fits)

    paused-IsSound :
        Retried item
        → (p : Bool × W) → IsSound limits.attempts (paused runner limits again reached p).0
    paused-IsSound r (true, w) = later r w
    paused-IsSound r (false, w) = stop_here endless (pos 1) w (λ e. cc) (clamp-pos 1 (omega arith))

    wait_and_retry-IsSound :
        Retried item
        → (start delay : ℕ) (w : W)
        → IsSound limits.attempts (wait_and_retry runner limits again start delay reached w).0
    unfolding wait_and_retry
    wait_and_retry-IsSound r start delay w =
        let (time, w1) = runner.now w in
        elim (Bool-cases (leb limits.total_timeout (time - start + delay))) [
          | inl over ↦
              rw over
                (stop_here budget_exhausted (pos 124) w1 (λ e. cc) (clamp-pos 124 (omega arith)))
          | inr left ↦ rw left (paused-IsSound r _)
        ]

    after_ending-IsSound :
        (start index : ℕ) (is_last : Bool) (e : Ending) (w : W)
        → ending_of item ≡ e
        → item.cleanup_succeeded ≡ true
        → IsSound limits.attempts
            (after_ending runner limits again start index is_last reached item e w).0
    unfolding after_ending
    after_ending-IsSound start index is_last (crashed o d) w h c =
        let (n, p) = ending_of-IsNonzero item o d h in stop_here o d w n p
    after_ending-IsSound start index is_last succeeded w h c = record {
      earlier = Earlier-snoc items item before;
      count = rw (length-append items (item ∷ [])) fits;
      last = inr (LastSucceeded-snoc items item (ending_of-Succeeded item h c));
      code = (λ z. refl, λ s. clamp_zero);
      byte = clamp-byte (pos 0);
    }
    after_ending-IsSound start index is_last not_done w h c =
        elim (Bool-cases (not (is_retryable item) || is_last)) [
          | inl end ↦
              rw end
                (stop_here failed (failure_code item) w (λ e. cc) (failure_code-IsNonzero item))
          | inr on ↦ rw on (
              wait_and_retry-IsSound
                (record {
                  retryable =
                      not-false (is_retryable item)
                        (or_false (not (is_retryable item)) is_last on).0;
                  cleaned = c;
                })
                start (delay_at limits.first_delay limits.later_delays index) w)
        ]

    judge-IsSound :
        (start index : ℕ) (is_last : Bool) (w : W)
        → IsSound limits.attempts (judge runner limits again start index is_last reached item w).0
    unfolding judge
    judge-IsSound start index is_last w = elim (Bool-cases item.cleanup_succeeded) [
      | inr dirty ↦
          simp dirty (stop_here cleanup_failed (pos 125) w (λ e. cc) (clamp-pos 125 (omega arith)))
      | inl clean ↦ simp clean (
          let (signal, w1) = runner.signal w in
          elim (Bool-cases (not (signal == 0) || is_cancelled item.reason)) [
            | inl end ↦ rw end (
                let (last, w2) = runner.signal w1 in
                stop_here cancelled (pos (128 + (if last == 0 then 2 else last))) w2 (λ e. cc)
                  (clamp-pos (128 + (if last == 0 then 2 else last)) (omega arith)))
            | inr on ↦
                rw on (after_ending-IsSound start index is_last (ending_of item) w1 refl clean)
          ])
    ]

  turn-IsSound :
      (again : List Attempt → W → Run × W) (items : List Attempt)
      → All Retried items
      → length items + 1 ≤ limits.attempts
      → ((item : Attempt)
          → Retried item
          → (w : W) → IsSound limits.attempts (again (items ++ (item ∷ [])) w).0)
      → (start index : ℕ) (is_last : Bool) (w : W)
      → IsSound limits.attempts (turn runner limits again start index is_last items w).0
  unfolding turn
  turn-IsSound again items before fits later start index is_last w =
      let (signal, w1) = runner.signal w in
      elim (Bool-cases (not (signal == 0))) [
        | inl end ↦ rw end (
            let (last, w2) = runner.signal w1 in
            early cancelled (pos (128 + last)) (λ e. cc) (clamp-pos (128 + last) (omega arith)))
        | inr on ↦ rw on (
            let (time, w2) = runner.now w1 in
            elim (Bool-cases (leb limits.total_timeout (time - start))) [
              | inl over ↦
                  rw over (early budget_exhausted (pos 124) (λ e. cc) (clamp-pos 124 (omega arith)))
              | inr left ↦ rw left (
                  let (item, w3) =
                    runner.attempt
                      (min limits.attempt_timeout (limits.total_timeout - (time - start))) w2 in
                  judge-IsSound again items item before fits (later item) start index is_last w3)
            ])
      ]
    where
      early :
          (o : Outcome) (c : ℤ)
          → o ≢ success
          → 1 ≤ clamp c
          → IsSound limits.attempts (record { outcome = o; exit_code = c; attempts = items })
      early o c n p =
          stopped limits.attempts o c items n p (Earlier-All items before) (omega (arith, fits))

  turns-IsSound :
      (left start index : ℕ) (items : List Attempt) (w : W)
      → All Retried items
      → length items + left ≤ limits.attempts
      → IsSound limits.attempts (turns runner limits left start index items w).0
  unfolding turns
  turns-IsSound zero start index items w before fits =
      stopped limits.attempts failed (pos 1) items (λ e. cc) (clamp-pos 1 (omega arith))
        (Earlier-All items before) (omega (arith, fits))
  turns-IsSound (suc left) start index items w before fits =
      turn-IsSound (turns runner limits left start (index + 1)) items before (omega (arith, fits))
        (λ item r w'.
          turns-IsSound left start (index + 1) (items ++ (item ∷ [])) w'
            (All-append Retried items (item ∷ []) before (r, tt))
            (omega (arith, length-append items (item ∷ []), fits)))
        start index (left == 0) w

  -- A run makes at most the number of attempts that is set. Each attempt but the last cleaned up
  -- its processes and ended by a network failure or a timeout with no permanent diagnostic. The
  -- exit status is at most 255, and is zero exactly when the outcome is success; then the last
  -- attempt exited with status zero and cleaned up.
  pub execute-IsSound : (w : W) → IsSound limits.attempts (execute runner limits w).0
  unfolding execute
  execute-IsSound w =
      let (start, w') = runner.now w in turns-IsSound limits.attempts start 0 [] w' tt (omega arith)
