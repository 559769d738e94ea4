-- ===== src/RustDebug/Verdict.antt =====
-- The result of `contains_rust_debug` of tool/prepare_sentry_macos_symbols.py, as its caller sees it.
use xfl_clash.Prelude.{
  ℕ, ◌≤◌, Bool, true, false, not, ◌&&◌, Option, some, [], ◌≡◌, ◌≢◌, refl, sym, ap, ◌∙◌, inl, inr,
  leb, ◌==◌, Text, any, length, take, ◌*◌, Bool-cases, Result, ok, err, arith,
}
use xfl_clash.Prelude.Int.{ℤ, pos, negsuc}
use mathlib.Core.Path.{subst}
use xfl_clash.Binary.{Bytes}
use xfl_clash.RustDebug.{
  max_output, max_line, is_attribute, Progress, Pipe, State, Ending, hit, drained, stopped,
  read_loop, Exit, exited, running, waited, completed, after_loop, first_progress, first_state,
  Raised, prepared, wait, selector, Child, Failure, unsupported_rust_debug_architecture, ended_by,
  macos_rust_dwarfdump_failed, Kind, failure_of, cleaned, observe, is_supported,
  contains_rust_debug,
}
use xfl_clash.RustDebug.Lines.{lines, extended-[], scan, scan-lines}
use xfl_clash.RustDebug.Scan.{
  take-short, IsBetween, remaining, output, IsWhole, Says, read_loop-Says,
}

short_line : (n : ℕ) (b : Bool) → n ≤ max_line → b ≡ (leb n max_line && b)
short_line n b h = ground (arith, h)

zero_of : (n : ℕ) → (n == 0) ≡ true → n ≡ 0
zero_of n h = ground (arith, h)

nonzero_of : (n : ℕ) → (n == 0) ≡ false → n ≢ 0
nonzero_of n h = λ e. ground (arith, h, e)

abbrev number : Exit → ℕ
number (exited (pos n)) = n
number (exited (negsuc n)) = 0
number running = 0

-- A result that is no failure passed each part of the cleanup.
cleanup_ok :
    (stop : Result Raised (Unit {0})) (code : Option ℤ) (close : Result (Kind × Bool) (Unit {0}))
    (o : Result Raised Bool × State) (b : Bool)
    → (let end = ended_by stop code close o in
        end.0 ≡ ok b → (o.0 ≡ ok b) × (end.1.cleanup ≡ cleaned) × (end.1.pipe_closed ≡ true))
cleanup_ok (ok s) code (ok c) (ok b', state) b h = (ap unread h, refl, refl)
  where
    unread : Result Failure Bool → Result Raised Bool
    unread (ok x) = ok x
    unread (err e) = err (prepared e)
cleanup_ok (ok s) code (ok c) (err e, state) b h = cc
cleanup_ok (ok s) code (err (k, closed)) (ok b', state) b h = cc
cleanup_ok (ok s) code (err (k, closed)) (err e, state) b h = cc
cleanup_ok (err x) code (ok c) (ok b', state) b h = cc
cleanup_ok (err x) code (ok c) (err e, state) b h = cc
cleanup_ok (err x) code (err (k, closed)) (ok b', state) b h = cc
cleanup_ok (err x) code (err (k, closed)) (err e, state) b h = cc

-- A cleanup without exceptions keeps the result.
kept :
    (code : Option ℤ) (o : Result Raised Bool × State) (b : Bool)
    → o.0 ≡ ok b
    → (ended_by (ok tt) code (ok tt) o).0 ≡ ok b
kept code (ok b', state) b h = ap unread h
  where
    unread : Result Raised Bool → Result Failure Bool
    unread (ok x) = ok x
    unread (err e) = err (failure_of e)
kept code (err e, state) b h = cc

module _ (is_rust : Bytes → Bool) where
  -- Whether a line of an output is the attribute.
  abbrev pub has_attribute : Bytes → Bool
  has_attribute bytes = any (is_attribute is_rust) (lines bytes)

  scan-has_attribute : (s : Bytes) → scan is_rust [] s ≡ has_attribute s
  scan-has_attribute s = scan-lines is_rust [] s ∙ ap (any (is_attribute is_rust)) (extended-[] s)

  -- What the loop and the wait give.
  abbrev pub Judged : Pipe → Exit → Result Raised Bool → Type 0
  Judged pipe exit (ok b) =
      (b ≡ scan is_rust [] (output pipe))
      × (b ≡ scan is_rust [] (take (32 * 1024 * 1024) (output pipe)))
      × (b ≡ false
          → IsWhole pipe × (exit ≡ exited (pos 0)) × (length (output pipe) ≤ 32 * 1024 * 1024))
  Judged pipe exit (err e) =
      length (output pipe) ≤ max_output → IsWhole pipe → exit ≢ exited (pos 0)

  last_line :
      (q : Progress)
      → IsBetween is_rust q
      → (not q.dropping && is_rust q.pending) ≡ remaining is_rust q []
  last_line q between = elim (Bool-cases q.dropping) [
    | inl e ↦ simp e refl
    | inr e ↦ simp e (short_line (length q.pending) (is_rust q.pending) between.short)
  ]

  waited-Judged :
      (exit : Exit) (pipe : Pipe) (q : Progress)
      → IsBetween is_rust q
      → scan is_rust [] (output pipe) ≡ remaining is_rust q []
      → IsWhole pipe
      → length (output pipe) ≤ max_output
      → Judged pipe exit (waited is_rust exit q)
  waited-Judged running pipe q between e whole short = λ _ _ h. cc
  waited-Judged (exited (negsuc n)) pipe q between e whole short = λ _ _ h. cc
  waited-Judged (exited (pos n)) pipe q between e whole short = elim (Bool-cases (n == 0)) [
    | inl z ↦
        rw (z, waited)
          (
            last_line q between ∙ sym e,
            last_line q between
                ∙ (sym e ∙ ap (scan is_rust []) (sym (take-short max_output (output pipe) short))),
            λ _. (whole, ap (λ m. exited (pos m)) (zero_of n z), short),
          )
    | inr z ↦ rw (z, waited) (λ _ _ h. nonzero_of n z (ap number h))
  ]

  completed-Judged :
      (exit : Exit) (pipe : Pipe) (r : Result Raised Bool) (state : State)
      → Judged pipe exit r
      → Judged pipe exit (completed is_rust r state).0
  completed-Judged exit pipe (ok b) state h = h
  completed-Judged exit pipe (err e) state h = h

  after_loop-Judged :
      (exit : Exit) (pipe : Pipe) (o : Ending × Progress × State)
      → Says is_rust pipe first_progress o
      → Judged pipe exit (after_loop is_rust exit o).0
  unfolding after_loop
  after_loop-Judged exit pipe (hit, q, state) h = (sym h.0, sym h.1, λ e. cc)
  after_loop-Judged exit pipe (stopped e, q, state) h =
      λ short whole. elim (h (omega (arith, short)) whole) [ ]
  after_loop-Judged exit pipe (drained, q, state) (between, e, whole, total) =
      completed-Judged exit pipe (waited is_rust exit q) (record state { phase = wait })
        (waited-Judged exit pipe q between e whole (omega (arith, total, between.within)))

  first-IsBetween : IsBetween is_rust first_progress
  first-IsBetween = record {
    within = omega arith;
    short = omega arith;
    begun = λ rest. refl;
    dropped = λ h. refl;
  }

  -- A run that went well in each of its parts.
  pub record IsSmooth (child : Child) : Type 0 where
    pub launched : child.launched ≡ ok tt
    pub whole : IsWhole child.pipe
    pub within : length (output child.pipe) ≤ max_output
    pub exited : child.exit ≡ exited (pos 0)
    pub stopped : child.stop ≡ ok tt
    pub closed : child.close ≡ ok tt

  -- What a result stands for.
  pub record IsProved (child : Child) (b : Bool) (state : State) : Type 0 where
    pub found : b ≡ has_attribute (output child.pipe)
    pub within : b ≡ has_attribute (take (32 * 1024 * 1024) (output child.pipe))
    pub complete :
        b ≡ false
        → IsWhole child.pipe
          × (child.exit ≡ exited (pos 0))
          × (length (output child.pipe) ≤ 32 * 1024 * 1024)
    pub cleaned : state.cleanup ≡ cleaned
    pub closed : state.pipe_closed ≡ true

  -- The run of the `try` statement.
  abbrev ran : Child → State → Result Raised Bool × State
  ran child state = after_loop is_rust child.exit (
      read_loop is_rust child.pipe first_progress
        (record state { process_started = true; phase = selector }))

  ran-Judged : (child : Child) (state : State) → Judged child.pipe child.exit (ran child state).0
  ran-Judged child state =
      after_loop-Judged child.exit child.pipe _
        (read_loop-Says is_rust child.pipe first_progress _ first-IsBetween)

  proved :
      (child : Child) (r : Result Raised Bool) (b : Bool)
      → r ≡ ok b
      → Judged child.pipe child.exit r
      → (b ≡ has_attribute (output child.pipe))
        × (b ≡ has_attribute (take (32 * 1024 * 1024) (output child.pipe)))
        × (b ≡ false
            → IsWhole child.pipe
              × (child.exit ≡ exited (pos 0))
              × (length (output child.pipe) ≤ 32 * 1024 * 1024))
  proved child r b e j =
      let (same, cut, whole) = subst (Judged child.pipe child.exit) e j in
      (
        same ∙ scan-has_attribute (output child.pipe),
        cut ∙ scan-has_attribute (take (32 * 1024 * 1024) (output child.pipe)),
        whole,
      )

  observe-IsProved :
      (child : Child) (launched : Result Kind (Unit {0})) (state : State) (b : Bool)
      → (observe is_rust child launched state).0 ≡ ok b
      → IsProved child b (observe is_rust child launched state).1
  unfolding observe
  observe-IsProved child (err k) state b h =
      (let no : err macos_rust_dwarfdump_failed ≡ ok b = h in cc)
  observe-IsProved child (ok u) state b h =
      let (good, done, closed) =
        cleanup_ok child.stop child.returncode child.close (ran child state) b h in
      let (same, cut, whole) = proved child (ran child state).0 b good (ran-Judged child state) in
      record { found = same; within = cut; complete = whole; cleaned = done; closed = closed }

  ran-smooth :
      (child : Child) (r : Result Raised Bool)
      → IsSmooth child
      → Judged child.pipe child.exit r
      → r ≡ ok (has_attribute (output child.pipe))
  ran-smooth child (ok b) smooth h = ap ok (proved child (ok b) b refl h).0
  ran-smooth child (err e) smooth h = elim (h smooth.within smooth.whole smooth.exited) [ ]

  observe-smooth :
      (child : Child) (state : State)
      → IsSmooth child
      → (observe is_rust child child.launched state).0 ≡ ok (has_attribute (output child.pipe))
  unfolding observe
  observe-smooth child state smooth =
      ap (λ l. (observe is_rust child l state).0) smooth.launched
      ∙ (ap (λ x. (ended_by x child.returncode child.close (ran child state)).0) smooth.stopped
          ∙ (ap (λ x. (ended_by (ok tt) child.returncode x (ran child state)).0) smooth.closed
              ∙ kept child.returncode (ran child state) (has_attribute (output child.pipe))
                  (ran-smooth child (ran child state).0 smooth (ran-Judged child state))))

  -- A result of contains_rust_debug that is no exception is right for the output of the pipe, up to
  -- its end or a read that fails, and also for the first 32 MiB of it alone, and then the process
  -- was stopped and the pipe closed. Where the result is false, the output was read to its end, is
  -- at most 32 MiB long, and the process exited with zero.
  pub contains_rust_debug-IsProved :
      (child : Child) (architecture : Option Text) (b : Bool)
      → (contains_rust_debug is_rust child architecture).0 ≡ ok b
      → (state : State) × ((contains_rust_debug is_rust child architecture).1 ≡ some state)
        × IsProved child b state
  unfolding contains_rust_debug
  contains_rust_debug-IsProved child architecture b h =
      elim (Bool-cases (is_supported architecture)) [
        | inr e ↦ (let no : err unsupported_rust_debug_architecture ≡ ok b = simp e at h in cc)
        | inl e ↦ simp e (
          (observe is_rust child child.launched (first_state architecture)).1,
          refl,
          observe-IsProved child child.launched (first_state architecture) b (simp e at h),
        )
      ]

  -- Whatever the chunks are in which the output comes, contains_rust_debug gives what a search of
  -- all its lines gives: whether one of at most 65536 bytes is the attribute. For this the
  -- architecture is supported, the output is at most 32 MiB and is read to its end, the process
  -- exits with zero, and nothing raises.
  pub contains_rust_debug-has_attribute :
      (child : Child) (architecture : Option Text)
      → is_supported architecture ≡ true
      → IsSmooth child
      → (contains_rust_debug is_rust child architecture).0 ≡ ok (has_attribute (output child.pipe))
  unfolding contains_rust_debug
  contains_rust_debug-has_attribute child architecture e smooth =
      simp e (observe-smooth child (first_state architecture) smooth)
