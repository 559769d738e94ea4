-- ===== src/Cleanup.antt =====
-- tool/owned_process_cleanup.py: the end of a child process and of the group that it leads. The
-- system calls are actions on a world; times are in milliseconds (the source has seconds).
pub mod Sound
use xfl_clash.Prelude.{
  ℕ, zero, suc, ◌+◌, ◌-◌, ◌*◌, Bool, true, false, not, ◌&&◌, ◌||◌, Option, none, some, List, [],
  ◌∷◌, ◌++◌, ltb, leb, ◌==◌, if◌then◌else◌, max, min, Text, codes, all, any, keep, map, length,
  take, starts_with, strip, is_space, split, all_digits, to_number, Result, ok, err, ◌>>=◌, ◌>>◌,
  raise_if, for_each,
}

pub data Phase : Type 0 where
  guard term_phase kill_phase wait_phase verify_phase complete_phase : Phase

pub data Group : Type 0 where
  gone zombies_only live unknown : Group

pub data Kind : Type 0 where
  permission missing timeout os_error invalid other : Kind

-- `error_row`
pub record Row : Type 0 where
  pub phase : Phase
  pub kind : Kind
  pub errno : Option ℕ

pub record Report : Type 0 where
  pub is_complete : Bool
  pub phase : Phase
  pub group_state : Group
  pub reaped : Bool
  pub permission_race_recovered : Bool
  pub errors : List Row

pub data Signal : Type 0 where
  sigterm sigkill : Signal

-- `os.killpg`: done, no such process, or another error with its number.
pub data Killed : Type 0 where
  sent no_process : Killed
  kill_failed : Kind → ℕ → Killed

pub data Waited : Type 0 where
  ended timed_out : Waited
  wait_failed : Kind → Option ℕ → Waited

pub record System (W : Type 0) : Type 0 where
  pub is_posix : Bool
  pub own_group : W → ℕ
  pub now : W → ℕ × W
  pub killpg : ℕ → Signal → W → Killed × W
  pub wait : ℕ → W → Waited × W
  pub has_returncode : W → Bool
  -- The output of `ps`, or the error that the call raised.
  pub list_processes : ℕ → W → Result (Kind × Option ℕ) Text × W
  pub sleep : ℕ → W → W

abbrev pub is_line_end : ℕ → Bool
is_line_end c =
    (leb 10 c && leb c 13) || (leb 28 c && leb c 30) || c == 0x85 || c == 0x2028 || c == 0x2029

-- `str.splitlines`, on a text where no carriage return stands before a line feed.
abbrev pub lines : Text → Text → List Text
lines [] [] = []
lines (d ∷ w) [] = (d ∷ w) ∷ []
lines w (c ∷ s) = elim (is_line_end c) [ true ↦ w ∷ lines [] s | false ↦ lines (w ++ c ∷ []) s ]

abbrev pub is_state_char : ℕ → Bool
is_state_char c =
    (leb b'A' c && leb c b'Z') || (leb b'a' c && leb c b'z') || any (λ d. c == d) (codes "+<>=?-")

abbrev pub is_state_text : Text → Bool
is_state_text [] = false
is_state_text (c ∷ s) = all is_state_char (c ∷ s)

abbrev pub member_of : ℕ → List Text → List Text → Result Kind (List Text)
member_of pgid members (group ∷ state ∷ []) =
    raise_if (not (all_digits group && is_state_text state)) invalid
    >> ok (if to_number 0 group == pgid then members ++ (state ∷ []) else members)
member_of pgid members [] = err invalid
member_of pgid members (group ∷ []) = err invalid
member_of pgid members (group ∷ state ∷ more ∷ rest) = err invalid

abbrev pub state_of : List Text → Group
state_of [] = gone
state_of (m ∷ ms) = if all (λ s. starts_with s (codes "Z")) (m ∷ ms) then zombies_only else live

-- `group_state`, from the output of `ps` on.
unfoldable pub group_state : ℕ → Text → Result Kind Group
unfolding starts_with split strip is_space all_digits to_number for_each
group_state pgid out = do
  raise_if (ltb (4 * 1024 * 1024) (length out) || length (strip is_space out) == 0) invalid
  members ← for_each (λ found line. member_of pgid found (split line)) [] (lines [] out)
  ok (state_of members)

abbrev pub small_errno : Option ℕ → Option ℕ
small_errno none = none
small_errno (some n) = if leb n 65535 then some n else none

abbrev pub safe_row : Row → Row
safe_row row = record row { errno = small_errno row.errno }

-- What `safe_cleanup` leaves of a report that `cleanup_owned_group` made: at most eight errors,
-- and only small error numbers. The outcome, the phases, states and kinds are all allowed ones.
unfoldable pub safe_cleanup : Report → Report
safe_cleanup r = record r { errors = map safe_row (take 8 r.errors) }

-- What has gone wrong so far.
pub record Trouble : Type 0 where
  pub errors : List Row
  pub hard_error : Bool
  pub permission_seen : Bool

abbrev pub no_trouble : Trouble
no_trouble = record { errors = []; hard_error = false; permission_seen = false }

abbrev pub row_of : Phase → Kind → Option ℕ → Row
row_of phase kind errno = record { phase = phase; kind = kind; errno = errno }

abbrev pub phase_of : Signal → Phase
phase_of sigterm = term_phase
phase_of sigkill = kill_phase

-- EPERM is 1.
unfoldable pub after_kill : Signal → Killed → Trouble → Trouble
after_kill sig sent t = t
after_kill sig no_process t = t
after_kill sig (kill_failed kind errno) t =
    if errno == 1
    then record t {
      errors = t.errors ++ (row_of (phase_of sig) kind (some errno) ∷ []);
      permission_seen = true;
    }
    else record t {
      errors = t.errors ++ (row_of (phase_of sig) kind (some errno) ∷ []);
      hard_error = true;
    }

unfoldable pub after_wait : Signal → Waited → Trouble → Trouble
after_wait sig ended t = t
after_wait sigterm timed_out t = t
after_wait sigkill timed_out t = record t {
  errors = t.errors ++ (row_of wait_phase timeout none ∷ []);
}
after_wait sig (wait_failed kind errno) t = record t {
  errors = t.errors ++ (row_of wait_phase kind errno ∷ []);
  hard_error = true;
}

-- The later wait, for a leader that the group's signal ended meanwhile.
unfoldable pub after_reap : Waited → Trouble → Trouble
after_reap ended t = t
after_reap timed_out t = t
after_reap (wait_failed kind errno) t = record t {
  errors = t.errors ++ (row_of wait_phase kind errno ∷ []);
  hard_error = true;
}

abbrev pub is_quiet : Group → Bool
is_quiet gone = true
is_quiet zombies_only = true
is_quiet live = false
is_quiet unknown = false

-- The report, or the report of the `CleanupError`; `out_of_rounds` is the model's own.
pub data Cleaned : Type 0 where
  cleaned : Report → Cleaned
  not_cleaned : Report → Cleaned
  out_of_rounds : Cleaned

abbrev pub report : Bool → Phase → Group → Bool → Bool → Trouble → Report
report b phase group reaped recovered t = record {
  is_complete = b;
  phase = phase;
  group_state = group;
  reaped = reaped;
  permission_race_recovered = recovered;
  errors = t.errors;
}

abbrev pub give_up : Group → Bool → Trouble → Cleaned
give_up group reaped t = not_cleaned (safe_cleanup (report false verify_phase group reaped false t))

abbrev pub read_state : ℕ → Result (Kind × Option ℕ) Text → Result (Kind × Option ℕ) Group
read_state pid (err e) = err e
read_state pid (ok out) = elim (group_state pid out) [ err kind ↦ err (kind, none) | ok g ↦ ok g ]

module _ {W : Type 0} (system : System W) (pid : ℕ) where
  -- One turn of the loop over the two signals, with the time that its wait may take.
  pub send : ℕ → Signal → ℕ → Trouble → W → Trouble × W
  send deadline sig patience t w =
      let (killed, w1) = system.killpg pid sig w in
      let (time, w2) = system.now w1 in
      let (waited, w3) = system.wait (min patience (max 1 (deadline - time))) w2 in
      (after_wait sig waited (after_kill sig killed t), w3)

  -- `if not state['reaped']`
  pub reap : ℕ → Bool → Trouble → W → (Bool × Trouble) × W
  reap deadline true t w = ((true, t), w)
  reap deadline false t w =
      let (time, w1) = system.now w in
      let (waited, w2) = system.wait (min 50 (max 1 (deadline - time))) w1 in
      ((system.has_returncode w2, after_reap waited t), w2)

  -- With the inventory's state, after the leader was waited for once more.
  pub settle :
      ℕ → (Group → Bool → Trouble → W → Cleaned × W) → Group → Bool × Trouble → W → Cleaned × W
  settle deadline again group (reaped, t) w =
      if is_quiet group && reaped
      then (if t.hard_error then (give_up group reaped t, w) else (
        cleaned (safe_cleanup (report true complete_phase group reaped t.permission_seen t)),
        w,
      ))
      else let (time, w1) = system.now w in
        again group reaped t (system.sleep (min 20 (deadline - time)) w1)

  pub after_inventory :
      ℕ
      → (Group → Bool → Trouble → W → Cleaned × W)
      → Group
      → Bool
      → Trouble
      → Result (Kind × Option ℕ) Group
      → W
      → Cleaned × W
  after_inventory deadline again before reaped t (err (kind, errno)) w = (
    give_up before reaped (record t {
      errors = t.errors ++ (row_of verify_phase kind errno ∷ []);
      hard_error = true;
    }),
    w,
  )
  after_inventory deadline again before reaped t (ok group) w =
      let (found, w') = reap deadline reaped t w in settle deadline again group found w'

  -- `while time.monotonic() < deadline`
  pub verify : ℕ → ℕ → Group → Bool → Trouble → W → Cleaned × W
  verify zero deadline group reaped t w = (out_of_rounds, w)
  verify (suc rounds) deadline group reaped t w =
      let (time, w1) = system.now w in
      elim (leb deadline time) [
        | true ↦ (give_up group reaped t, w1)
        | false ↦
            let (later, w2) = system.now w1 in
            let (out, w3) = system.list_processes (min 500 (max 1 (deadline - later))) w2 in
            after_inventory deadline (verify rounds deadline) group reaped t (read_state pid out) w3
      ]

  -- `grace` is for the first wait; the later one has half a second.
  unfoldable pub cleanup_owned_group : ℕ → ℕ → W → Cleaned × W
  unfolding send reap settle after_inventory verify after_kill after_wait after_reap group_state
      safe_cleanup
  cleanup_owned_group budget grace w =
      if not system.is_posix || (leb pid 1 || pid == system.own_group w)
      then (not_cleaned (safe_cleanup (report false guard unknown false false no_trouble)), w)
      else let (started, w1) = system.now w in
        let (t, w2) = send (started + budget) sigterm grace no_trouble w1 in
        let (t', w3) = send (started + budget) sigkill 500 t w2 in
        verify (budget + 1) (started + budget) unknown (system.has_returncode w3) t' w3
