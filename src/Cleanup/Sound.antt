-- ===== src/Cleanup/Sound.antt =====
-- What the end of `cleanup_owned_group` shows, tool/owned_process_cleanup.py.
use xfl_clash.Prelude.{
  ℕ, zero, suc, ◌+◌, ◌-◌, ◌≤◌, ◌<◌, Bool, true, false, not, ◌&&◌, ◌||◌, Option, none, some, List,
  [], ◌∷◌, ◌++◌, ◌≡◌, inl, inr, refl, ltb, leb, ◌==◌, max, min, map, length, take, All, All-append,
  Bool-cases, arith, and_true, ltb→lt, ltb→le, Result, ok, err,
}
use xfl_clash.Cleanup.{
  wait_phase, verify_phase, Group, unknown, Kind, timeout, Row, Report, Signal, sigterm, sigkill,
  Killed, sent, no_process, kill_failed, Waited, ended, timed_out, wait_failed, System, safe_row,
  safe_cleanup, Trouble, no_trouble, row_of, phase_of, after_kill, after_wait, after_reap, is_quiet,
  Cleaned, cleaned, not_cleaned, out_of_rounds, give_up, read_state, send, reap, settle,
  after_inventory, verify, cleanup_owned_group,
}

-- An error that does not stand against success: EPERM of a signal, or a wait that ran out of time.
pub data IsSoft (r : Row) : Type 0 where
  not_permitted : r.errno ≡ some 1 → IsSoft r
  slow : r.kind ≡ timeout → r.errno ≡ none → IsSoft r

Calm : Trouble → Type 0
Calm t = t.hard_error ≡ false → All IsSoft t.errors

after_kill-Calm : (sig : Signal) (k : Killed) (t : Trouble) → Calm t → Calm (after_kill sig k t)
unfolding after_kill Calm
after_kill-Calm sig sent t h = h
after_kill-Calm sig no_process t h = h
after_kill-Calm sig (kill_failed kind errno) t h = elim (Bool-cases (errno == 1)) [
  | inl e ↦
      let eperm : errno ≡ 1 = ground arith in
      rw e (λ c.
        All-append IsSoft t.errors (row_of (phase_of sig) kind (some errno) ∷ []) (h c)
          (not_permitted (rw eperm refl), tt))
  | inr n ↦ rw n (λ e. cc)
]

after_wait-Calm : (sig : Signal) (k : Waited) (t : Trouble) → Calm t → Calm (after_wait sig k t)
unfolding after_wait Calm
after_wait-Calm sig ended t h = h
after_wait-Calm sigterm timed_out t h = h
after_wait-Calm sigkill timed_out t h =
    λ e. All-append IsSoft t.errors (row_of wait_phase timeout none ∷ []) (h e) (slow refl refl, tt)
after_wait-Calm sig (wait_failed kind errno) t h = λ e. cc

after_reap-Calm : (k : Waited) (t : Trouble) → Calm t → Calm (after_reap k t)
unfolding after_reap Calm
after_reap-Calm ended t h = h
after_reap-Calm timed_out t h = h
after_reap-Calm (wait_failed kind errno) t h = λ e. cc

no_trouble-Calm : Calm no_trouble
unfolding Calm
no_trouble-Calm = λ e. tt

safe_row-IsSoft : (r : Row) → IsSoft r → IsSoft (safe_row r)
safe_row-IsSoft r (not_permitted e) = not_permitted (rw e refl)
safe_row-IsSoft r (slow k e) = slow k (rw e refl)

safe_rows : (n : ℕ) (rs : List Row) → All IsSoft rs → All IsSoft (map safe_row (take n rs))
safe_rows zero rs h = tt
safe_rows (suc n) [] h = tt
safe_rows (suc n) (r ∷ rs) (s, h) = (safe_row-IsSoft r s, safe_rows n rs h)

few_rows : (n : ℕ) (rs : List Row) → length (map safe_row (take n rs)) ≤ n
few_rows zero rs = omega arith
few_rows (suc n) [] = omega arith
few_rows (suc n) (r ∷ rs) = omega (arith, few_rows n rs)

later_passes :
    (deadline a b c : ℕ) → a < deadline → a ≤ b → (b ≤ c) × (b < deadline → b < c) → a < c
later_passes deadline a b c early h (l, m) = elim (Bool-cases (ltb b deadline)) [
  | inl before ↦ omega (arith, h, m (ltb→lt b deadline before))
  | inr after ↦ omega (arith, early, l, ltb→le b deadline after)
]

fewer_left :
    (deadline a b c rounds : ℕ)
    → deadline - a < suc rounds
    → a < deadline
    → a ≤ b
    → (b ≤ c) × (b < deadline → b < c)
    → deadline - c < rounds
fewer_left deadline a b c rounds h early l p =
    omega (arith, h, early, later_passes deadline a b c early l p)

-- A clock that no call sets back, and sleeps that last as long as asked.
pub record Clock {W : Type 0} (system : System W) (time_of : W → ℕ) : Type 0 where
  pub reads : (w : W) → (system.now w).0 ≡ time_of w
  pub now_passes : (w : W) → time_of w ≤ time_of (system.now w).1
  pub kill_passes :
      (pid : ℕ) (sig : Signal) (w : W) → time_of w ≤ time_of (system.killpg pid sig w).1
  pub wait_passes : (d : ℕ) (w : W) → time_of w ≤ time_of (system.wait d w).1
  pub list_passes : (d : ℕ) (w : W) → time_of w ≤ time_of (system.list_processes d w).1
  pub sleep_passes : (d : ℕ) (w : W) → time_of w + d ≤ time_of (system.sleep d w)

module _ {W : Type 0} (system : System W) (pid : ℕ) (time_of : W → ℕ)
    (clock : Clock system time_of) where
  -- The evidence for success: an inventory with no live member of the group, and a reaped leader.
  pub record Confirmed (r : Report) : Type 0 where
    pub complete : (r.is_complete ≡ true) × (r.reaped ≡ true) × (is_quiet r.group_state ≡ true)
    pub inventory :
        (d : ℕ) × (w : W) × (read_state pid (system.list_processes d w).0 ≡ ok r.group_state)
    pub leader : (w : W) × (system.has_returncode w ≡ true)
    pub errors : (length r.errors ≤ 8) × All IsSoft r.errors

  abbrev pub IsSound : Cleaned → Type 0
  IsSound (cleaned r) = Confirmed r
  IsSound (not_cleaned r) = (r.is_complete ≡ false) × (length r.errors ≤ 8)
  IsSound out_of_rounds = ⊥

  -- A leader that counts as reaped has a return code.
  abbrev IsReaped : Bool → Type 0
  IsReaped true = (w : W) × (system.has_returncode w ≡ true)
  IsReaped false = Unit

  has_returncode-IsReaped : (b : Bool) (w : W) → system.has_returncode w ≡ b → IsReaped b
  has_returncode-IsReaped true w e = (w, e)
  has_returncode-IsReaped false w e = tt

  give_up-IsSound : (group : Group) (reaped : Bool) (t : Trouble) → IsSound (give_up group reaped t)
  unfolding safe_cleanup
  give_up-IsSound group reaped t = (refl, few_rows 8 t.errors)

  leader_of : (b : Bool) → b ≡ true → IsReaped b → (w : W) × (system.has_returncode w ≡ true)
  leader_of true e r = r
  leader_of false e r = cc

  abbrev Seen : Group → Type 0
  Seen group = (d : ℕ) × (w : W) × (read_state pid (system.list_processes d w).0 ≡ ok group)

  -- Time does not run back, and moves on while the deadline is not reached.
  abbrev Passes : ℕ → W → W → Type 0
  Passes deadline w w' = (time_of w ≤ time_of w') × (time_of w < deadline → time_of w < time_of w')

  settle-IsSound :
      (deadline : ℕ) (again : Group → Bool → Trouble → W → Cleaned × W) (group : Group)
      (reaped : Bool) (t : Trouble) (w : W)
      → Seen group
      → IsReaped reaped
      → Calm t
      → ((w' : W) → Passes deadline w w' → IsSound (again group reaped t w').0)
      → IsSound (settle system pid deadline again group (reaped, t) w).0
  unfolding settle safe_cleanup Calm
  settle-IsSound deadline again group reaped t w seen r calm k =
      elim (Bool-cases (is_quiet group && reaped)) [
        | inl both ↦
            let (q, re) = and_true (is_quiet group) reaped both in
            rw both (elim (Bool-cases t.hard_error) [
              | inl hard ↦ rw hard (give_up-IsSound group reaped t)
              | inr soft ↦ rw soft (record {
                complete = (refl, re, q);
                inventory = seen;
                leader = leader_of reaped re r;
                errors = (few_rows 8 t.errors, safe_rows 8 t.errors (calm soft));
              })
            ])
        | inr on ↦ rw on (
            let (time, w1) = system.now w in
            k (system.sleep (min 20 (deadline - time)) w1) (
              omega (arith, clock.now_passes w, clock.sleep_passes (min 20 (deadline - time)) w1),
              λ early. omega (
                arith,
                early,
                clock.reads w,
                clock.now_passes w,
                clock.sleep_passes (min 20 (deadline - time)) w1,
              ),
            ))
      ]

  after_inventory-IsSound :
      (deadline : ℕ) (again : Group → Bool → Trouble → W → Cleaned × W) (before : Group)
      (reaped : Bool) (t : Trouble) (d : ℕ) (w0 w : W) (x : Result (Kind × Option ℕ) Group)
      → read_state pid (system.list_processes d w0).0 ≡ x
      → IsReaped reaped
      → Calm t
      → ((group : Group) (b : Bool) (t' : Trouble) (w' : W)
          → IsReaped b
          → Calm t'
          → Passes deadline w w'
          → IsSound (again group b t' w').0)
      → IsSound (after_inventory system pid deadline again before reaped t x w).0
  unfolding after_inventory reap safe_cleanup
  after_inventory-IsSound deadline again before reaped t d w0 w (err (kind, errno)) h r calm k =
      (refl, few_rows 8 (t.errors ++ (row_of verify_phase kind errno ∷ [])))
  after_inventory-IsSound deadline again before true t d w0 w (ok group) h r calm k =
      settle-IsSound deadline again group true t w (d, w0, h) r calm
        (λ w' p. k group true t w' r calm p)
  after_inventory-IsSound deadline again before false t d w0 w (ok group) h r calm k =
      let (time, w1) = system.now w in
      let (waited, w2) = system.wait (min 50 (max 1 (deadline - time))) w1 in
      let last = has_returncode-IsReaped (system.has_returncode w2) w2 refl in
      let calm' = after_reap-Calm waited t calm in
      let moved = clock.wait_passes (min 50 (max 1 (deadline - time))) w1 in
      settle-IsSound deadline again group (system.has_returncode w2) (after_reap waited t) w2
        (d, w0, h) last calm'
        (λ w' p. k group (system.has_returncode w2) (after_reap waited t) w' last calm' (
          omega (arith, clock.now_passes w, moved, p.0),
          λ early. later_passes deadline _ _ _ early (omega (arith, clock.now_passes w, moved)) p,
        ))

  verify-IsSound :
      (rounds deadline : ℕ) (group : Group) (reaped : Bool) (t : Trouble) (w : W)
      → deadline - time_of w < rounds
      → IsReaped reaped
      → Calm t
      → IsSound (verify system pid rounds deadline group reaped t w).0
  unfolding verify
  verify-IsSound zero deadline group reaped t w h r calm = ground (arith, h)
  verify-IsSound (suc rounds) deadline group reaped t w h r calm =
      let (time, w1) = system.now w in
      elim (Bool-cases (leb deadline time)) [
        | inl over ↦ rw (over, verify) (give_up-IsSound group reaped t)
        | inr early ↦
            rw (early, verify)
              (let (later, w2) = system.now w1 in
                let (out, w3) = system.list_processes (min 500 (max 1 (deadline - later))) w2 in
                after_inventory-IsSound deadline (verify system pid rounds deadline) group reaped t
                  (min 500 (max 1 (deadline - later))) w2 w3 (read_state pid out) refl r calm
                  (λ group' b t' w' r' c' p.
                    verify-IsSound rounds deadline group' b t' w'
                      (fewer_left deadline (time_of w) (time_of w3) (time_of w') rounds h
                        (ground (arith, early, clock.reads w))
                        (omega (
                          arith,
                          clock.now_passes w,
                          clock.now_passes w1,
                          clock.list_passes (min 500 (max 1 (deadline - later))) w2,
                        ))
                        p)
                      r' c'))
      ]

  send-Calm :
      (deadline : ℕ) (sig : Signal) (patience : ℕ) (t : Trouble) (w : W)
      → Calm t
      → Calm (send system pid deadline sig patience t w).0
  unfolding send
  send-Calm deadline sig patience t w calm =
      let (killed, w1) = system.killpg pid sig w in
      let (time, w2) = system.now w1 in
      let (waited, w3) = system.wait (min patience (max 1 (deadline - time))) w2 in
      after_wait-Calm sig waited (after_kill sig killed t) (after_kill-Calm sig killed t calm)

  send_passes :
      (deadline : ℕ) (sig : Signal) (patience : ℕ) (t : Trouble) (w : W)
      → time_of w ≤ time_of (send system pid deadline sig patience t w).1
  unfolding send
  send_passes deadline sig patience t w =
      let (killed, w1) = system.killpg pid sig w in
      let (time, w2) = system.now w1 in
      omega (
        arith,
        clock.kill_passes pid sig w,
        clock.now_passes w1,
        clock.wait_passes (min patience (max 1 (deadline - time))) w2,
      )

  -- On a monotonic clock a cleanup ends. A success rests on an inventory of processes in which no
  -- member of the group lives and on a leader with a return code, and its report holds no errors
  -- but a refused permission to signal and a wait that ran out of time. A failure is reported as
  -- such, and no report holds more than eight errors.
  pub cleanup_owned_group-IsSound :
      (budget grace : ℕ) (w : W) → IsSound (cleanup_owned_group system pid budget grace w).0
  unfolding cleanup_owned_group
  cleanup_owned_group-IsSound budget grace w =
      elim (Bool-cases (not system.is_posix || (leb pid 1 || pid == system.own_group w))) [
        | inl refused ↦ rw refused (refl, omega arith)
        | inr owned ↦ rw owned (
            let (started, w1) = system.now w in
            let (t, w2) = send system pid (started + budget) sigterm grace no_trouble w1 in
            let (t', w3) = send system pid (started + budget) sigkill 500 t w2 in
            verify-IsSound (budget + 1) (started + budget) unknown (system.has_returncode w3) t' w3
              (omega (
                arith,
                clock.reads w,
                clock.now_passes w,
                send_passes (started + budget) sigterm grace no_trouble w1,
                send_passes (started + budget) sigkill 500 t w2,
              ))
              (has_returncode-IsReaped (system.has_returncode w3) w3 refl)
              (send-Calm (started + budget) sigkill 500 t w2
                (send-Calm (started + budget) sigterm grace no_trouble w1 no_trouble-Calm)))
      ]
