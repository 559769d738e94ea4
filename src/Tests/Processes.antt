-- ===== src/Tests/Processes.antt =====
-- tool/owned_process_cleanup.py at a concrete child, whose group has one zombie left.
use xfl_clash.Prelude.{
  ℕ, ◌+◌, ◌≡◌, refl, true, [], ◌∷◌, ◌++◌, some, leb, Text, codes, ok, err, arith, for_each,
}
use xfl_clash.Cleanup.{
  System, ended, kill_failed, permission, invalid, term_phase, kill_phase, complete_phase,
  zombies_only, live, gone, group_state, cleanup_owned_group, cleaned,
}
use xfl_clash.Cleanup.Sound.{Clock, IsSound, cleanup_owned_group-IsSound}

abbrev table : Text
table = codes "1 Ss" ++ (b'\n' ∷ codes " 77 Z+") ++ (b'\n' ∷ [])

zombie_left : group_state 77 table ≡ ok zombies_only
unfolding group_state for_each
zombie_left = refl

leader_lives : group_state 1 table ≡ ok live
unfolding group_state for_each
leader_lives = refl

no_member : group_state 7 table ≡ ok gone
unfolding group_state for_each
no_member = refl

bad_table : group_state 7 (codes "1 Ss more") ≡ err invalid
unfolding group_state for_each
bad_table = refl

-- The world is the clock. The group cannot be signalled any more, and the leader is reaped at once.
abbrev host : System ℕ
host = record {
  is_posix = true;
  own_group = λ t. 5;
  now = λ t. (t, t);
  killpg = λ group sig t. (kill_failed permission 1, t + 1);
  wait = λ d t. (ended, t + 1);
  has_returncode = λ t. leb 2 t;
  list_processes = λ d t. (ok table, t + 1);
  sleep = λ d t. t + d;
}

cleanup_run :
    (cleanup_owned_group host 77 3000 100 0).0
    ≡ cleaned (record {
      is_complete = true;
      phase = complete_phase;
      group_state = zombies_only;
      reaped = true;
      permission_race_recovered = true;
      errors =
          record { phase = term_phase; kind = permission; errno = some 1 }
          ∷ record { phase = kill_phase; kind = permission; errno = some 1 }
          ∷ [];
    })
unfolding cleanup_owned_group for_each
cleanup_run = refl

host-Clock : Clock host (λ t. t)
host-Clock = record {
  reads = λ w. refl;
  now_passes = λ w. omega arith;
  kill_passes = λ group sig w. omega arith;
  wait_passes = λ d w. omega arith;
  list_passes = λ d w. omega arith;
  sleep_passes = λ d w. omega arith;
}

cleanup_owned_group-IsSound_example :
    IsSound host 77 (λ t. t) host-Clock (cleanup_owned_group host 77 3000 100 0).0
cleanup_owned_group-IsSound_example =
    cleanup_owned_group-IsSound host 77 (λ t. t) host-Clock 3000 100 0
