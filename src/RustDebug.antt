-- ===== src/RustDebug.antt =====
-- `contains_rust_debug` of tool/prepare_sentry_macos_symbols.py: the search for a compilation unit
-- in Rust in the output of `dwarfdump`, read by chunks, and the end of the process.
pub mod Lines
pub mod Scan
pub mod Verdict
use xfl_clash.Prelude.{
  ℕ, ◌+◌, ◌-◌, ◌*◌, Bool, true, false, not, ◌&&◌, Option, none, some, List, [], ◌∷◌, ◌++◌, ltb, leb,
  ◌==◌, if◌then◌else◌, Text, codes, ◌==ₜ◌, length, take, is_one_of, Result, ok, err,
}
use xfl_clash.Prelude.Int.{ℤ, pos, negsuc}
use xfl_clash.Binary.{Bytes}

-- The codes of `PreparationError` that the search raises.
pub data Failure : Type 0 where
  unsupported_rust_debug_architecture macos_rust_dwarfdump_timeout
        macos_rust_dwarfdump_output_limit :
      Failure
  macos_rust_dwarfdump_incomplete macos_debug_process_termination_timeout
        macos_rust_dwarfdump_failed :
      Failure

-- What `exception_kind` tells apart.
pub data Kind : Type 0 where
  preparation timeout file_not_found permission os_error value_error type_error runtime_error
        other :
      Kind

pub data Raised : Type 0 where
  prepared : Failure → Raised
  foreign : Kind → Raised

abbrev pub exception_kind : Raised → Kind
exception_kind (prepared f) = preparation
exception_kind (foreign k) = k

-- The failure that a caught exception stands for.
abbrev pub failure_of : Raised → Failure
failure_of (prepared f) = f
failure_of (foreign k) = macos_rust_dwarfdump_failed

pub data Phase : Type 0 where
  launch selector read eof wait complete cleanup : Phase

pub data Cleanup : Type 0 where
  not_started cleaned failed : Cleanup

-- The diagnostic.
pub record State : Type 0 where
  pub phase : Phase
  pub exception : Option Kind
  pub cleanup_exception : Option Kind
  pub returncode : Option ℤ
  pub output_bytes : ℕ
  pub process_started : Bool
  pub eof : Bool
  pub reaped : Bool
  pub pipe_closed : Bool
  pub cleanup : Cleanup
  pub architecture : Option Text

-- What the rounds of the loop meet: a passed deadline, an exception, the end of the output, no
-- event, or the bytes that a read gave.
pub data Pipe : Type 0 where
  late ended : Pipe
  broken : Kind → Pipe
  idle : Pipe → Pipe
  chunk : Bytes → Pipe → Pipe

pub data Exit : Type 0 where
  exited : ℤ → Exit
  running : Exit

-- The child process, and the calls that end it.
pub record Child : Type 0 where
  pub launched : Result Kind (Unit {0})
  pub pipe : Pipe
  pub exit : Exit
  pub stop : Result Raised (Unit {0})
  pub returncode : Option ℤ
  -- Where the close of the pipe raises, whether the pipe is closed.
  pub close : Result (Kind × Bool) (Unit {0})

abbrev pub max_output : ℕ
max_output = 32 * 1024 * 1024

abbrev pub max_line : ℕ
max_line = 65536

-- The variables of the loop.
pub record Progress : Type 0 where
  pub total : ℕ
  pub pending : Bytes
  pub dropping : Bool

pub data Step : Type 0 where
  found : ℕ → Step
  over_limit : ℕ → Step
  more : Progress → Step

-- `bytes.partition(b'\n')`: what follows the first line end.
abbrev pub after_line : Bytes → Option Bytes
after_line [] = none
after_line (c ∷ s) = if c == 10 then some s else after_line s

-- How the loop ends: a line is found, the output ends, or an exception is raised.
pub data Ending : Type 0 where
  hit drained : Ending
  stopped : Raised → Ending

module _ (is_rust : Bytes → Bool) where
  abbrev pub is_attribute : Bytes → Bool
  is_attribute line = leb (length line) max_line && is_rust line

  -- `while b'\n' in pending`, on a line's start and the bytes behind it: the bytes left after the
  -- last line end, or none where a line is found.
  pub drain : Bytes → Bytes → Option Bytes
  drain line [] = some line
  drain line (c ∷ s) = elim (c == 10) [
    | true ↦ elim (is_attribute line) [ true ↦ none | false ↦ drain [] s ]
    | false ↦ drain (line ++ c ∷ []) s
  ]

  -- From `pending += captured` on.
  pub absorb : ℕ → Bytes → Bytes → Step
  absorb total pending captured = elim (drain [] (pending ++ captured)) [
    | none ↦ found total
    | some rest ↦
        if ltb max_output total
        then over_limit total
        else if ltb max_line (length rest)
        then more (record { total = total; pending = []; dropping = true })
        else more (record { total = total; pending = rest; dropping = false })
  ]

  -- A chunk while a line that is too long is dropped.
  abbrev pub resume : ℕ → Bytes → Option Bytes → Step
  resume total pending none =
      if ltb max_output total
      then over_limit total
      else more (record { total = total; pending = pending; dropping = true })
  resume total pending (some rest) = absorb total pending rest

  pub scan_chunk : Progress → Bytes → Step
  scan_chunk p bytes =
      let captured = take (max_output - p.total) bytes in
      if p.dropping
      then resume (p.total + length bytes) p.pending (after_line captured)
      else absorb (p.total + length bytes) p.pending captured

  pub read_loop : Pipe → Progress → State → Ending × Progress × State
  read_loop late p state =
      (stopped (prepared macos_rust_dwarfdump_timeout), p, record state { phase = read })
  read_loop ended p state = (drained, p, record state { phase = eof; eof = true })
  read_loop (broken k) p state = (stopped (foreign k), p, record state { phase = read })
  read_loop (idle pipe) p state = read_loop pipe p (record state { phase = read })
  read_loop (chunk [] pipe) p state = (drained, p, record state { phase = eof; eof = true })
  read_loop (chunk (b ∷ bytes) pipe) p state = elim (scan_chunk p (b ∷ bytes)) [
    | found total ↦ (hit, p, record state { phase = read; output_bytes = total })
    | over_limit total ↦ (
      stopped (prepared macos_rust_dwarfdump_output_limit),
      p,
      record state { phase = read; output_bytes = total },
    )
    | more p' ↦ read_loop pipe p' (record state { phase = read; output_bytes = p'.total })
  ]

  -- After the loop, where nothing was found.
  abbrev pub waited : Exit → Progress → Result Raised Bool
  waited running p = err (prepared macos_rust_dwarfdump_timeout)
  waited (exited (negsuc n)) p = err (prepared macos_rust_dwarfdump_incomplete)
  waited (exited (pos n)) p =
      if n == 0
      then ok (not p.dropping && is_rust p.pending)
      else err (prepared macos_rust_dwarfdump_incomplete)

  abbrev pub completed : Result Raised Bool → State → Result Raised Bool × State
  completed (ok b) state = (ok b, record state { phase = complete })
  completed (err e) state = (err e, state)

  pub after_loop : Exit → Ending × Progress × State → Result Raised Bool × State
  after_loop exit (hit, p, state) = (ok true, record state { phase = complete })
  after_loop exit (stopped e, p, state) = (err e, state)
  after_loop exit (drained, p, state) = completed (waited exit p) (record state { phase = wait })

-- `except Exception`: the exception is noted.
abbrev pub noted : Result Raised Bool × State → Result Failure Bool × State
noted (ok b, state) = (ok b, state)
noted (err e, state) = (err (failure_of e), record state { exception = some (exception_kind e) })

-- An exception in the cleanup; it is the result where there is no earlier failure.
abbrev pub cleanup_raised : Raised → Result Failure Bool × State → Result Failure Bool × State
cleanup_raised e (ok b, state) = (
  err (failure_of e),
  record state {
    cleanup = failed;
    cleanup_exception = some (exception_kind e);
    phase = cleanup;
    exception = some (exception_kind e);
  },
)
cleanup_raised e (err f, state) =
    (err f, record state { cleanup = failed; cleanup_exception = some (exception_kind e) })

abbrev pub after_stop :
    Result Raised (Unit {0}) → Result Failure Bool × State → Result Failure Bool × State
after_stop (ok u) (r, state) = (r, record state { cleanup = cleaned })
after_stop (err e) o = cleanup_raised e o

abbrev pub is_some : Option ℤ → Bool
is_some none = false
is_some (some n) = true

abbrev pub reaped : Option ℤ → Result Failure Bool × State → Result Failure Bool × State
reaped code (r, state) = (r, record state { returncode = code; reaped = is_some code })

abbrev pub after_close :
    Result (Kind × Bool) (Unit {0}) → Result Failure Bool × State → Result Failure Bool × State
after_close (ok u) (r, state) = (r, record state { pipe_closed = true })
after_close (err (k, closed)) (r, state) =
    cleanup_raised (foreign k) (r, record state { pipe_closed = closed })

abbrev pub first_state : Option Text → State
first_state architecture = record {
  phase = launch;
  exception = none;
  cleanup_exception = none;
  returncode = none;
  output_bytes = 0;
  process_started = false;
  eof = false;
  reaped = false;
  pipe_closed = false;
  cleanup = not_started;
  architecture = architecture;
}

abbrev pub first_progress : Progress
first_progress = record { total = 0; pending = []; dropping = false }

-- The `finally` statement, for a process that was launched.
abbrev pub ended_by :
    Result Raised (Unit {0})
    → Option ℤ
    → Result (Kind × Bool) (Unit {0})
    → Result Raised Bool × State
    → Result Failure Bool × State
ended_by stop code close o = after_close close (reaped code (after_stop stop (noted o)))

-- The `try` statement with its `finally`, where the process was launched or not.
pub observe : (Bytes → Bool) → Child → Result Kind (Unit {0}) → State → Result Failure Bool × State
observe is_rust child (err k) state = noted (err (foreign k), state)
observe is_rust child (ok u) state = ended_by child.stop child.returncode child.close (
    after_loop is_rust child.exit (
      read_loop is_rust child.pipe first_progress
        (record state { process_started = true; phase = selector })))

abbrev pub is_supported : Option Text → Bool
is_supported none = true
is_supported (some a) = is_one_of a (codes "arm64" ∷ codes "x86_64" ∷ [])

-- The result with the diagnostic; there is none where the architecture is refused.
unfoldable pub contains_rust_debug :
    (Bytes → Bool) → Child → Option Text → Result Failure Bool × Option State
unfolding observe after_loop read_loop scan_chunk absorb drain is_one_of ◌==ₜ◌
contains_rust_debug is_rust child architecture =
    if not (is_supported architecture)
    then (err unsupported_rust_debug_architecture, none)
    else let (r, state) = observe is_rust child child.launched (first_state architecture) in
      (r, some state)
