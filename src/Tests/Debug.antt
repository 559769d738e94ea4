-- ===== src/Tests/Debug.antt =====
-- tool/prepare_sentry_macos_symbols.py on a concrete output of `dwarfdump`, in three chunks.
use xfl_clash.Prelude.{
  ◌≡◌, refl, Bool, true, none, some, ◌∷◌, ◌++◌, codes, starts_with, ok, err, arith,
}
use xfl_clash.Prelude.Int.{pos}
use xfl_clash.Binary.{Bytes}
use xfl_clash.RustDebug.{
  Child, Pipe, ended, idle, chunk, late, exited, State, contains_rust_debug,
  macos_rust_dwarfdump_timeout, prepared, macos_debug_process_termination_timeout,
  unsupported_rust_debug_architecture,
}
use xfl_clash.RustDebug.Scan.{output}
use xfl_clash.RustDebug.Verdict.{
  has_attribute, IsProved, contains_rust_debug-IsProved, contains_rust_debug-has_attribute,
}

abbrev is_rust : Bytes → Bool
is_rust line = starts_with line (codes "DW_LANG_Rust")

-- The line stands in two chunks.
abbrev pipe : Pipe
pipe =
    chunk (codes "unit" ++ 10 ∷ codes "DW_LA")
      (idle (chunk (codes "NG_Rust" ++ 10 ∷ codes "end") ended))

abbrev child : Child
child = record {
  launched = ok tt;
  pipe = pipe;
  exit = exited (pos 0);
  stop = ok tt;
  returncode = some (pos 0);
  close = ok tt;
}

contains_rust_debug_run : (contains_rust_debug is_rust child none).0 ≡ ok true
unfolding contains_rust_debug starts_with
contains_rust_debug_run = refl

contains_rust_debug_late :
    (contains_rust_debug is_rust (record child { pipe = chunk (codes "unit") late }) none).0
    ≡ err macos_rust_dwarfdump_timeout
unfolding contains_rust_debug starts_with
contains_rust_debug_late = refl

-- The search found the line, but the process could not be stopped.
contains_rust_debug_unstopped :
    (contains_rust_debug is_rust
      (record child { stop = err (prepared macos_debug_process_termination_timeout) })
      none).0
    ≡ err macos_debug_process_termination_timeout
unfolding contains_rust_debug starts_with
contains_rust_debug_unstopped = refl

contains_rust_debug_other :
    (contains_rust_debug is_rust child (some (codes "i386"))).0
    ≡ err unsupported_rust_debug_architecture
unfolding contains_rust_debug
contains_rust_debug_other = refl

contains_rust_debug-has_attribute_example :
    (contains_rust_debug is_rust child (some (codes "arm64"))).0
    ≡ ok (has_attribute is_rust (output pipe))
unfolding contains_rust_debug
contains_rust_debug-has_attribute_example =
    contains_rust_debug-has_attribute is_rust child (some (codes "arm64")) refl (record {
      launched = refl;
      whole = tt;
      within = omega arith;
      exited = refl;
      stopped = refl;
      closed = refl;
    })

contains_rust_debug-IsProved_example :
    (state : State) × ((contains_rust_debug is_rust child none).1 ≡ some state)
    × IsProved is_rust child true state
unfolding contains_rust_debug starts_with
contains_rust_debug-IsProved_example = contains_rust_debug-IsProved is_rust child none true refl
