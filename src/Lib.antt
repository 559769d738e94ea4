-- ===== src/Lib.antt =====
-- The release tooling of XFlClash: the Python programs under tool/ that take the request for a
-- release, number the build, fetch its dependencies with retries, clean up the processes that they
-- start, give the packages their final names and check them, read the object files of the build,
-- match the debug files to them, and confirm that the crash-report server holds their symbols.
--
-- The parts and how they interact:
--
-- * BuildNumber is tool/release_build_number.py. BuildNumber.antt has `integer`, `resolve` and
--   `next_counter`; BuildNumber/Publish.antt has `publish`, which advances the counter on the built
--   branch by a compare-and-swap push. Git and the checkout are the record `Git`, a parameter:
--   each call is an action on a state that holds the working copy, the remote, and what other
--   clients do to it meanwhile. The three rounds of the loop are the argument of `attempts`. The
--   facts about Git that the proofs rest on are the record `Laws` of BuildNumber/Publish/Lease.antt.
-- * Binary.antt is what the readers use of Python's `struct`: `unpack_from` at an offset, with its
--   exception. A reader raises its own exception class (`rejected`), or one of the faults that it
--   must not let out: `struct.error`, `IndexError`, and a loop that outlives its rounds.
-- * Elf.antt and Elf/Notes.antt are `inspect_elf` of tool/sentry_elf.py. The file is a list of
--   bytes, and the digest of hashlib a parameter. The loop over the notes is on fuel, the size of
--   its section and one more: every round moves at least twelve bytes on.
-- * Macho/ is tool/sentry_macho.py: `_thin` is Macho/Image.antt with Macho/Image/Commands.antt,
--   `_fat_entries` and `inspect_macho` are Macho/Universal.antt, and the two archive functions are
--   Macho/Archive.antt. The loop over the members of an archive is on fuel, the size of the archive
--   and one more: every member has a header of sixty bytes. A counter of members up to 100000
--   bounds it as well, and stands in the model as in the source.
-- * Confirmation/ is tool/sentry_upload_confirmation.py: Confirmation/Requirements.antt has
--   `requirements`, `cpu` and `matches`, and Confirmation/Rounds.antt has `confirm_symbol_inventory`,
--   with the clock, the requests and the waiting as the record `Service`. The 61 rounds that the
--   source allows are the argument of `wait_rounds`. A pool of threads gives its answers in the
--   order of the identifiers, and the model runs the requests in that order.
-- * Request.antt is tool/release_request.py: the request that starts a run, and the pinned
--   configuration, over parsed values. Request/Handover.antt ties it to the counter and to `publish`.
-- * Retry.antt is `execute` of tool/pub_get_retry.py. The clock, the sleeps, the signal flag and one
--   attempt are the record `Runner`. The attempts that are set are the argument of `turns`; the
--   loop of a pause is on fuel, its delay and one more, since a round waits for one unit at least.
-- * Cleanup.antt is tool/owned_process_cleanup.py. The system calls are the record `System`, with
--   times in milliseconds. The verification loop is on fuel, the time budget and one more: a round
--   that starts before the deadline ends with a sleep of one millisecond at least.
-- * Pipeline.antt is `expected_artifacts` and `normalize` of tool/release_pipeline.py: the plan, the
--   renames in the distribution directory with their rollback, and the entries of the report. The
--   file system's verdict on each rename and the digest are parameters.
-- * LinuxPackages.antt is tool/verify_linux_packages.py: Cpio reads newc archives, Members checks a
--   package's members against the bundle, Appimage reads the boundary of an image, and Audit is
--   `_verify` and `verify` with the report. The readers of packages are the record `Readers`. The
--   loop over an archive is on fuel, its length and one more: a record takes 110 bytes at least.
-- * RustDebug.antt is `contains_rust_debug` of tool/prepare_sentry_macos_symbols.py: the search of
--   the output of a process by chunks, and its end. RustDebug/Lines.antt has the lines of the whole
--   output and what is left to search, Scan.antt the loop, Verdict.antt the result. What the rounds
--   of the loop meet is the type `Pipe`; the regular expression is a parameter.
-- * Upload.antt is tool/upload_sentry_symbols.py: Upload/Check.antt has the labels, the paths and
--   the report on one file, Upload/Companions.antt the audit of the companions for Android and Linux
--   on parsed manifests, which reads the files by `inspect_elf` of Elf.antt.
-- * Prefetch.antt is `stale_prefetches` and `cleanup_stale` of tool/resolve_macos_packages.py.
--   Prefetch/Tree.antt ties the loop to the relation of parents; its rounds are the number of
--   processes and one more, since a round adds a process. Signals.antt has the log of signals.
-- * Pipeline/Verified.antt is `verified_files` of tool/release_pipeline.py, on the parsed manifest.
-- * Upload/Cli.antt is `run_cli` of tool/upload_sentry_symbols.py, with times in milliseconds.
-- * ErrorContext.antt is `safe_error_context` and `ErrorContext` of tool/resolve_macos_packages.py.
--   Window.antt has the lines that are kept, Hidden.antt the blocks behind a sensitive line.
-- * Confirmation/Request.antt is `retry_after` and `get_debug_files` of
--   tool/sentry_upload_confirmation.py, the request that the rounds of the confirmation make.
-- * Pipeline/Inputs.antt is `read_context` of tool/release_pipeline.py, on parsed values.
-- * Pipeline/Environment.antt is `package_environment`, `package_arguments` and `compose` of
--   tool/release_pipeline.py, with dictionaries as association lists.
--
-- Texts are lists of character codes, numbers are natural numbers, and the signed fields of Mach-O
-- headers are integers read in two's complement. Sets are lists without duplicates.
--
-- Not modelled: the commands' `main` functions, printing, the connection behind the confirmation
-- and the classification of the uploader's output; the inventories of the bundles for Linux and
-- macOS; the tools that only download, copy or start other programs; the application itself, which is not in Python.
mod Prelude
pub mod BuildNumber
pub mod Binary
pub mod Elf
pub mod Macho
pub mod Confirmation
pub mod Request
pub mod Retry
pub mod Cleanup
pub mod Pipeline
pub mod LinuxPackages
pub mod RustDebug
pub mod Upload
pub mod Prefetch
pub mod ErrorContext
mod Tests
