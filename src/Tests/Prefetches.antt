-- ===== src/Tests/Prefetches.antt =====
-- tool/resolve_macos_packages.py on a concrete list of processes.
use xfl_clash.Prelude.{
  ◌≡◌, refl, none, some, List, [], ◌∷◌, ◌↔◌, if◌then◌else◌, Text, codes, all_digits, to_number,
  split, In, err,
}
use xfl_clash.Prelude.Int.{ℤ, pos}
use xfl_clash.Prefetch.{
  Platform, stale_prefetches, cleanup_stale, Killed, sent, refused, Signal, sigterm, sigkill, Log,
  prefetch_process_cleanup_failed,
}
use xfl_clash.Prefetch.Tree.{IsBelow}
use xfl_clash.Prefetch.Owned.{
  table, IsOurs, IsPrefetch, stale_prefetches-IsTree, IsCleanup, cleanup_stale-IsCleanup,
}

abbrev platform : Platform
platform = record {
  int = λ s. if all_digits s then some (pos (to_number 0 s)) else none;
  shlex = λ s. some (split s);
  name = λ s. s;
  resolve = λ s. s;
  uid = pos 501;
  own_pid = pos 40;
}

-- A prefetch with a child and a grandchild, a process of another user, and this process.
abbrev ps : List Text
ps =
    codes " 12 11 501 git fetch"
    ∷ codes " 11 10 501 swift package"
    ∷ codes " 10  1 501 xcodebuild -clonedSourcePackagesDirPath /cache -resolvePackageDependencies"
    ∷ codes " 13 10   0 root"
    ∷ codes " 40 10 501 python3"
    ∷ codes " 14 13 501 sh"
    ∷ []

abbrev cache : Text
cache = codes "/cache"

stale_prefetches_run :
    stale_prefetches platform cache ps ≡ some (pos 10 ∷ [], pos 10 ∷ pos 11 ∷ pos 12 ∷ [])
unfolding stale_prefetches all_digits to_number split
stale_prefetches_run = refl

abbrev kill : Log → ℤ → Signal → Killed
kill log pid sig = sent

cleanup_stale_run :
    (cleanup_stale platform cache kill (some ps)).1
    ≡ (pos 12, sigterm)
      ∷ (pos 11, sigterm)
      ∷ (pos 10, sigterm)
      ∷ (pos 12, sigkill)
      ∷ (pos 11, sigkill)
      ∷ (pos 10, sigkill)
      ∷ []
unfolding cleanup_stale all_digits to_number split
cleanup_stale_run = refl

cleanup_stale_refused :
    cleanup_stale platform cache (λ log pid sig. refused) (some ps)
    ≡ (err prefetch_process_cleanup_failed, (pos 12, sigterm) ∷ [])
unfolding cleanup_stale all_digits to_number split
cleanup_stale_refused = refl

stale_prefetches-IsTree_example :
    (matched tree : List ℤ) × (stale_prefetches platform cache ps ≡ some (matched, tree))
    × ((x : ℤ) → In x matched ↔ In x (table platform cache ps).matched)
    × ((x : ℤ)
        → In x tree
          ↔ IsBelow (table platform cache ps).processes (table platform cache ps).matched x)
    × ((x : ℤ) → In x matched → IsOurs platform cache ps x × IsPrefetch platform cache ps x)
    × ((x : ℤ) → In x tree → IsOurs platform cache ps x)
stale_prefetches-IsTree_example = stale_prefetches-IsTree platform cache ps

cleanup_stale-IsCleanup_example :
    IsCleanup platform cache ps (cleanup_stale platform cache kill (some ps))
cleanup_stale-IsCleanup_example = cleanup_stale-IsCleanup platform cache ps kill
