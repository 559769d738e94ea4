-- ===== src/Tests/Release.antt =====
-- tool/release_build_number.py at concrete inputs.
use xfl_clash.Prelude.{
  ℕ, ◌+◌, ◌≤◌, ◌<◌, ◌≡◌, ◌≢◌, ◌⊎◌, refl, [], ◌∷◌, ◌++◌, Text, codes, ◌==ₜ◌, split, to_number, ok,
  err, arith, if◌then◌else◌,
}
use xfl_clash.Prelude.Decimal.{show}
use xfl_clash.BuildNumber.{
  integer, resolve, next_counter, max_build_number, not_in_range, below_counter,
}
use xfl_clash.BuildNumber.Counter.{
  integer-canonical, integer-show, resolve-in_range, resolve-next_counter,
}
use xfl_clash.BuildNumber.Publish.{done, nonzero, content, Git}

integer_runs :
    (integer 65535 (codes "65535") ≡ ok 65535) × (integer 65535 (codes "065") ≡ err not_in_range)
unfolding integer to_number
integer_runs = (refl, refl)

resolve_runs :
    (resolve (codes "41") (codes "77") ≡ ok 77)
    × (resolve (codes "41") (codes "40") ≡ err below_counter)
unfolding resolve integer to_number
resolve_runs = (refl, refl)

integer-canonical_example : (codes "65535" ≡ show 65535) × (1 ≤ 65535) × (65535 ≤ 65535)
integer-canonical_example = integer-canonical 65535 (codes "65535") 65535 integer_runs.0

integer-show_example : integer 65536 (show 65536) ≡ ok 65536
integer-show_example = integer-show 65536 65536 (omega arith) (omega arith) (omega arith)

resolve-in_range_example :
    (available : ℕ) × (integer max_build_number (codes "41") ≡ ok available)
    × (available ≤ 77)
    × (77 ≤ max_build_number)
    × ((codes "77" ≢ []) ⊎ (77 ≡ available))
resolve-in_range_example = resolve-in_range (codes "41") (codes "77") 77 resolve_runs.0

resolve_later : resolve (show (77 + 1)) [] ≡ ok 78
unfolding resolve integer to_number show
resolve_later = refl

resolve-next_counter_example :
    (next_counter (codes "41") (show 77) ≡ ok (77 + 1))
    × (integer (max_build_number + 1) (show (77 + 1)) ≡ ok (77 + 1))
    × (77 < 78)
resolve-next_counter_example =
    resolve-next_counter (codes "41") (codes "77") [] 77 78 resolve_runs.0 resolve_later

-- A checkout of one clean commit, and branches that nobody else writes to.
abbrev source : Text
source = codes "0123456789012345678901234567890123456789"

abbrev new_commit : Text
new_commit = codes "abcdefabcdefabcdefabcdefabcdefabcdefabcd"

record Repository : Type 0 where
  head : Text
  fetched : Text
  branches : Text → Text

abbrev remote : Text → Repository → Text
remote b s = s.branches b

abbrev parents_line : Text
parents_line = new_commit ++ (b' ' ∷ source)

abbrev updated : Text → Text → Repository → Repository
updated ref c s = record s { branches = λ b. if b ==ₜ ref then c else s.branches b }

abbrev git : Git Repository
git = record {
  check_ref_format = λ ref s. done tt;
  head = λ s. done s.head;
  status = λ s. done [];
  fetch = λ ref s. (done tt, record s { fetched = s.branches ref });
  fetched_tip = λ s. done s.fetched;
  is_ancestor = λ a b s. done tt;
  reset = λ tip s. (done tt, record s { head = tip });
  safe_file = λ path s. content (codes "41\n");
  write_text = λ path t s. (done tt, s);
  add = λ path s. (done tt, s);
  commit = λ m s. (done tt, record s { head = new_commit });
  parents = λ c s. done parents_line;
  push = λ ref tip c s. if tip ==ₜ s.branches ref then (done tt, updated ref c s) else (nonzero, s);
}

abbrev IsChild : Text → Text → Type 0
IsChild t c = split parents_line ≡ c ∷ t ∷ []

abbrev clean : Repository
clean = record { head = source; fetched = []; branches = λ b. source }

abbrev main : Text
main = codes "refs/heads/main"
