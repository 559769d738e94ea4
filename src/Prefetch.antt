-- ===== src/Prefetch.antt =====
-- tool/resolve_macos_packages.py: `stale_prefetches`, the processes that an earlier prefetch left
-- behind with their descendants, and `cleanup_stale`, which ends them. The lines of `ps` are the
-- argument; `int`, `shlex.split` and paths are parameters.
pub mod Tree
pub mod Signals
pub mod Owned
use xfl_clash.Prelude.{
  ℕ, zero, suc, ◌+◌, Bool, true, false, not, ◌&&◌, ◌||◌, Option, none, some, List, [], ◌∷◌, ◌++◌,
  if◌then◌else◌, Text, codes, ◌==ₜ◌, is_space, lstrip, strip, length, ltb, Result, ok, err, ◌>>=◌,
}
use xfl_clash.Prelude.Int.{ℤ, pos, negsuc, ◌==ℤ◌}

abbrev pub take_word : Text → Text × Text
take_word [] = ([], [])
take_word (c ∷ s) = let (w, rest) = take_word s in if is_space c then ([], c ∷ s) else (c ∷ w, rest)

-- `s.split(None, n)`
unfoldable pub split_max : ℕ → Text → List Text
unfolding is_space lstrip
split_max zero s = elim (lstrip is_space s) [ [] ↦ [] | c ∷ t ↦ (c ∷ t) ∷ [] ]
split_max (suc n) s = elim (lstrip is_space s) [
  | [] ↦ []
  | c ∷ t ↦ (take_word (c ∷ t)).0 ∷ split_max n (take_word (c ∷ t)).1
]

pub record Row : Type 0 where
  pub pid : ℤ
  pub parent : ℤ
  pub owner : ℤ
  pub argv : List Text

pub record Platform : Type 0 where
  pub int : Text → Option ℤ
  pub shlex : Text → Option (List Text)
  pub name : Text → Text
  pub resolve : Text → Text
  pub uid : ℤ
  pub own_pid : ℤ

abbrev pub row_of : Option ℤ → Option ℤ → Option ℤ → Option (List Text) → Option Row
row_of (some pid) (some parent) (some owner) (some argv) =
    some (record { pid = pid; parent = parent; owner = owner; argv = argv })
row_of (some pid) (some parent) (some owner) none = none
row_of (some pid) (some parent) none argv = none
row_of (some pid) none owner argv = none
row_of none parent owner argv = none

-- A line with four fields that parse.
abbrev pub parse_fields : Platform → List Text → Option Row
parse_fields p (a ∷ b ∷ c ∷ d ∷ []) = row_of (p.int a) (p.int b) (p.int c) (p.shlex d)
parse_fields p (a ∷ b ∷ c ∷ d ∷ e ∷ rest) = none
parse_fields p (a ∷ b ∷ c ∷ []) = none
parse_fields p (a ∷ b ∷ []) = none
parse_fields p (a ∷ []) = none
parse_fields p [] = none

unfoldable pub parse_line : Platform → Text → Option Row
unfolding strip split_max is_space
parse_line p line = parse_fields p (split_max 3 (strip is_space line))

-- A process of the user that may be ended.
abbrev pub is_ours : Platform → Row → Bool
is_ours p row =
    row.owner ==ℤ p.uid && not (row.pid ==ℤ pos 0 || row.pid ==ℤ pos 1 || row.pid ==ℤ p.own_pid)

-- The command of a prefetch, with the resolved cache.
unfoldable pub is_prefetch : Platform → Text → List Text → Bool
unfolding ◌==ₜ◌
is_prefetch p cache (a ∷ b ∷ c ∷ d ∷ []) =
    p.name a ==ₜ codes "xcodebuild"
    && b ==ₜ codes "-clonedSourcePackagesDirPath"
    && d ==ₜ codes "-resolvePackageDependencies"
    && p.resolve c ==ₜ cache
is_prefetch p cache (a ∷ b ∷ c ∷ d ∷ e ∷ rest) = false
is_prefetch p cache (a ∷ b ∷ c ∷ []) = false
is_prefetch p cache (a ∷ b ∷ []) = false
is_prefetch p cache (a ∷ []) = false
is_prefetch p cache [] = false

-- `processes[pid] = parent`
unfoldable pub put : ℤ → ℤ → List (ℤ × ℤ) → List (ℤ × ℤ)
put pid parent [] = (pid, parent) ∷ []
put pid parent ((p, q) ∷ rest) = elim (p ==ℤ pid) [
  | true ↦ (pid, parent) ∷ rest
  | false ↦ (p, q) ∷ put pid parent rest
]

pub record Table : Type 0 where
  pub processes : List (ℤ × ℤ)
  pub matched : List ℤ

abbrev pub add_row : Platform → Text → Table → Option Row → Table
add_row p cache t none = t
add_row p cache t (some row) =
    if is_ours p row
    then record {
      processes = put row.pid row.parent t.processes;
      matched = if is_prefetch p cache row.argv then t.matched ++ row.pid ∷ [] else t.matched;
    }
    else t

unfoldable pub table_of : Platform → Text → Table → List Text → Table
unfolding parse_line is_prefetch put
table_of p cache t [] = t
table_of p cache t (line ∷ lines) = table_of p cache (add_row p cache t (parse_line p line)) lines

abbrev pub is_in : ℤ → List ℤ → Bool
is_in x [] = false
is_in x (y ∷ ys) = y ==ℤ x || is_in x ys

-- `set(xs)`, as a list in which each element stands once.
unfoldable pub to_set : List ℤ → List ℤ
to_set [] = []
to_set (x ∷ xs) = elim (is_in x xs) [ true ↦ to_set xs | false ↦ x ∷ to_set xs ]

-- The children of the tree that are not in it.
abbrev pub new_children : List (ℤ × ℤ) → List ℤ → List ℤ
new_children [] tree = []
new_children ((pid, parent) ∷ rest) tree = elim (is_in parent tree && not (is_in pid tree)) [
  | true ↦ pid ∷ new_children rest tree
  | false ↦ new_children rest tree
]

-- `while True`, by rounds.
unfoldable pub grow : ℕ → List (ℤ × ℤ) → List ℤ → Option (List ℤ)
grow zero processes tree = none
grow (suc rounds) processes tree = elim (new_children processes tree) [
  | [] ↦ some tree
  | c ∷ cs ↦ grow rounds processes (tree ++ c ∷ cs)
]

abbrev pub int_before : ℤ → ℤ → Bool
int_before (pos a) (pos b) = ltb a b
int_before (pos a) (negsuc b) = false
int_before (negsuc a) (pos b) = true
int_before (negsuc a) (negsuc b) = ltb b a

unfoldable pub insert : ℤ → List ℤ → List ℤ
insert x [] = x ∷ []
insert x (y ∷ ys) = elim (int_before x y) [ true ↦ x ∷ y ∷ ys | false ↦ y ∷ insert x ys ]

unfoldable pub sort : List ℤ → List ℤ
unfolding insert
sort [] = []
sort (x ∷ xs) = insert x (sort xs)

abbrev pub sorted_tree : List ℤ → Option (List ℤ) → Option (List ℤ × List ℤ)
sorted_tree matched none = none
sorted_tree matched (some tree) = some (sort matched, sort tree)

-- The matched processes and the tree below them.
unfoldable pub stale_prefetches : Platform → Text → List Text → Option (List ℤ × List ℤ)
unfolding table_of to_set grow sort
stale_prefetches p cache lines =
    let t = table_of p cache (record { processes = []; matched = [] }) lines in
    sorted_tree t.matched (grow (length t.processes + 1) t.processes (to_set t.matched))

pub data Signal : Type 0 where
  sigterm sigkill : Signal

-- `os.kill`: sent, no such process, or refused.
pub data Killed : Type 0 where
  sent no_process refused : Killed

pub data Failure : Type 0 where
  prefetch_process_inventory_failed prefetch_process_cleanup_failed no_rounds : Failure

-- The signals that were asked for, in order.
abbrev pub Log : Type 0
Log = List (ℤ × Signal)

unfoldable pub kill_all :
    (Log → ℤ → Signal → Killed) → Signal → List ℤ → Log → Result Failure (Unit {0}) × Log
kill_all kill sig [] log = (ok tt, log)
kill_all kill sig (pid ∷ pids) log = elim (kill log pid sig) [
  | sent ↦ kill_all kill sig pids (log ++ (pid, sig) ∷ [])
  | no_process ↦ kill_all kill sig pids (log ++ (pid, sig) ∷ [])
  | refused ↦ (err prefetch_process_cleanup_failed, log ++ (pid, sig) ∷ [])
]

abbrev pub reverse_onto : List ℤ → List ℤ → List ℤ
reverse_onto acc [] = acc
reverse_onto acc (x ∷ xs) = reverse_onto (x ∷ acc) xs

abbrev pub then_kill :
    (Log → ℤ → Signal → Killed)
    → List ℤ
    → Result Failure (Unit {0}) × Log
    → Result Failure (Unit {0}) × Log
then_kill kill pids (err e, log) = (err e, log)
then_kill kill pids (ok u, log) = kill_all kill sigkill pids log

abbrev pub report_of :
    List ℤ → List ℤ → Result Failure (Unit {0}) × Log → Result Failure (List ℤ × List ℤ) × Log
report_of matched tree (err e, log) = (err e, log)
report_of matched tree (ok u, log) = (ok (matched, tree), log)

abbrev pub end_tree :
    (Log → ℤ → Signal → Killed) → Option (List ℤ × List ℤ) → Result Failure (List ℤ × List ℤ) × Log
end_tree kill none = (err no_rounds, [])
end_tree kill (some (matched, tree)) =
    report_of matched tree
      (then_kill kill (reverse_onto [] tree) (kill_all kill sigterm (reverse_onto [] tree) []))

-- The result of `ps` is its lines, or none where it failed.
unfoldable pub cleanup_stale :
    Platform
    → Text
    → (Log → ℤ → Signal → Killed)
    → Option (List Text)
    → Result Failure (List ℤ × List ℤ) × Log
unfolding stale_prefetches kill_all
cleanup_stale p cache kill none = (err prefetch_process_inventory_failed, [])
cleanup_stale p cache kill (some lines) = end_tree kill (stale_prefetches p cache lines)
