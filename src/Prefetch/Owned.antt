-- ===== src/Prefetch/Owned.antt =====
-- Which processes `cleanup_stale` of tool/resolve_macos_packages.py signals.
use xfl_clash.Prelude.{
  Bool, true, false, Option, none, some, List, [], ◌∷◌, ◌++◌, ◌≡◌, refl, sym, ap, ◌↔◌, inl, inr,
  if◌then◌else◌, Text, All, In, Bool-cases, Result, ok,
}
use mathlib.Core.Path.{subst}
use xfl_clash.Prelude.Int.{ℤ, ◌==ℤ◌}
use xfl_clash.Prefetch.{
  Platform, Row, parse_line, is_ours, is_prefetch, put, Table, add_row, table_of, sort, sorted_tree,
  stale_prefetches, Signal, sigterm, sigkill, Killed, Failure, Log, kill_all, reverse_onto,
  end_tree, cleanup_stale,
}
use xfl_clash.Prefetch.Signals.{reverse_onto-In, kill_all-Signalled, Ended, after_term}
use xfl_clash.Prefetch.Tree.{IsBelow, root, child, grow-IsTree, sort-In, In-either}

put-In :
    (pid parent : ℤ) (e : ℤ × ℤ) (processes : List (ℤ × ℤ))
    → In e (put pid parent processes)
    → In e ((pid, parent) ∷ processes)
unfolding put
put-In pid parent e [] i = i
put-In pid parent e ((p, q) ∷ rest) i = elim (Bool-cases (p ==ℤ pid)) [
  | inl s ↦ replaced (rw (s, put) at i)
  | inr s ↦ kept (rw (s, put) at i) (put-In pid parent e rest)
]
  where
    replaced : In e ((pid, parent) ∷ rest) → In e ((pid, parent) ∷ (p, q) ∷ rest)
    replaced (inl same) = inl same
    replaced (inr j) = inr (inr j)

    behind : In e ((pid, parent) ∷ rest) → In e ((pid, parent) ∷ (p, q) ∷ rest)
    behind (inl same) = inl same
    behind (inr j) = inr (inr j)

    kept :
        In e ((p, q) ∷ put pid parent rest)
        → (In e (put pid parent rest) → In e ((pid, parent) ∷ rest))
        → In e ((pid, parent) ∷ (p, q) ∷ rest)
    kept (inl same) k = inr (inl same)
    kept (inr j) k = behind (k j)

module _ (p : Platform) (cache : Text) (lines : List Text) where
  -- A line of `ps` shows a process of the user with this number, which is not the first ones or
  -- this process.
  abbrev pub IsOurs : ℤ → Type 0
  IsOurs x =
      (line : Text) × (row : Row) × In line lines
      × (parse_line p line ≡ some row)
      × (is_ours p row ≡ true)
      × (row.pid ≡ x)

  -- One with the command of a prefetch for this cache.
  abbrev pub IsPrefetch : ℤ → Type 0
  IsPrefetch x =
      (line : Text) × (row : Row) × In line lines
      × (parse_line p line ≡ some row)
      × (is_prefetch p cache row.argv ≡ true)
      × (row.pid ≡ x)

  record IsRead (t : Table) : Type 0 where
    processes : (e : ℤ × ℤ) → In e t.processes → IsOurs e.0
    matched : (x : ℤ) → In x t.matched → IsOurs x × IsPrefetch x

  add_row-IsRead :
      (t : Table) (line : Text) (o : Option Row)
      → In line lines
      → parse_line p line ≡ o
      → IsRead t
      → IsRead (add_row p cache t o)
  add_row-IsRead t line none i e r = r
  add_row-IsRead t line (some row) i e r = elim (Bool-cases (is_ours p row)) [
    | inr foreign ↦ rw (foreign, add_row) r
    | inl ours ↦
        rw (ours, add_row)
          (record {
            processes = λ x j. of_process ours x (put-In row.pid row.parent x t.processes j);
            matched = of_matched ours (is_prefetch p cache row.argv) refl;
          })
  ]
    where
      of_process :
          is_ours p row ≡ true
          → (x : ℤ × ℤ) → In x ((row.pid, row.parent) ∷ t.processes)
          → IsOurs x.0
      of_process ours x (inl same) = (line, row, i, e, ours, ap (λ z. z.0) same)
      of_process ours x (inr j) = r.processes x j

      of_matched :
          is_ours p row ≡ true
          → (b : Bool) → is_prefetch p cache row.argv ≡ b
          → (x : ℤ) → In x (if b then t.matched ++ row.pid ∷ [] else t.matched)
          → IsOurs x × IsPrefetch x
      of_matched ours false f x j = r.matched x j
      of_matched ours true f x j = elim (In-either x t.matched (row.pid ∷ []) j) [
        | inl k ↦ r.matched x k
        | inr k ↦ elim k [
          | inl same ↦ ((line, row, i, e, ours, same), (line, row, i, e, f, same))
          | inr none_left ↦ elim none_left [ ]
        ]
      ]

  table_of-IsRead :
      (t : Table) (rest : List Text)
      → ((l : Text) → In l rest → In l lines)
      → IsRead t
      → IsRead (table_of p cache t rest)
  unfolding table_of
  table_of-IsRead t [] sub r = r
  table_of-IsRead t (line ∷ rest) sub r =
      table_of-IsRead (add_row p cache t (parse_line p line)) rest (λ l i. sub l (inr i))
        (add_row-IsRead t line (parse_line p line) (sub line (inl refl)) refl r)

  abbrev pub table : Table
  table = table_of p cache (record { processes = []; matched = [] }) lines

  table-IsRead : IsRead table
  table-IsRead =
      table_of-IsRead (record { processes = []; matched = [] }) lines (λ l i. i)
        (record { processes = λ e i. elim i [ ]; matched = λ x i. elim i [ ] })

  below-IsOurs : (x : ℤ) → IsBelow table.processes table.matched x → IsOurs x
  below-IsOurs _ (root x i) = (table-IsRead.matched x i).0
  below-IsOurs _ (child x parent i below) = table-IsRead.processes (x, parent) i

  -- On any lines of ps, stale_prefetches ends with the matched processes and the tree below them: a
  -- process is in the tree exactly where it is matched, or a child of one in the tree by the table
  -- of parents. Every process in it is shown by a line as the user's own and is not 0, 1 or this
  -- process; a matched one has the command of a prefetch for this cache.
  pub stale_prefetches-IsTree :
      (matched tree : List ℤ) × (stale_prefetches p cache lines ≡ some (matched, tree))
      × ((x : ℤ) → In x matched ↔ In x table.matched)
      × ((x : ℤ) → In x tree ↔ IsBelow table.processes table.matched x)
      × ((x : ℤ) → In x matched → IsOurs x × IsPrefetch x)
      × ((x : ℤ) → In x tree → IsOurs x)
  unfolding stale_prefetches
  stale_prefetches-IsTree =
      let (tree, e, is_tree) = grow-IsTree table.processes table.matched in
      (
        sort table.matched,
        sort tree,
        ap (sorted_tree table.matched) e,
        λ x. sort-In x table.matched,
        λ x. (
          λ i. is_tree.sound x ((sort-In x tree).0 i),
          λ b. (sort-In x tree).1 (is_tree.complete x b),
        ),
        λ x i. table-IsRead.matched x ((sort-In x table.matched).0 i),
        λ x i. below-IsOurs x (is_tree.sound x ((sort-In x tree).0 i)),
      )

  -- The end of a process that `cleanup_stale` asks for.
  abbrev pub IsStale : ℤ → Type 0
  IsStale x = IsOurs x × IsBelow table.processes table.matched x

  pub record IsCleanup (o : Result Failure (List ℤ × List ℤ) × Log) : Type 0 where
    pub only : All (λ e. IsStale e.0) o.1
    pub each :
        (r : List ℤ × List ℤ)
        → o.0 ≡ ok r
        → (x : ℤ) → IsBelow table.processes table.matched x
        → In (x, sigterm) o.1 × In (x, sigkill) o.1

  -- Whatever the answers to its signals are, cleanup_stale signals only processes of the user that
  -- are below a matched prefetch, and where it returns, it has sent both signals to each of them.
  pub cleanup_stale-IsCleanup :
      (kill : Log → ℤ → Signal → Killed) → IsCleanup (cleanup_stale p cache kill (some lines))
  unfolding cleanup_stale
  cleanup_stale-IsCleanup kill =
      let (matched, tree, e, of_matched, of_tree, ours, tree_ours) = stale_prefetches-IsTree in
      let ended : Ended IsStale tree (end_tree kill (some (matched, tree))) =
        after_term IsStale kill matched tree (kill_all kill sigterm (reverse_onto [] tree) [])
          (λ x i. (tree_ours x i, (of_tree x).0 i))
          (kill_all-Signalled IsStale kill sigterm (reverse_onto [] tree) [] (λ x i.
            elim (reverse_onto-In x [] tree i) [
              | inl j ↦ elim j [ ]
              | inr j ↦ (tree_ours x j, (of_tree x).0 j)
            ])) in
      subst (λ o. IsCleanup (end_tree kill o)) (sym e)
        (record { only = ended.only; each = λ r h x b. ended.each r h x ((of_tree x).1 b) })
