-- ===== src/Prefetch/Signals.antt =====
-- The signals that `cleanup_stale` of tool/resolve_macos_packages.py asks for, by their log.
use xfl_clash.Prelude.{
  List, [], ◌∷◌, ◌++◌, ◌≡◌, refl, ◌⊎◌, inl, inr, All, All-append, In, Result, ok, err,
}
use mathlib.Core.Path.{subst}
use xfl_clash.Prelude.Int.{ℤ}
use xfl_clash.Prefetch.{
  Signal, sigterm, sigkill, Killed, sent, no_process, refused, Failure,
  prefetch_process_cleanup_failed, Log, kill_all, reverse_onto, then_kill, report_of,
}
use xfl_clash.Prefetch.Tree.{In-left}

pub err-ok : {A : Type 0} (e : Failure) (a : A) → ◌≡◌ {A = Result Failure A} (err e) (ok a) → ⊥
err-ok e a h = cc

pub reverse_onto-In : (x : ℤ) (acc xs : List ℤ) → In x (reverse_onto acc xs) → In x acc ⊎ In x xs
reverse_onto-In x acc [] i = inl i
reverse_onto-In x acc (y ∷ ys) i = elim (reverse_onto-In x (y ∷ acc) ys i) [
  | inl (inl same) ↦ inr (inl same)
  | inl (inr j) ↦ inl j
  | inr j ↦ inr (inr j)
]

pub In-reverse_onto : (x : ℤ) (acc xs : List ℤ) → In x acc ⊎ In x xs → In x (reverse_onto acc xs)
In-reverse_onto x acc [] (inl i) = i
In-reverse_onto x acc [] (inr i) = elim i [ ]
In-reverse_onto x acc (y ∷ ys) (inl i) = In-reverse_onto x (y ∷ acc) ys (inl (inr i))
In-reverse_onto x acc (y ∷ ys) (inr (inl same)) = In-reverse_onto x (y ∷ acc) ys (inl (inl same))
In-reverse_onto x acc (y ∷ ys) (inr (inr i)) = In-reverse_onto x (y ∷ acc) ys (inr i)

-- What the signals to some processes add to the log.
pub record Signalled (P : ℤ → Type 0) (sig : Signal) (pids : List ℤ) (log : Log)
    (o : Result Failure (Unit {0}) × Log) : Type 0 where
  pub only : All (λ e. P e.0) log → All (λ e. P e.0) o.1
  pub earlier : (e : ℤ × Signal) → In e log → In e o.1
  pub each : o.0 ≡ ok tt → (x : ℤ) → In x pids → In (x, sig) o.1

pub In-snoc : (e : ℤ × Signal) (log : Log) → In e (log ++ e ∷ [])
In-snoc e [] = inl refl
In-snoc e (f ∷ log) = inr (In-snoc e log)

pub kill_all-Signalled :
    (P : ℤ → Type 0) (kill : Log → ℤ → Signal → Killed) (sig : Signal) (pids : List ℤ) (log : Log)
    → ((x : ℤ) → In x pids → P x)
    → Signalled P sig pids log (kill_all kill sig pids log)
unfolding kill_all
kill_all-Signalled P kill sig [] log own = record {
  only = λ a. a;
  earlier = λ e i. i;
  each = λ h x i. elim i [ ];
}
kill_all-Signalled P kill sig (pid ∷ pids) log own =
    one (kill log pid sig)
      (kill_all-Signalled P kill sig pids (log ++ (pid, sig) ∷ []) (λ x i. own x (inr i)))
  where
    later :
        Signalled P sig pids
          (log ++ (pid, sig) ∷ [])
          (kill_all kill sig pids (log ++ (pid, sig) ∷ []))
        → Signalled P sig (pid ∷ pids) log (kill_all kill sig pids (log ++ (pid, sig) ∷ []))
    later k = record {
      only = λ a. k.only (All-append (λ e. P e.0) log ((pid, sig) ∷ []) a (own pid (inl refl), tt));
      earlier = λ e i. k.earlier e (In-left e log ((pid, sig) ∷ []) i);
      each = λ h x i. elim i [
        | inl same ↦
            subst (λ z. In (z, sig) (kill_all kill sig pids (log ++ (pid, sig) ∷ [])).1) same
              (k.earlier (pid, sig) (In-snoc (pid, sig) log))
        | inr j ↦ k.each h x j
      ];
    }

    one :
        (killed : Killed)
        → Signalled P sig pids
            (log ++ (pid, sig) ∷ [])
            (kill_all kill sig pids (log ++ (pid, sig) ∷ []))
        → Signalled P sig (pid ∷ pids) log (elim killed [
          | sent ↦ kill_all kill sig pids (log ++ (pid, sig) ∷ [])
          | no_process ↦ kill_all kill sig pids (log ++ (pid, sig) ∷ [])
          | refused ↦ (err prefetch_process_cleanup_failed, log ++ (pid, sig) ∷ [])
        ])
    one sent k = later k
    one no_process k = later k
    one refused k = record {
      only = λ a. All-append (λ e. P e.0) log ((pid, sig) ∷ []) a (own pid (inl refl), tt);
      earlier = λ e i. In-left e log ((pid, sig) ∷ []) i;
      each = λ h x i. elim (err-ok _ _ h) [ ];
    }

-- A cleanup of a tree: what it signalled, and what it returns.
pub record Ended (P : ℤ → Type 0) (tree : List ℤ) (o : Result Failure (List ℤ × List ℤ) × Log)
    : Type 0 where
  pub only : All (λ e. P e.0) o.1
  pub each :
      (r : List ℤ × List ℤ)
      → o.0 ≡ ok r
      → (x : ℤ) → In x tree
      → In (x, sigterm) o.1 × In (x, sigkill) o.1

pub after_term :
    (P : ℤ → Type 0) (kill : Log → ℤ → Signal → Killed) (matched tree : List ℤ)
    (o : Result Failure (Unit {0}) × Log)
    → ((x : ℤ) → In x tree → P x)
    → Signalled P sigterm (reverse_onto [] tree) [] o
    → Ended P tree (report_of matched tree (then_kill kill (reverse_onto [] tree) o))
after_term P kill matched tree (err e, log) own k = record {
  only = k.only tt;
  each = λ r h x i. elim (err-ok _ _ h) [ ];
}
after_term P kill matched tree (ok u, log) own k =
    after_kill (kill_all kill sigkill (reverse_onto [] tree) log) (
      kill_all-Signalled P kill sigkill (reverse_onto [] tree) log
        (λ x i. elim (reverse_onto-In x [] tree i) [ inl j ↦ elim j [ ] | inr j ↦ own x j ]))
  where
    after_kill :
        (o : Result Failure (Unit {0}) × Log)
        → Signalled P sigkill (reverse_onto [] tree) log o
        → Ended P tree (report_of matched tree o)
    after_kill (err e, last) n = record {
      only = n.only (k.only tt);
      each = λ r h x i. elim (err-ok _ _ h) [ ];
    }
    after_kill (ok v, last) n = record {
      only = n.only (k.only tt);
      each = λ r h x i. (
        n.earlier (x, sigterm) (k.each refl x (In-reverse_onto x [] tree (inr i))),
        n.each refl x (In-reverse_onto x [] tree (inr i)),
      );
    }
