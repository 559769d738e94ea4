-- ===== src/Confirmation/Rounds/Sound.antt =====
-- What a report of `confirm_symbol_inventory` stands for, tool/sentry_upload_confirmation.py.
use xfl_clash.Prelude.{
  ℕ, zero, suc, ◌+◌, ◌-◌, ◌*◌, ◌≤◌, true, false, not, ◌||◌, List, [], ◌∷◌, ◌≡◌, ◌≢◌, refl, leb, min,
  Text, ◌==ₜ◌, ==ₜ_sound, any, keep, length, Result, ok, err, All, All-mono, In, In-keep,
  length-keep, ◌⊎◌, inl, inr, Bool-cases, arith, or_false,
}
use xfl_clash.Confirmation.Requirements.{
  Category, Requirement, Row, matches, is_nil, symbols_unconfirmed_before_deadline,
}
use xfl_clash.Confirmation.Rounds.{
  Refusal, Service, is_transient, idents, Progress, Sweep, going, raised, still_pending,
  take_result, take_results, confirmed, failed, Report, Ended, query, query_all, conclude,
  after_sweep, round, wait_rounds, no_progress, confirm_all, ended,
}

module _ {W : Type 0} (service : Service W) (Held : Requirement → Type 0)
    (served : (ident : Text) (seconds : ℕ) (w : W) (rows : List Row) (item : Requirement)
      → (service.fetch ident seconds w).0 ≡ ok rows
      → item.ident ≡ ident
      → any (λ row. matches row item) rows ≡ true
      → Held item) where
  -- The rows of an answer are the server's.
  abbrev IsAnswer : Text → Result Refusal (List Row) → Type 0
  IsAnswer ident (err r) = Unit
  IsAnswer ident (ok rows) =
      (item : Requirement)
      → item.ident ≡ ident
      → any (λ row. matches row item) rows ≡ true
      → Held item

  IsAnswer-fetch :
      (ident : Text) (seconds : ℕ) (w : W) (r : Result Refusal (List Row))
      → (service.fetch ident seconds w).0 ≡ r
      → IsAnswer ident r
  IsAnswer-fetch ident seconds w (ok rows) e = λ item. served ident seconds w rows item e
  IsAnswer-fetch ident seconds w (err r) e = tt

  query-IsAnswer :
      (deadline : ℕ) (ident : Text) (w : W) → IsAnswer ident (query service deadline ident w).0
  unfolding query
  query-IsAnswer deadline ident w =
      let (time, w') = service.now w in
      elim (Bool-cases (leb deadline time)) [
        | inl late ↦ rw late tt
        | inr early ↦
            rw early (IsAnswer-fetch ident (min (15 * service.second) (deadline - time)) w' _ refl)
      ]

  query_all-IsAnswer :
      (deadline : ℕ) (ids : List Text) (w : W)
      → All (λ a. IsAnswer a.0 a.1) (query_all service deadline ids w).0
  unfolding query_all
  query_all-IsAnswer deadline [] w = tt
  query_all-IsAnswer deadline (ident ∷ rest) w =
      let (answer, w') = query service deadline ident w in
      (query-IsAnswer deadline ident w, query_all-IsAnswer deadline rest w')

  -- Each requirement is held by the server or still to be confirmed, and none was added.
  record Accounts (all_of : List Requirement) (pending : List Requirement) : Type 0 where
    each : All (λ r. Held r ⊎ In r pending) all_of
    shorter : length pending ≤ length all_of

  abbrev progress_of : Sweep → Progress
  progress_of (going p) = p
  progress_of (raised c p) = p

  still_held :
      (ident : Text) (rows : List Row) (r : Requirement)
      → IsAnswer ident (ok rows)
      → still_pending ident rows r ≡ false
      → Held r
  still_held ident rows r h e =
      let (same, found) = or_false (not (r.ident ==ₜ ident)) _ e in
      h r (==ₜ_sound r.ident ident (ground (arith))) (ground (arith))

  keep-Accounts :
      (all_of : List Requirement) (ident : Text) (rows : List Row) (pending : List Requirement)
      → IsAnswer ident (ok rows)
      → Accounts all_of pending
      → Accounts all_of (keep (still_pending ident rows) pending)
  keep-Accounts all_of ident rows pending h a = record {
    each =
        All-mono (λ r. Held r ⊎ In r pending)
          (λ r. Held r ⊎ In r (keep (still_pending ident rows) pending)) all_of one a.each;
    shorter = omega (arith, length-keep (still_pending ident rows) pending, a.shorter);
  }
    where
      one :
          (r : Requirement)
          → Held r ⊎ In r pending
          → Held r ⊎ In r (keep (still_pending ident rows) pending)
      one r (inl held) = inl held
      one r (inr m) = elim (Bool-cases (still_pending ident rows r)) [
        | inl still ↦ inr (In-keep (still_pending ident rows) r pending still m)
        | inr gone ↦ inl (still_held ident rows r h gone)
      ]

  take_result-Accounts :
      (all_of : List Requirement) (ident : Text) (answer : Result Refusal (List Row)) (p : Progress)
      → IsAnswer ident answer
      → Accounts all_of p.pending
      → Accounts all_of (progress_of (take_result ident answer p)).pending
  unfolding take_result
  take_result-Accounts all_of ident (ok rows) p h a = keep-Accounts all_of ident rows p.pending h a
  take_result-Accounts all_of ident (err r) p h a = elim (Bool-cases (is_transient r.category)) [
    | inl e ↦ rw e a
    | inr e ↦ rw e a
  ]

  after_result :
      (all_of : List Requirement) (s : Sweep) (rest : Progress → Sweep)
      → Accounts all_of (progress_of s).pending
      → ((q : Progress)
          → Accounts all_of q.pending
          → Accounts all_of (progress_of (rest q)).pending)
      → Accounts all_of
          (progress_of (elim s [ going p' ↦ rest p' | raised c p' ↦ raised c p' ])).pending
  after_result all_of (going q) rest b h = h q b
  after_result all_of (raised c q) rest b h = b

  take_results-Accounts :
      (all_of : List Requirement) (answers : List (Text × Result Refusal (List Row))) (p : Progress)
      → All (λ a. IsAnswer a.0 a.1) answers
      → Accounts all_of p.pending
      → Accounts all_of (progress_of (take_results answers p)).pending
  unfolding take_results
  take_results-Accounts all_of [] p h a = a
  take_results-Accounts all_of ((ident, answer) ∷ rest) p h a =
      after_result all_of (take_result ident answer p) (take_results rest)
        (take_result-Accounts all_of ident answer p h.0 a)
        (λ q b. take_results-Accounts all_of rest q h.1 b)

  -- A report that says `confirmed` misses nothing.
  record IsSound (all_of : List Requirement) (e : Ended) : Type 0 where
    accounts : Accounts all_of e.progress.pending
    complete : (e.status ≢ confirmed) ⊎ (e.progress.pending ≡ [])
    bounded : e.rounds ≤ 61

  failed-IsSound :
      (all_of : List Requirement) (c : Category) (p : Progress) (rounds : ℕ) (w : W)
      → rounds ≤ 61
      → Accounts all_of p.pending
      → IsSound all_of (ended service (failed c) p rounds w).0
  failed-IsSound all_of c p rounds w b a = record {
    accounts = a;
    complete = inl (λ e. cc);
    bounded = b;
  }

  nil_of : (rs : List Requirement) → is_nil rs ≡ true → rs ≡ []
  nil_of [] h = refl
  nil_of (r ∷ rs) h = cc

  conclude-IsSound :
      (all_of : List Requirement) (deadline : ℕ) (again : Progress → W → Ended × W) (rounds : ℕ)
      (p : Progress) (w : W)
      → rounds ≤ 61
      → Accounts all_of p.pending
      → ((v : W) → IsSound all_of (again p v).0)
      → IsSound all_of (conclude service deadline again rounds p w).0
  unfolding conclude
  conclude-IsSound all_of deadline again rounds p w b a k = elim (Bool-cases (is_nil p.pending)) [
    | inl e ↦ rw e (record { accounts = a; complete = inr (nil_of p.pending e); bounded = b })
    | inr e ↦
        let (time, w') = service.now w in
        rw e (elim (Bool-cases (leb deadline time || leb (deadline - time) p.delay)) [
          | inl late ↦
              rw late (failed-IsSound all_of symbols_unconfirmed_before_deadline p rounds w' b a)
          | inr early ↦ rw early (k (service.sleep p.delay w'))
        ])
  ]

  after_sweep-IsSound :
      (all_of : List Requirement) (deadline : ℕ) (again : Progress → W → Ended × W) (rounds : ℕ)
      (s : Sweep) (w : W)
      → rounds ≤ 61
      → Accounts all_of (progress_of s).pending
      → ((q : Progress) (v : W) → Accounts all_of q.pending → IsSound all_of (again q v).0)
      → IsSound all_of (after_sweep service deadline again rounds s w).0
  unfolding after_sweep
  after_sweep-IsSound all_of deadline again rounds (going p) w b a k =
      conclude-IsSound all_of deadline again rounds p w b a (λ v. k p v a)
  after_sweep-IsSound all_of deadline again rounds (raised c p) w b a k =
      failed-IsSound all_of c p rounds w b a

  wait_rounds-IsSound :
      (all_of : List Requirement) (left deadline : ℕ) (p : Progress) (w : W)
      → left ≤ 61
      → Accounts all_of p.pending
      → IsSound all_of (wait_rounds service left deadline p w).0
  unfolding wait_rounds round
  wait_rounds-IsSound all_of zero deadline p w b a =
      failed-IsSound all_of symbols_unconfirmed_before_deadline p 61 w (omega arith) a
  wait_rounds-IsSound all_of (suc left) deadline p w b a =
      let (time, w') = service.now w in
      elim (Bool-cases (is_nil p.pending || leb deadline time)) [
        | inl stop ↦
            rw (stop, wait_rounds)
              (failed-IsSound all_of symbols_unconfirmed_before_deadline p (61 - suc left) w'
                (omega arith) a)
        | inr go ↦
            rw (go, wait_rounds)
              (after_sweep-IsSound all_of deadline (wait_rounds service left deadline) (61 - left) _
                _ (omega arith)
                (take_results-Accounts all_of _ (record p { delay = 10 * service.second })
                  (query_all-IsAnswer deadline (idents p.pending) w') a)
                (λ q v c. wait_rounds-IsSound all_of left deadline q v (omega arith) c))
      ]

  -- What a report says, by its last lists and figures.
  pub record Confirms (all_of : List Requirement) (report : Report) : Type 0 where
    pub each : All (λ r. Held r ⊎ In r report.missing) all_of
    pub complete : (report.status ≢ confirmed) ⊎ (report.missing ≡ [])
    pub figures : report.confirmed_count + length report.missing ≡ length all_of
    pub rounds : report.rounds ≤ 61

  All-In : (rs : List Requirement) → All (λ r. Held r ⊎ In r rs) rs
  All-In [] = tt
  All-In (r ∷ rs) = (
    inr (inl refl),
    All-mono (λ q. Held q ⊎ In q rs) (λ q. Held q ⊎ In q (r ∷ rs)) rs later (All-In rs),
  )
    where
      later : (q : Requirement) → Held q ⊎ In q rs → Held q ⊎ In q (r ∷ rs)
      later q (inl h) = inl h
      later q (inr m) = inr (inr m)

  -- However requests, clock and waiting go, the confirmation loop makes at most 61 rounds and its
  -- report is true: each requirement is matched by a row the server gave for its identifier or is
  -- listed as missing, the figures add up, and a report that says confirmed misses none.
  pub confirm_all-Confirms :
      (budget : ℕ) (pending : List Requirement) (w : W)
      → Confirms pending (confirm_all service budget pending w).0
  unfolding confirm_all
  confirm_all-Confirms budget pending w =
      let (started, w') = service.now w in
      let s =
        wait_rounds-IsSound pending 61 (started + budget) (no_progress service pending) w'
          (omega arith) (record { each = All-In pending; shorter = omega arith }) in
      record {
        each = s.accounts.each;
        complete = s.complete;
        figures = omega (arith, s.accounts.shorter);
        rounds = s.bounded;
      }
