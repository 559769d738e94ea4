-- ===== src/Confirmation/Rounds.antt =====
-- `confirm_symbol_inventory` of tool/sentry_upload_confirmation.py: at most 61 rounds of queries
-- within a time budget. The clock, the requests and the waiting are actions on a world, and times
-- are in a whole unit (the source reads seconds from a monotonic clock).
pub mod Sound
use xfl_clash.Prelude.{
  ℕ, zero, suc, ◌+◌, ◌-◌, ◌*◌, Bool, true, false, not, ◌&&◌, ◌||◌, Option, none, some, List, [],
  ◌∷◌, ◌++◌, ltb, leb, ◌==◌, if◌then◌else◌, max, min, Text, ◌==ₜ◌, any, all, keep, length, Result,
  ok, err,
}
use xfl_clash.Confirmation.Requirements.{
  Category, Requirement, Row, Item, matches, requirements, is_nil, transport_error, server_error,
  rate_limited, confirmation_deadline, symbols_unconfirmed_before_deadline, refused,
  invalid_local_inventory,
}

-- `UploadError` of a request: its category and how long to wait before the next round.
pub record Refusal : Type 0 where
  pub category : Category
  pub retry_after : ℕ

-- The parts that the code takes as arguments or from `time`; `second` is the clock's unit.
pub record Service (W : Type 0) : Type 0 where
  pub now : W → ℕ × W
  pub fetch : Text → ℕ → W → Result Refusal (List Row) × W
  pub sleep : ℕ → W → W
  pub second : ℕ

abbrev pub is_transient : Category → Bool
is_transient transport_error = true
is_transient server_error = true
is_transient rate_limited = true
is_transient confirmation_deadline = true
is_transient _ = false

-- The lexicographic order of `sorted`.
abbrev pub text_before : Text → Text → Bool
text_before [] [] = false
text_before [] (y ∷ ys) = true
text_before (x ∷ xs) [] = false
text_before (x ∷ xs) (y ∷ ys) = ltb x y || (x == y && text_before xs ys)

abbrev pub insert_text : Text → List Text → List Text
insert_text t [] = t ∷ []
insert_text t (u ∷ us) =
    if t ==ₜ u then u ∷ us else if text_before t u then t ∷ u ∷ us else u ∷ insert_text t us

-- `sorted({item[0] for item in pending})`
abbrev pub idents : List Requirement → List Text
idents [] = []
idents (r ∷ rs) = insert_text r.ident (idents rs)

-- The report's figures and the requirements not yet confirmed.
pub record Progress : Type 0 where
  pub pending : List Requirement
  pub failures : ℕ
  pub delay : ℕ

-- A loop that goes on, or was left by an exception; what it had reached stands in both cases.
pub data Sweep : Type 0 where
  going : Progress → Sweep
  raised : Category → Progress → Sweep

-- The item is still to be confirmed after the rows of one answer.
abbrev pub still_pending : Text → List Row → Requirement → Bool
still_pending ident rows item =
    not (item.ident ==ₜ ident) || not (any (λ row. matches row item) rows)

-- The body of `for ident, result in pool.map(query, ids)`.
unfoldable pub take_result : Text → Result Refusal (List Row) → Progress → Sweep
take_result ident (ok rows) p =
    going (record p { pending = keep (still_pending ident rows) p.pending })
take_result ident (err r) p =
    if is_transient r.category
    then going (record p { failures = p.failures + 1; delay = max p.delay r.retry_after })
    else raised r.category (record p { failures = p.failures + 1 })

-- The loop over the answers; an exception leaves it.
unfoldable pub take_results : List (Text × Result Refusal (List Row)) → Progress → Sweep
take_results [] p = going p
take_results ((ident, result) ∷ rest) p = elim (take_result ident result p) [
  | going p' ↦ take_results rest p'
  | raised c p' ↦ raised c p'
]

pub data Status : Type 0 where
  confirmed : Status
  failed : Category → Status

-- The report as the `finally` block leaves it; `missing` is its last list.
pub record Report : Type 0 where
  pub status : Status
  pub expected : ℕ
  pub confirmed_count : ℕ
  pub rounds : ℕ
  pub request_failures : ℕ
  pub missing : List Requirement

-- How the waiting loop ended: the exception, if any, what was reached and the rounds made.
pub record Ended : Type 0 where
  pub status : Status
  pub progress : Progress
  pub rounds : ℕ

abbrev pub report_of : ℕ → Ended → Report
report_of total e = record {
  status = e.status;
  expected = total;
  confirmed_count = total - length e.progress.pending;
  rounds = e.rounds;
  request_failures = e.progress.failures;
  missing = e.progress.pending;
}

module _ {W : Type 0} (service : Service W) where
  -- `query`: past the deadline no request is made, and a request has 15 seconds at most.
  pub query : ℕ → Text → W → Result Refusal (List Row) × W
  query deadline ident w =
      let (time, w') = service.now w in
      if leb deadline time
      then (err (record { category = confirmation_deadline; retry_after = 0 }), w')
      else service.fetch ident (min (15 * service.second) (deadline - time)) w'

  -- `pool.map(query, ids)`: the pool runs every query, and gives the answers in the order of `ids`.
  pub query_all : ℕ → List Text → W → List (Text × Result Refusal (List Row)) × W
  query_all deadline [] w = ([], w)
  query_all deadline (ident ∷ rest) w =
      let (answer, w') = query deadline ident w in
      let (answers, last) = query_all deadline rest w' in ((ident, answer) ∷ answers, last)

  abbrev pub ended : Status → Progress → ℕ → W → Ended × W
  ended status p rounds w = (record { status = status; progress = p; rounds = rounds }, w)

  -- After the answers of a round: done, out of time, or another round after the delay.
  pub conclude : ℕ → (Progress → W → Ended × W) → ℕ → Progress → W → Ended × W
  conclude deadline again rounds p w =
      if is_nil p.pending
      then ended confirmed p rounds w
      else let (time, w') = service.now w in
        if leb deadline time || leb (deadline - time) p.delay
        then ended (failed symbols_unconfirmed_before_deadline) p rounds w'
        else again p (service.sleep p.delay w')

  pub after_sweep : ℕ → (Progress → W → Ended × W) → ℕ → Sweep → W → Ended × W
  after_sweep deadline again rounds (raised c p) w = ended (failed c) p rounds w
  after_sweep deadline again rounds (going p) w = conclude deadline again rounds p w

  pub round : ℕ → (Progress → W → Ended × W) → ℕ → Progress → W → Ended × W
  round deadline again rounds p w =
      let (answers, w') = query_all deadline (idents p.pending) w in
      after_sweep deadline again rounds
        (take_results answers (record p { delay = 10 * service.second })) w'

  -- `while pending and now() < deadline and report['rounds'] < 61`, by the rounds left.
  pub wait_rounds : ℕ → ℕ → Progress → W → Ended × W
  wait_rounds zero deadline p w = ended (failed symbols_unconfirmed_before_deadline) p 61 w
  wait_rounds (suc left) deadline p w =
      let (time, w') = service.now w in
      if is_nil p.pending || leb deadline time
      then ended (failed symbols_unconfirmed_before_deadline) p (61 - suc left) w'
      else round deadline (wait_rounds left deadline) (61 - left) p w'

  abbrev pub no_progress : List Requirement → Progress
  no_progress pending = record { pending = pending; failures = 0; delay = 0 }

  pub confirm_all : ℕ → List Requirement → W → Report × W
  confirm_all budget pending w =
      let (started, w') = service.now w in
      let (e, last) = wait_rounds 61 (started + budget) (no_progress pending) w' in
      (report_of (length pending) e, last)

  -- An inventory that is refused leaves no report.
  pub confirm : ℕ → List Item → W → Result Category Report × W
  confirm budget inventory w = elim (requirements inventory) [
    | err c ↦ (err c, w)
    | ok pending ↦ let (report, last) = confirm_all budget pending w in (ok report, last)
  ]
