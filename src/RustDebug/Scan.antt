-- ===== src/RustDebug/Scan.antt =====
-- The search by chunks against the lines of the whole output, `contains_rust_debug` of
-- tool/prepare_sentry_macos_symbols.py.
use xfl_clash.Prelude.{
  ℕ, ◌+◌, ◌-◌, ◌≤◌, ◌<◌, Bool, true, false, Option, none, some, [], ◌∷◌, ◌++◌, ◌≡◌, refl, sym, ap,
  ◌∙◌, inl, inr, ltb, if◌then◌else◌, length, length-append, take, drop, zero, suc, Bool-cases,
  arith, take-drop,
}
use mathlib.Core.Path.{ap₂}
use xfl_clash.Binary.{Bytes}
use xfl_clash.RustDebug.{
  max_line, max_output, drain, after_line, Step, found, over_limit, more, Progress, absorb, resume,
  scan_chunk, read, prepared, macos_rust_dwarfdump_output_limit, Pipe, late, ended, broken, idle,
  chunk, State, Ending, hit, drained, stopped, read_loop,
}
use xfl_clash.RustDebug.Lines.{
  ++-assoc, scan, scan_dropped, scan-long, Drained, drain-Drained, IsOpen, IsOpenRest, drain-IsOpen,
  Resumed, after_line-Resumed,
}

drop-short : (n : ℕ) (s : Bytes) → length s ≤ n → drop n s ≡ []
drop-short zero [] h = refl
drop-short zero (x ∷ s) h = ground (arith, h)
drop-short (suc n) [] h = refl
drop-short (suc n) (x ∷ s) h = drop-short n s (omega (arith, h))

pub take-short : (n : ℕ) (s : Bytes) → length s ≤ n → take n s ≡ s
take-short zero [] h = refl
take-short zero (x ∷ s) h = ground (arith, h)
take-short (suc n) [] h = refl
take-short (suc n) (x ∷ s) h = ap (◌∷◌ x) (take-short n s (omega (arith, h)))

take-append : (n : ℕ) (s t : Bytes) → take n (s ++ t) ≡ take n s ++ take (n - length s) t
take-append n [] t = ap (λ k. take k t) (let e : n ≡ n - 0 = omega arith in e) ∙ nothing n
  where
    nothing : (n : ℕ) → take (n - 0) t ≡ take n [] ++ take (n - 0) t
    nothing zero = refl
    nothing (suc n) = refl
take-append zero (x ∷ s) t = ap (λ k. take k t) (let e : 0 ≡ 0 - suc (length s) = omega arith in e)
take-append (suc n) (x ∷ s) t = ap (◌∷◌ x) (
    take-append n s t
    ∙ ap (λ k. take n s ++ take k t)
        (let e : n - length s ≡ suc n - suc (length s) = omega arith in e))

module _ (is_rust : Bytes → Bool) where
  -- The variables of the loop between two chunks.
  pub record IsBetween (p : Progress) : Type 0 where
    pub within : p.total ≤ max_output
    pub short : length p.pending ≤ max_line
    pub begun : IsOpen is_rust p.pending
    pub dropped : p.dropping ≡ true → p.pending ≡ []

  -- What the rest of the output has to be searched for.
  abbrev pub remaining : Progress → Bytes → Bool
  remaining p rest = if p.dropping then scan_dropped is_rust rest else scan is_rust p.pending rest

  -- A step is right for the bytes that it takes and any that follow.
  abbrev pub IsRight : (Bytes → Bool) → ℕ → Step → Type 0
  IsRight before total (found n) = (rest : Bytes) → before rest ≡ true
  IsRight before total (over_limit n) = max_output < total
  IsRight before total (more p) =
      IsBetween p × (p.total ≡ total) × ((rest : Bytes) → before rest ≡ remaining p rest)

  absorbed :
      (before : Bytes → Bool) (total : ℕ) (s : Bytes) (o : Option Bytes)
      → ((rest : Bytes) → before rest ≡ scan is_rust [] (s ++ rest))
      → Drained is_rust [] s o
      → IsOpenRest is_rust o
      → IsRight before total (elim o [
        | none ↦ found total
        | some rest ↦
            if ltb max_output total
            then over_limit total
            else if ltb max_line (length rest)
            then more (record { total = total; pending = []; dropping = true })
            else more (record { total = total; pending = rest; dropping = false })
      ])
  absorbed before total s none e d i = λ rest. e rest ∙ d rest
  absorbed before total s (some left) e d i = elim (Bool-cases (ltb max_output total)) [
    | inl over ↦ rw over (ground (arith, over))
    | inr under ↦ rw under (elim (Bool-cases (ltb max_line (length left))) [
      | inl long ↦ rw long (
        record {
          within = ground (arith, under);
          short = omega arith;
          begun = λ rest. refl;
          dropped = λ _. refl;
        },
        refl,
        λ rest. (e rest ∙ d rest) ∙ scan-long is_rust left rest (ground (arith, long)),
      )
      | inr short ↦ rw short (
        record {
          within = ground (arith, under);
          short = ground (arith, short);
          begun = i;
          dropped = λ h. cc;
        },
        refl,
        λ rest. e rest ∙ d rest,
      )
    ])
  ]

  absorb-IsRight :
      (before : Bytes → Bool) (total : ℕ) (pending captured : Bytes)
      → ((rest : Bytes) → before rest ≡ scan is_rust [] ((pending ++ captured) ++ rest))
      → IsRight before total (absorb is_rust total pending captured)
  unfolding absorb
  absorb-IsRight before total pending captured e =
      absorbed before total (pending ++ captured) (drain is_rust [] (pending ++ captured)) e
        (drain-Drained is_rust [] (pending ++ captured))
        (drain-IsOpen is_rust [] (pending ++ captured) (λ rest. refl))

  resume-IsRight :
      (before : Bytes → Bool) (total : ℕ) (p : Progress) (captured : Bytes) (o : Option Bytes)
      → IsBetween p
      → p.pending ≡ []
      → ((rest : Bytes) → before rest ≡ scan_dropped is_rust (captured ++ rest))
      → Resumed is_rust captured o
      → IsRight before total (resume is_rust total p.pending o)
  resume-IsRight before total p captured none between empty e r =
      elim (Bool-cases (ltb max_output total)) [
        | inl over ↦ rw (over, resume) (ground (arith, over))
        | inr under ↦
            rw (under, resume)
              (
                record {
                  within = ground (arith, under);
                  short = between.short;
                  begun = between.begun;
                  dropped = λ _. empty;
                },
                refl,
                λ rest. e rest ∙ r rest,
              )
      ]
  resume-IsRight before total p captured (some left) between empty e r =
      absorb-IsRight before total p.pending left
        λ rest. e rest ∙ (r rest ∙ ap (λ x. scan is_rust [] ((x ++ left) ++ rest)) (sym empty))

  -- The bytes that a limit cut off are not looked at by a step that goes on.
  uncut :
      (before after : Bytes → Bool) (cut : Bytes) (total : ℕ) (step : Step)
      → ((rest : Bytes) → after rest ≡ before (cut ++ rest))
      → (total ≤ max_output → cut ≡ [])
      → IsRight before total step
      → IsRight after total step
  uncut before after cut total (found n) a e h = λ rest. a rest ∙ h (cut ++ rest)
  uncut before after cut total (over_limit n) a e h = h
  uncut before after cut total (more p) a e (between, same, h) =
      let none_cut : cut ≡ [] = e (rw same at between.within) in
      (between, same, λ rest. a rest ∙ (ap (λ x. before (x ++ rest)) none_cut ∙ h rest))

  captured-IsRight :
      (p : Progress) (captured : Bytes) (total : ℕ)
      → IsBetween p
      → IsRight
          (λ rest. remaining p (captured ++ rest))
          total
          (if p.dropping
            then resume is_rust total p.pending (after_line captured)
            else absorb is_rust total p.pending captured)
  captured-IsRight p captured total between = elim (Bool-cases p.dropping) [
    | inl e ↦ simp e (
        resume-IsRight (λ rest. scan_dropped is_rust (captured ++ rest)) total p captured
          (after_line captured) between (between.dropped e) (λ rest. refl)
          (after_line-Resumed is_rust captured))
    | inr e ↦ simp e (
        absorb-IsRight (λ rest. scan is_rust p.pending (captured ++ rest)) total p.pending captured
          (λ rest.
            sym (between.begun (captured ++ rest))
            ∙ ap (scan is_rust []) (sym (++-assoc p.pending captured rest))))
  ]

  -- A line is found in the bytes that were looked at.
  abbrev pub FoundIn : Progress → Bytes → Step → Type 0
  FoundIn p bytes (found n) =
      (rest : Bytes) → remaining p (take (max_output - p.total) bytes ++ rest) ≡ true
  FoundIn p bytes (over_limit n) = Unit
  FoundIn p bytes (more q) = Unit

  found_in :
      (p : Progress) (bytes : Bytes) (total : ℕ) (step : Step)
      → IsRight (λ rest. remaining p (take (max_output - p.total) bytes ++ rest)) total step
      → FoundIn p bytes step
  found_in p bytes total (found n) h = h
  found_in p bytes total (over_limit n) h = tt
  found_in p bytes total (more q) h = tt

  pub scan_chunk-FoundIn :
      (p : Progress) (bytes : Bytes) → IsBetween p → FoundIn p bytes (scan_chunk is_rust p bytes)
  unfolding scan_chunk
  scan_chunk-FoundIn p bytes between =
      found_in p bytes (p.total + length bytes) _
        (captured-IsRight p (take (max_output - p.total) bytes) (p.total + length bytes) between)

  pub scan_chunk-IsRight :
      (p : Progress) (bytes : Bytes)
      → IsBetween p
      → IsRight
          (λ rest. remaining p (bytes ++ rest))
          (p.total + length bytes)
          (scan_chunk is_rust p bytes)
  unfolding scan_chunk
  scan_chunk-IsRight p bytes between =
      let n : ℕ = max_output - p.total in
      uncut (λ rest. remaining p (take n bytes ++ rest)) (λ rest. remaining p (bytes ++ rest))
        (drop n bytes) (p.total + length bytes) _
        (λ rest.
          ap (λ x. remaining p (x ++ rest)) (sym (take-drop n bytes))
          ∙ ap (remaining p) (++-assoc (take n bytes) (drop n bytes) rest))
        (λ h. drop-short n bytes (omega (arith, h)))
        (captured-IsRight p (take n bytes) (p.total + length bytes) between)

-- The bytes that the rounds of the loop read.
abbrev pub output : Pipe → Bytes
output late = []
output ended = []
output (broken k) = []
output (idle pipe) = output pipe
output (chunk [] pipe) = []
output (chunk (b ∷ bytes) pipe) = (b ∷ bytes) ++ output pipe

-- Whether the output is read to its end.
abbrev pub IsWhole : Pipe → Type 0
IsWhole late = ⊥
IsWhole ended = Unit
IsWhole (broken k) = ⊥
IsWhole (idle pipe) = IsWhole pipe
IsWhole (chunk [] pipe) = Unit
IsWhole (chunk (b ∷ bytes) pipe) = IsWhole pipe

module _ (is_rust : Bytes → Bool) where
  -- What the loop's end says of the rest of the output.
  abbrev pub Says : Pipe → Progress → Ending × Progress × State → Type 0
  Says pipe p (hit, q, state) =
      (remaining is_rust p (output pipe) ≡ true)
      × (remaining is_rust p (take (max_output - p.total) (output pipe)) ≡ true)
  Says pipe p (stopped e, q, state) = p.total + length (output pipe) ≤ max_output → ¬ IsWhole pipe
  Says pipe p (drained, q, state) =
      IsBetween is_rust q
      × (remaining is_rust p (output pipe) ≡ remaining is_rust q [])
      × IsWhole pipe
      × (p.total + length (output pipe) ≡ q.total)

  Says-before :
      (b : ℕ) (bytes : Bytes) (pipe : Pipe) (p q : Progress) (o : Ending × Progress × State)
      → q.total ≡ p.total + length (b ∷ bytes)
      → q.total ≤ max_output
      → ((rest : Bytes) → remaining is_rust p ((b ∷ bytes) ++ rest) ≡ remaining is_rust q rest)
      → Says pipe q o
      → Says (chunk (b ∷ bytes) pipe) p o
  Says-before b bytes pipe p q (hit, r, state) same within h k =
      let n : ℕ = max_output - p.total in
      (
        h (output pipe) ∙ k.0,
        ap (remaining is_rust p) (
              take-append n (b ∷ bytes) (output pipe)
              ∙ ap₂ (λ x m. x ++ take m (output pipe))
                  (take-short n (b ∷ bytes) (omega (arith, same, within)))
                  (let e : n - length (b ∷ bytes) ≡ max_output - q.total =
                      omega (arith, same, within) in
                    e))
            ∙ (h (take (max_output - q.total) (output pipe)) ∙ k.1),
      )
  Says-before b bytes pipe p q (stopped e, r, state) same within h k =
      λ short. k (omega (arith, same, short, length-append (b ∷ bytes) (output pipe)))
  Says-before b bytes pipe p q (drained, r, state) same within h (between, k, whole, total) = (
    between,
    h (output pipe) ∙ k,
    whole,
    omega (arith, same, total, length-append (b ∷ bytes) (output pipe)),
  )

  chunk-Says :
      (b : ℕ) (bytes : Bytes) (pipe : Pipe) (p : Progress) (step : Step) (state : State)
      → ((q : Progress) (state : State)
          → IsBetween is_rust q
          → Says pipe q (read_loop is_rust pipe q state))
      → IsRight is_rust
          (λ rest. remaining is_rust p ((b ∷ bytes) ++ rest))
          (p.total + length (b ∷ bytes))
          step
      → FoundIn is_rust p (b ∷ bytes) step
      → Says (chunk (b ∷ bytes) pipe) p (elim step [
        | found total ↦ (hit, p, record state { phase = read; output_bytes = total })
        | over_limit total ↦ (
          stopped (prepared macos_rust_dwarfdump_output_limit),
          p,
          record state { phase = read; output_bytes = total },
        )
        | more p' ↦
            read_loop is_rust pipe p' (record state { phase = read; output_bytes = p'.total })
      ])
  chunk-Says b bytes pipe p (found n) state k h f =
      let m : ℕ = max_output - p.total in
      (
        h (output pipe),
        ap (remaining is_rust p) (take-append m (b ∷ bytes) (output pipe))
            ∙ f (take (m - length (b ∷ bytes)) (output pipe)),
      )
  chunk-Says b bytes pipe p (over_limit n) state k h f =
      λ short whole. ground (arith, h, short, length-append (b ∷ bytes) (output pipe))
  chunk-Says b bytes pipe p (more q) state k (between, same, h) f =
      Says-before b bytes pipe p q
        (read_loop is_rust pipe q (record state { phase = read; output_bytes = q.total })) same
        between.within h (k q (record state { phase = read; output_bytes = q.total }) between)

  pub read_loop-Says :
      (pipe : Pipe) (p : Progress) (state : State)
      → IsBetween is_rust p
      → Says pipe p (read_loop is_rust pipe p state)
  unfolding read_loop
  read_loop-Says late p state between = λ short whole. whole
  read_loop-Says ended p state between = (between, refl, tt, omega arith)
  read_loop-Says (broken k) p state between = λ short whole. whole
  read_loop-Says (idle pipe) p state between =
      read_loop-Says pipe p (record state { phase = read }) between
  read_loop-Says (chunk [] pipe) p state between = (between, refl, tt, omega arith)
  read_loop-Says (chunk (b ∷ bytes) pipe) p state between =
      chunk-Says b bytes pipe p (scan_chunk is_rust p (b ∷ bytes)) state
        (λ q later i. read_loop-Says pipe q later i)
        (scan_chunk-IsRight is_rust p (b ∷ bytes) between)
        (scan_chunk-FoundIn is_rust p (b ∷ bytes) between)
