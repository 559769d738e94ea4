-- ===== src/RustDebug/Lines.antt =====
-- The lines of an output, read at once, and what the scan by chunks has to find in them; for
-- `contains_rust_debug` of tool/prepare_sentry_macos_symbols.py.
use xfl_clash.Prelude.{
  ℕ, ◌<◌, Bool, true, false, ◌||◌, Option, none, some, List, [], ◌∷◌, ◌++◌, ◌≡◌, refl, sym, ap, ◌∙◌,
  inl, inr, ◌==◌, if◌then◌else◌, any, length, length-append, Bool-cases, arith,
}
use mathlib.Core.Path.{ap₂}
use xfl_clash.Binary.{Bytes}
use xfl_clash.RustDebug.{max_line, is_attribute, drain, after_line}

abbrev pub add_front : ℕ → List Bytes → List Bytes
add_front c [] = (c ∷ []) ∷ []
add_front c (l ∷ ls) = (c ∷ l) ∷ ls

-- `output.split(b'\n')`
abbrev pub lines : Bytes → List Bytes
lines [] = [] ∷ []
lines (c ∷ s) = if c == 10 then [] ∷ lines s else add_front c (lines s)

-- The lines, where the first has begun.
abbrev pub extended : Bytes → List Bytes → List Bytes
extended line [] = line ∷ []
extended line (l ∷ ls) = (line ++ l) ∷ ls

++-[] : (xs : Bytes) → xs ++ [] ≡ xs
++-[] [] = refl
++-[] (x ∷ xs) = ap (◌∷◌ x) (++-[] xs)

pub ++-assoc : (xs ys zs : Bytes) → (xs ++ ys) ++ zs ≡ xs ++ (ys ++ zs)
++-assoc [] ys zs = refl
++-assoc (x ∷ xs) ys zs = ap (◌∷◌ x) (++-assoc xs ys zs)

extended-add_front :
    (line : Bytes) (c : ℕ) (ls : List Bytes)
    → extended line (add_front c ls) ≡ extended (line ++ c ∷ []) ls
extended-add_front line c [] = refl
extended-add_front line c (l ∷ ls) = ap (λ x. x ∷ ls) (sym (++-assoc line (c ∷ []) l))

lines-some : (s : Bytes) → (l : Bytes) × (ls : List Bytes) × (lines s ≡ l ∷ ls)
lines-some [] = ([], [], refl)
lines-some (c ∷ s) = elim (Bool-cases (c == 10)) [
  | inl e ↦ ([], lines s, rw (e, lines) refl)
  | inr e ↦ (let (l, ls, same) = lines-some s in (c ∷ l, ls, rw (e, lines, same) refl))
]

last_test : (b : Bool) → b ≡ b || false
last_test true = refl
last_test false = refl

-- Nothing has begun.
pub extended-[] : (s : Bytes) → extended [] (lines s) ≡ lines s
extended-[] s = let (l, ls, same) = lines-some s in rw same refl

module _ (is_rust : Bytes → Bool) where
  -- Whether a line of an output is the attribute, where the first line has begun.
  abbrev pub scan : Bytes → Bytes → Bool
  scan line [] = is_attribute is_rust line
  scan line (c ∷ s) = elim (c == 10) [
    | true ↦ is_attribute is_rust line || scan [] s
    | false ↦ scan (line ++ c ∷ []) s
  ]

  pub scan-lines :
      (line s : Bytes) → scan line s ≡ any (is_attribute is_rust) (extended line (lines s))
  scan-lines line [] =
      ap (λ l. is_attribute is_rust l) (sym (++-[] line))
      ∙ last_test (is_attribute is_rust (line ++ []))
  scan-lines line (c ∷ s) = elim (Bool-cases (c == 10)) [
    | inl e ↦
        rw (e, scan)
          (ap₂ (λ x y. x || y) (ap (λ l. is_attribute is_rust l) (sym (++-[] line)))
            (scan-lines [] s ∙ ap (any (is_attribute is_rust)) (extended-[] s)))
    | inr e ↦
        rw (e, scan)
          (scan-lines (line ++ c ∷ []) s
            ∙ ap (any (is_attribute is_rust)) (sym (extended-add_front line c (lines s))))
  ]

  -- The same, behind a line that is dropped.
  abbrev pub scan_dropped : Bytes → Bool
  scan_dropped [] = false
  scan_dropped (c ∷ s) = elim (c == 10) [ true ↦ scan [] s | false ↦ scan_dropped s ]

  long_line : (line : Bytes) → max_line < length line → is_attribute is_rust line ≡ false
  long_line line h = ground (arith, h)

  pub scan-long : (line s : Bytes) → max_line < length line → scan line s ≡ scan_dropped s
  scan-long line [] h = long_line line h
  scan-long line (c ∷ s) h = elim (Bool-cases (c == 10)) [
    | inl e ↦ rw (e, scan, scan_dropped, long_line line h) refl
    | inr e ↦
        rw (e, scan, scan_dropped)
          (scan-long (line ++ c ∷ []) s (omega (arith, h, length-append line (c ∷ []))))
  ]

  -- What `drain` leaves, against the lines of the bytes and of any that follow.
  abbrev pub Drained : Bytes → Bytes → Option Bytes → Type 0
  Drained line s none = (rest : Bytes) → scan line (s ++ rest) ≡ true
  Drained line s (some left) = (rest : Bytes) → scan line (s ++ rest) ≡ scan left rest

  Drained-within :
      (line s : Bytes) (c : ℕ) (o : Option Bytes)
      → (c == 10) ≡ false
      → Drained (line ++ c ∷ []) s o
      → Drained line (c ∷ s) o
  Drained-within line s c none e h = λ rest. rw (e, scan) (h rest)
  Drained-within line s c (some left) e h = λ rest. rw (e, scan) (h rest)

  Drained-behind :
      (line s : Bytes) (c : ℕ) (o : Option Bytes)
      → (c == 10) ≡ true
      → is_attribute is_rust line ≡ false
      → Drained [] s o
      → Drained line (c ∷ s) o
  Drained-behind line s c none e n h = λ rest. rw (e, scan, n) (h rest)
  Drained-behind line s c (some left) e n h = λ rest. rw (e, scan, n) (h rest)

  pub drain-Drained : (line s : Bytes) → Drained line s (drain is_rust line s)
  unfolding drain
  drain-Drained line [] = λ rest. refl
  drain-Drained line (c ∷ s) = elim (Bool-cases (c == 10)) [
    | inr e ↦
        rw (e, drain)
          (Drained-within line s c (drain is_rust (line ++ c ∷ []) s) e
            (drain-Drained (line ++ c ∷ []) s))
    | inl e ↦ elim (Bool-cases (is_attribute is_rust line)) [
      | inl y ↦ rw (e, drain, y) (λ rest. rw (e, scan, y) refl)
      | inr n ↦
          rw (e, drain, n) (Drained-behind line s c (drain is_rust [] s) e n (drain-Drained [] s))
    ]
  ]

  -- A line that has begun may be put in front of what follows it.
  abbrev pub IsOpen : Bytes → Type 0
  IsOpen line = (rest : Bytes) → scan [] (line ++ rest) ≡ scan line rest

  IsOpen-within : (line : Bytes) (c : ℕ) → (c == 10) ≡ false → IsOpen line → IsOpen (line ++ c ∷ [])
  IsOpen-within line c e h =
      λ rest. ap (scan []) (++-assoc line (c ∷ []) rest) ∙ (h (c ∷ rest) ∙ rw (e, scan) refl)

  abbrev pub IsOpenRest : Option Bytes → Type 0
  IsOpenRest none = Unit
  IsOpenRest (some left) = IsOpen left

  pub drain-IsOpen : (line s : Bytes) → IsOpen line → IsOpenRest (drain is_rust line s)
  unfolding drain
  drain-IsOpen line [] h = h
  drain-IsOpen line (c ∷ s) h = elim (Bool-cases (c == 10)) [
    | inr e ↦ rw (e, drain) (drain-IsOpen (line ++ c ∷ []) s (IsOpen-within line c e h))
    | inl e ↦ elim (Bool-cases (is_attribute is_rust line)) [
      | inl y ↦ rw (e, drain, y) tt
      | inr n ↦ rw (e, drain, n) (drain-IsOpen [] s (λ rest. refl))
    ]
  ]

  -- What follows the first line end, behind a line that is dropped.
  abbrev pub Resumed : Bytes → Option Bytes → Type 0
  Resumed s none = (rest : Bytes) → scan_dropped (s ++ rest) ≡ scan_dropped rest
  Resumed s (some left) = (rest : Bytes) → scan_dropped (s ++ rest) ≡ scan [] (left ++ rest)

  Resumed-within :
      (s : Bytes) (c : ℕ) (o : Option Bytes) → (c == 10) ≡ false → Resumed s o → Resumed (c ∷ s) o
  Resumed-within s c none e h = λ rest. rw (e, scan_dropped) (h rest)
  Resumed-within s c (some left) e h = λ rest. rw (e, scan_dropped) (h rest)

  pub after_line-Resumed : (s : Bytes) → Resumed s (after_line s)
  after_line-Resumed [] = λ rest. refl
  after_line-Resumed (c ∷ s) = elim (Bool-cases (c == 10)) [
    | inl e ↦ rw (e, after_line) (λ rest. rw (e, scan_dropped) refl)
    | inr e ↦ rw (e, after_line) (Resumed-within s c (after_line s) e (after_line-Resumed s))
  ]
