-- ===== src/ErrorContext/Hidden.antt =====
-- What `ErrorContext` of tool/resolve_macos_packages.py keeps of a block behind a sensitive line.
use xfl_clash.Prelude.{
  Bool, true, false, ◌||◌, List, [], ◌∷◌, ◌++◌, ◌≡◌, refl, inl, inr, ◌⊎◌, ltb, Text, length, drop,
  All, Bool-cases,
}
use xfl_clash.ErrorContext.{Patterns, max_line, oversized, sensitive, continuation, sanitize}

-- One of the fixed texts.
abbrev pub IsMarker : Text → Type 0
IsMarker text = (text ≡ oversized) ⊎ ((text ≡ sensitive) ⊎ (text ≡ continuation))

module _ (p : Patterns) where
  -- Every line in order, as it is kept.
  abbrev pub sanitized : Bool → List Text → List Text
  sanitized block [] = []
  sanitized block (line ∷ lines) =
      (sanitize p block line).0 ∷ sanitized (sanitize p block line).1 lines

  -- A line that opens a block, and one that does not end it.
  abbrev pub Opens : Text → Type 0
  Opens line = (ltb max_line (length line) || p.is_sensitive (p.without_escapes line)) ≡ true

  abbrev pub Stays : Text → Type 0
  Stays line = p.is_start (p.without_escapes line) ≡ false

  opens :
      (block : Bool) (line : Text)
      → Opens line
      → IsMarker (sanitize p block line).0 × ((sanitize p block line).1 ≡ true)
  unfolding sanitize
  opens block line h = elim (Bool-cases (ltb max_line (length line))) [
    | inl e ↦ rw e (inl refl, refl)
    | inr e ↦ rw (e, rw e at h) (inr (inl refl), refl)
  ]

  stays :
      (line : Text)
      → Stays line
      → IsMarker (sanitize p true line).0 × ((sanitize p true line).1 ≡ true)
  unfolding sanitize
  stays line h = elim (Bool-cases (ltb max_line (length line))) [
    | inl e ↦ rw e (inl refl, refl)
    | inr e ↦ elim (Bool-cases (p.is_sensitive (p.without_escapes line))) [
      | inl f ↦ rw (e, f) (inr (inl refl), refl)
      | inr f ↦ rw (e, f, h) (inr (inr refl), refl)
    ]
  ]

  within : (lines : List Text) → All Stays lines → All IsMarker (sanitized true lines)
  within [] a = tt
  within (line ∷ lines) (h, a) =
      let (marker, block) = stays line h in (marker, rw (block, sanitized) (within lines a))

  -- From a sensitive or oversized line on, as long as no line starts a diagnostic, each line is kept
  -- as one of three fixed texts, whatever came before.
  pub sanitized-IsMarker :
      (block : Bool) (before : List Text) (line : Text) (lines : List Text)
      → Opens line
      → All Stays lines
      → All IsMarker (drop (length before) (sanitized block (before ++ line ∷ lines)))
  sanitized-IsMarker block [] line lines h a =
      let (marker, opened) = opens block line h in (marker, rw (opened, sanitized) (within lines a))
  sanitized-IsMarker block (first ∷ before) line lines h a =
      sanitized-IsMarker (sanitize p block first).1 before line lines h a
