-- ===== src/ErrorContext/Window.antt =====
-- The lines that `ErrorContext` of tool/resolve_macos_packages.py keeps: the first 8 and the last 16.
use xfl_clash.Prelude.{
  ℕ, zero, suc, ◌+◌, ◌-◌, ◌≤◌, true, false, List, [], ◌∷◌, ◌++◌, ◌≡◌, refl, sym, ap, ◌∙◌, inl, inr,
  ltb, if◌then◌else◌, Text, length, length-append, length-take, length-drop, take, drop, min,
  Bool-cases, arith,
}
use mathlib.Core.Path.{subst}
use xfl_clash.ErrorContext.{Patterns, Context, first_context, sanitize, append, add, add_all}
use xfl_clash.ErrorContext.Hidden.{sanitized}

take-all : (n : ℕ) (xs : List Text) → length xs ≤ n → take n xs ≡ xs
take-all zero [] h = refl
take-all zero (x ∷ xs) h = ground (arith, h)
take-all (suc n) [] h = refl
take-all (suc n) (x ∷ xs) h = ap (◌∷◌ x) (take-all n xs (omega (arith, h)))

drop-all : (n : ℕ) (xs : List Text) → length xs ≤ n → drop n xs ≡ []
drop-all zero [] h = refl
drop-all zero (x ∷ xs) h = ground (arith, h)
drop-all (suc n) [] h = refl
drop-all (suc n) (x ∷ xs) h = drop-all n xs (omega (arith, h))

take-snoc : (n : ℕ) (xs : List Text) (x : Text) → n ≤ length xs → take n (xs ++ x ∷ []) ≡ take n xs
take-snoc zero xs x h = refl
take-snoc (suc n) [] x h = ground (arith, h)
take-snoc (suc n) (y ∷ xs) x h = ap (◌∷◌ y) (take-snoc n xs x (omega (arith, h)))

drop-snoc :
    (n : ℕ) (xs : List Text) (x : Text)
    → n ≤ length xs
    → drop n (xs ++ x ∷ []) ≡ drop n xs ++ x ∷ []
drop-snoc zero xs x h = refl
drop-snoc (suc n) [] x h = ground (arith, h)
drop-snoc (suc n) (y ∷ xs) x h = drop-snoc n xs x (omega (arith, h))

drop-drop : (n : ℕ) (xs : List Text) → drop 1 (drop n xs) ≡ drop (suc n) xs
drop-drop zero xs = refl
drop-drop (suc n) [] = refl
drop-drop (suc n) (x ∷ xs) = drop-drop n xs

-- The last 16.
abbrev pub last_16 : List Text → List Text
last_16 xs = drop (length xs - 16) xs

few : (xs : List Text) → ltb (length xs) 16 ≡ true → length xs - 16 ≡ 0
few xs h = ground (arith, h)

few_more : (xs : List Text) (x : Text) → ltb (length xs) 16 ≡ true → length (xs ++ x ∷ []) - 16 ≡ 0
few_more xs x h = ground (arith, h, length-append xs (x ∷ []))

full :
    (xs : List Text)
    → ltb (length xs) 16 ≡ false
    → ltb (length (drop (length xs - 16) xs)) 16 ≡ false
full xs h = ground (arith, h, length-drop (length xs - 16) xs)

below : (xs : List Text) → ltb (length xs) 16 ≡ false → suc (length xs - 16) ≤ length xs
below xs h = ground (arith, h)

one_more :
    (xs : List Text) (x : Text)
    → ltb (length xs) 16 ≡ false
    → length (xs ++ x ∷ []) - 16 ≡ suc (length xs - 16)
one_more xs x h = ground (arith, h, length-append xs (x ∷ []))

append-last_16 : (xs : List Text) (x : Text) → append (last_16 xs) x ≡ last_16 (xs ++ x ∷ [])
append-last_16 xs x = elim (Bool-cases (ltb (length xs) 16)) [
  | inl short ↦ rw (few xs short, few_more xs x short, short) refl
  | inr long ↦ rw (full xs long) (
      ap (λ l. l ++ x ∷ []) (drop-drop (length xs - 16) xs)
      ∙ (sym (drop-snoc (suc (length xs - 16)) xs x (below xs long))
          ∙ ap (λ k. drop k (xs ++ x ∷ [])) (sym (one_more xs x long))))
]

-- What a context has kept of the lines so far.
pub record IsWindow (lines : List Text) (c : Context) : Type 0 where
  pub head : c.head ≡ take 8 lines
  pub tail : c.tail ≡ last_16 (drop 8 lines)
  pub count : c.count ≡ length lines

short_head : (kept : List Text) → ltb (length (take 8 kept)) 8 ≡ ltb (length kept) 8
short_head kept = ap (λ n. ltb n 8) (length-take 8 kept) ∙ smaller (length kept)
  where
    smaller : (n : ℕ) → ltb (min 8 n) 8 ≡ ltb n 8
    smaller n = ground arith

at_most : (n : ℕ) → ltb n 8 ≡ true → (n ≤ 8) × (suc n ≤ 8)
at_most n h = (ground (arith, h), ground (arith, h))

at_least : (n : ℕ) → ltb n 8 ≡ false → 8 ≤ n
at_least n h = ground (arith, h)

push_head :
    (kept : List Text) (x : Text)
    → (if ltb (length (take 8 kept)) 8 then take 8 kept ++ x ∷ [] else take 8 kept)
      ≡ take 8 (kept ++ x ∷ [])
push_head kept x = elim (Bool-cases (ltb (length kept) 8)) [
  | inl short ↦
      (let (_, more) = at_most (length kept) short in
        rw (short_head kept, short, take-all 8 kept (at_most (length kept) short).0)
          (sym (take-all 8 (kept ++ x ∷ []) (omega (arith, more, length-append kept (x ∷ []))))))
  | inr long ↦ rw (short_head kept, long) (sym (take-snoc 8 kept x (at_least (length kept) long)))
]

push_tail :
    (kept : List Text) (x : Text)
    → (if ltb (length (take 8 kept)) 8
        then last_16 (drop 8 kept)
        else append (last_16 (drop 8 kept)) x)
      ≡ last_16 (drop 8 (kept ++ x ∷ []))
push_tail kept x = elim (Bool-cases (ltb (length kept) 8)) [
  | inl short ↦
      (let (_, more) = at_most (length kept) short in
        rw (short_head kept, short, drop-all 8 kept (at_most (length kept) short).0)
          (ap last_16
            (sym (drop-all 8 (kept ++ x ∷ []) (omega (arith, more, length-append kept (x ∷ [])))))))
  | inr long ↦
      rw (short_head kept, long)
        (append-last_16 (drop 8 kept) x
          ∙ ap last_16 (sym (drop-snoc 8 kept x (at_least (length kept) long))))
]

module _ (p : Patterns) where
  add-IsWindow :
      (kept : List Text) (c : Context) (line : Text)
      → IsWindow kept c
      → IsWindow (kept ++ (sanitize p c.sensitive_block line).0 ∷ []) (add p c line)
  unfolding add
  add-IsWindow kept c line w =
      let x : Text = (sanitize p c.sensitive_block line).0 in
      record {
        head = ap (λ h. if ltb (length h) 8 then h ++ x ∷ [] else h) w.head ∙ push_head kept x;
        tail =
            ap (λ h. if ltb (length h) 8 then c.tail else append c.tail x) w.head
            ∙ (ap (λ t. if ltb (length (take 8 kept)) 8 then t else append t x) w.tail
                ∙ push_tail kept x);
        count = ap (λ n. n + 1) w.count ∙ sym (length-append kept (x ∷ []));
      }

  append_assoc : (xs : List Text) (x : Text) (ys : List Text) → (xs ++ x ∷ []) ++ ys ≡ xs ++ x ∷ ys
  append_assoc [] x ys = refl
  append_assoc (y ∷ xs) x ys = ap (◌∷◌ y) (append_assoc xs x ys)

  append_none : (xs : List Text) → xs ≡ xs ++ []
  append_none [] = refl
  append_none (x ∷ xs) = ap (◌∷◌ x) (append_none xs)

  add_on-IsWindow :
      (kept : List Text) (c : Context) (lines : List Text)
      → IsWindow kept c
      → IsWindow (kept ++ sanitized p c.sensitive_block lines) (add_all p c lines)
  unfolding add_all add
  add_on-IsWindow kept c [] w = subst (λ k. IsWindow k c) (append_none kept) w
  add_on-IsWindow kept c (line ∷ lines) w =
      subst (λ k. IsWindow k (add_all p (add p c line) lines))
        (append_assoc kept (sanitize p c.sensitive_block line).0
          (sanitized p (sanitize p c.sensitive_block line).1 lines))
        (add_on-IsWindow (kept ++ (sanitize p c.sensitive_block line).0 ∷ []) (add p c line) lines
          (add-IsWindow kept c line w))

  -- However many lines are added, the context has their number, the first 8 lines as they are
  -- sanitized and the last 16 of the others, in order.
  pub add_all-IsWindow :
      (lines : List Text) → IsWindow (sanitized p false lines) (add_all p first_context lines)
  add_all-IsWindow lines =
      add_on-IsWindow [] first_context lines (record { head = refl; tail = refl; count = refl })
