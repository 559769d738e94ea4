-- ===== src/Upload/Companions/Parts.antt =====
-- Lemmas on the parts of `audit_elf_native` of tool/upload_sentry_symbols.py: the comparison of two
-- files, and the required modules.
use xfl_clash.Prelude.{
  Bool, true, false, not, ◌&&◌, ◌||◌, Option, none, some, List, [], ◌∷◌, ◌++◌, ◌≡◌, refl, sym, ap,
  inl, inr, map, all, Text, ◌==ₜ◌, ==ₜ_sound, Result, ok, err, for_each, All, In, Returns,
  Returns-guard, Returns-bind, Ensures-bind, Ensures-mono, returned, raise_if-ok, arith, Bool-cases,
  and_true, or_false, not-false,
}
use mathlib.Core.Path.{ap₂}
use xfl_clash.Binary.{Fault}
use xfl_clash.Elf.{Elf}
use xfl_clash.Elf.Error.{ElfError}
use xfl_clash.Upload.Error.{
  SymbolError, build_id_mismatch, architecture_mismatch, executable_companion, duplicate_required,
}
use xfl_clash.Upload.Check.{safe_label}
use xfl_clash.Upload.Companions.{
  Item, dictionary, not_dictionary, Required, Identity, Evidence, architecture_of, is_in,
  new_architecture, is_empty, readable, compare, is_supported, add_required,
}

-- A companion with its binary, by what `inspect_elf` finds in them.
pub record IsCompanion (wanted : Text) (binary debug : Elf) : Type 0 where
  pub identified : is_empty binary.build_id ≡ false
  pub same : binary.build_id ≡ debug.build_id
  pub architecture : (binary.architecture ≡ wanted) × (debug.architecture ≡ wanted)
  pub no_code : debug.has_executable_text ≡ false
  pub information : (debug.has_debug_info ≡ true) × (debug.has_debug_line ≡ true)

pub not-false_both : (a b : Bool) → (not a || not b) ≡ false → (a ≡ true) × (b ≡ true)
not-false_both a b h = ground (arith, h)

pub compare-IsCompanion :
    (wanted : Text) (binary debug : Elf)
    → Returns (λ _. IsCompanion wanted binary debug) (compare wanted binary debug)
unfolding compare
compare-IsCompanion wanted binary debug =
    let P : Unit {0} → Type 0 = λ _. IsCompanion wanted binary debug in
    Returns-guard P (is_empty binary.build_id || not (binary.build_id ==ₜ debug.build_id))
      build_id_mismatch _
      λ h1.
        Returns-guard P
          (not (binary.architecture ==ₜ wanted) || not (debug.architecture ==ₜ wanted))
          architecture_mismatch _
          λ h2. Returns-guard P debug.has_executable_text executable_companion _ λ h3.
            returned {P = IsCompanion wanted binary debug} _ λ h4.
              let (e1, e2) =
                or_false (is_empty binary.build_id) (not (binary.build_id ==ₜ debug.build_id)) h1 in
              let (a1, a2) =
                not-false_both (binary.architecture ==ₜ wanted) (debug.architecture ==ₜ wanted)
                  h2 in
              record {
                identified = e1;
                same =
                    ==ₜ_sound binary.build_id debug.build_id
                      (not-false (binary.build_id ==ₜ debug.build_id) e2);
                architecture = (
                  ==ₜ_sound binary.architecture wanted a1,
                  ==ₜ_sound debug.architecture wanted a2,
                );
                no_code = h3;
                information =
                    not-false_both debug.has_debug_info debug.has_debug_line (raise_if-ok _ _ h4);
              }

pub is_in-In : (i : Identity) (ids : List Identity) → is_in i ids ≡ true → In i ids
unfolding is_in
is_in-In (t, a) [] h = cc
is_in-In (t, a) ((u, b) ∷ ids) h = elim (Bool-cases (t ==ₜ u && a ==ₜ b)) [
  | inl e ↦
      (let (e1, e2) = and_true (t ==ₜ u) (a ==ₜ b) e in
        inl (ap₂ (λ x y. (x, y)) (sym (==ₜ_sound t u e1)) (sym (==ₜ_sound a b e2))))
  | inr e ↦ inr (is_in-In (t, a) ids (rw e at h))
]

abbrev pub identity_of : Evidence → Identity
identity_of e = (e.target, e.architecture)

abbrev pub strict : {A : Type 0} → A → Result SymbolError A → Result (Fault ElfError) A
strict b (ok x) = ok x
strict b (err e) = ok b

pub readable-ok :
    {A : Type 0} (r : Result (Fault ElfError) A) (a : A) → readable r ≡ ok a → r ≡ ok a
readable-ok (ok b) a h = ap (strict b) h
readable-ok (err e) a h = cc

pub wanted_is :
    (known : Bool) (o : Option Text) (wanted : Text)
    → new_architecture known o ≡ ok wanted
    → o ≡ some wanted
wanted_is true o wanted h = cc
wanted_is false none wanted h = cc
wanted_is false (some a) wanted h = cc

-- What a test holds of each element of a list.
pub all-In :
    {A : Type 0} (p : A → Bool) (xs : List A) (x : A) → all p xs ≡ true → In x xs → p x ≡ true
all-In p [] x h i = elim i [ ]
all-In p (y ∷ xs) x h (inl e) = rw e at (and_true (p y) (all p xs) h).0
all-In p (y ∷ xs) x h (inr i) = all-In p xs x (and_true (p y) (all p xs) h).1 i

pub map-snoc :
    {A B : Type 0} (f : A → B) (xs : List A) (x : A) → map f (xs ++ x ∷ []) ≡ map f xs ++ f x ∷ []
map-snoc f [] x = refl
map-snoc f (y ∷ xs) x = ap (◌∷◌ (f y)) (map-snoc f xs x)

pub In-append : {A : Type 0} (x : A) (xs ys : List A) → In x xs → In x (xs ++ ys)
In-append x [] ys i = elim i [ ]
In-append x (y ∷ xs) ys (inl e) = inl e
In-append x (y ∷ xs) ys (inr i) = inr (In-append x xs ys i)

pub In-last : {A : Type 0} (x : A) (xs : List A) → In x (xs ++ x ∷ [])
In-last x [] = inl refl
In-last x (y ∷ xs) = inr (In-last x xs)

-- A required module that has its labels among the identities.
abbrev pub IsNamed : List Identity → Item Required → Type 0
IsNamed ids not_dictionary = ⊥
IsNamed ids (dictionary r) =
    (target : Text) × (architecture : Text) × (safe_label r.target ≡ ok target)
    × (safe_label r.architecture ≡ ok architecture)
    × In (target, architecture) ids

-- What one more required module, or several, add to the identities.
pub record Adds (before : List Identity) (items : List (Item Required)) (after : List Identity)
    : Type 0 where
  pub kept : (i : Identity) → In i before → In i after
  pub named : All (IsNamed after) items

pub IsNamed-more :
    (before after : List Identity) (item : Item Required)
    → ((i : Identity) → In i before → In i after)
    → IsNamed before item
    → IsNamed after item
IsNamed-more before after not_dictionary h n = n
IsNamed-more before after (dictionary r) h (t, a, e1, e2, i) = (t, a, e1, e2, h (t, a) i)

pub add_required-Adds :
    (android : Bool) (before : List Identity) (item : Item Required)
    → Returns (Adds before (item ∷ [])) (add_required android before item)
add_required-Adds android before not_dictionary = tt
add_required-Adds android before (dictionary r) =
    let P = Adds before (dictionary r ∷ []) in
    Returns-bind P (safe_label r.target) _ λ t ht.
      Returns-bind P (safe_label r.architecture) _ λ a ha.
        Returns-guard P (is_in (t, a) before) duplicate_required _ λ _.
          Returns-guard P (not (is_supported (architecture_of android a))) duplicate_required
            (ok (before ++ (t, a) ∷ []))
            λ _. (record {
              kept = λ i h. In-append i before ((t, a) ∷ []) h;
              named = ((t, a, ht, ha, In-last (t, a) before), tt);
            })

pub add_all-Adds :
    (android : Bool) (before : List Identity) (items : List (Item Required))
    → Returns (Adds before items) (for_each (add_required android) before items)
unfolding for_each
add_all-Adds android before [] = record { kept = λ i h. h; named = tt }
add_all-Adds android before (item ∷ items) =
    Ensures-bind (λ _. Unit) (Adds before (item ∷ items)) (Adds before (item ∷ []))
      (add_required android before item) _ (add_required-Adds android before item)
      λ middle _ first.
        Ensures-mono (λ _. Unit) (Adds before (item ∷ items)) (Adds middle items)
          (for_each (add_required android) middle items)
          (λ after later. record {
            kept = λ i h. later.kept i (first.kept i h);
            named = (IsNamed-more middle after item later.kept first.named.0, later.named);
          })
          (add_all-Adds android middle items)
