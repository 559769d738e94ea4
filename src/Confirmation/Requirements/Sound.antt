-- ===== src/Confirmation/Requirements/Sound.antt =====
-- The requirements cover the local inventory, tool/sentry_upload_confirmation.py.
use xfl_clash.Prelude.{
  Bool, true, false, not, ◌||◌, List, [], ◌∷◌, ◌++◌, ◌≡◌, refl, Text, ==ₜ_refl, same_texts,
  is_one_of, any, all, All, All-mono, keep, Result, ok, err, ◌>>◌, raise_if, for_each, arith, inl,
  inr, Bool-cases, Ensures, Ensures-raise_if, Ensures-bind, Ensures-ok,
}
use xfl_clash.Confirmation.Requirements.{
  Scalar, nothing, text, other, Category, Item, Requirement, invalid_local_inventory,
  invalid_local_features, empty_local_inventory, lower, cpu, is_debug_id, is_arch_text,
  known_features, required_features, feature_texts, as_list, arches_of, feature_text, format_of,
  server_format, same_requirement, add_requirement, add_arch, add_ident, is_nil, add_item,
  requirements,
}

abbrev pub Holds : {A : Type 0} → (A → Type 0) → Result Category A → Type 0
Holds P = Ensures (λ _. Unit) P

-- The set of requirements has this one.
abbrev pub Has : List Requirement → Requirement → Type 0
Has rs r = any (same_requirement r) rs ≡ true

abbrev pub name_of : Scalar → Text
name_of (text s) = s
name_of nothing = []
name_of (other b s) = []

-- What an identifier and an architecture of an item require.
abbrev pub required_of : Text → List Text → Scalar → Scalar → Requirement
required_of format features ident arch = record {
  ident = lower (name_of ident);
  format = server_format format;
  architecture = cpu (name_of arch);
  features = features;
}

same_texts_refl : (ts : List Text) → same_texts ts ts ≡ true
unfolding same_texts
same_texts_refl [] = refl
same_texts_refl (t ∷ ts) = ground (arith, ==ₜ_refl t, same_texts_refl ts)

same_requirement_refl : (r : Requirement) → same_requirement r r ≡ true
same_requirement_refl r = ground (
  arith,
  ==ₜ_refl r.ident,
  ==ₜ_refl r.format,
  ==ₜ_refl r.architecture,
  same_texts_refl r.features,
)

any-append_left :
    (p : Requirement → Bool) (xs ys : List Requirement) → any p xs ≡ true → any p (xs ++ ys) ≡ true
any-append_left p [] ys h = cc
any-append_left p (x ∷ xs) ys h = ground (arith, any-append_left p xs ys)

any-append_right :
    (p : Requirement → Bool) (xs ys : List Requirement) → any p ys ≡ true → any p (xs ++ ys) ≡ true
any-append_right p [] ys h = h
any-append_right p (x ∷ xs) ys h = ground (arith, any-append_right p xs ys)

add_requirement-Has : (r : Requirement) (rs : List Requirement) → Has (add_requirement r rs) r
add_requirement-Has r rs = elim (Bool-cases (any (same_requirement r) rs)) [
  | inl e ↦ rw e e
  | inr e ↦ rw e (any-append_right (same_requirement r) rs (r ∷ []) (rw same_requirement_refl refl))
]

add_requirement-keeps :
    (q r : Requirement) (rs : List Requirement) → Has rs q → Has (add_requirement r rs) q
add_requirement-keeps q r rs h = elim (Bool-cases (any (same_requirement r) rs)) [
  | inl e ↦ rw e h
  | inr e ↦ rw e (any-append_left (same_requirement q) rs (r ∷ []) h)
]

-- A later set has every requirement of an earlier one.
abbrev Grows : List Requirement → List Requirement → Type 0
Grows rs rs' = (q : Requirement) → Has rs q → Has rs' q

All-Has :
    (rs rs' : List Requirement)
    → Grows rs rs'
    → {A : Type 0} (f : A → Requirement) (xs : List A) → All (λ x. Has rs (f x)) xs
    → All (λ x. Has rs' (f x)) xs
All-Has rs rs' g f xs h = All-mono (λ x. Has rs (f x)) (λ x. Has rs' (f x)) xs (λ x. g (f x)) h

-- A loop that adds what each element requires, and loses nothing.
for_each-covers :
    {A : Type 0} (P : List Requirement → A → Type 0)
    (step : List Requirement → A → Result Category (List Requirement))
    → ((rs rs' : List Requirement) (x : A) → Grows rs rs' → P rs x → P rs' x)
    → ((rs : List Requirement) (x : A) → Holds (λ rs'. Grows rs rs' × P rs' x) (step rs x))
    → (rs : List Requirement) (xs : List A)
    → Holds (λ rs'. Grows rs rs' × All (P rs') xs) (for_each step rs xs)
unfolding for_each
for_each-covers P step mono one rs [] = ((λ q h. h), tt)
for_each-covers {A} P step mono one rs (x ∷ xs) =
    Ensures-bind (λ _. Unit) (λ rs'. Grows rs rs' × All (P rs') (x ∷ xs))
      (λ rs'. Grows rs rs' × P rs' x) (step rs x) (λ rs'. for_each step rs' xs) (one rs x)
      λ mid _ a. weaken mid a (for_each step mid xs) (for_each-covers P step mono one mid xs)
  where
    weaken :
        (mid : List Requirement)
        → Grows rs mid × P mid x
        → (m : Result Category (List Requirement)) → Holds (λ rs'. Grows mid rs' × All (P rs') xs) m
        → Holds (λ rs'. Grows rs rs' × All (P rs') (x ∷ xs)) m
    weaken mid a (ok rs') h = ((λ q k. h.0 q (a.0 q k)), (mono mid rs' x h.0 a.1, h.1))
    weaken mid a (err e) h = tt

add_arch-covers :
    (ident : Text) (format : Text) (features : List Text) (rs : List Requirement) (arch : Scalar)
    → Holds
        (λ rs'. Grows rs rs' × Has rs' (required_of format features (text ident) arch))
        (add_arch ident format features rs arch)
unfolding add_arch
add_arch-covers ident format features rs nothing = tt
add_arch-covers ident format features rs (other b s) = tt
add_arch-covers ident format features rs (text a) = elim (Bool-cases (is_arch_text a)) [
  | inr e ↦ rw e tt
  | inl e ↦ rw e (
    (λ q h. add_requirement-keeps q (required_of format features (text ident) (text a)) rs h),
    add_requirement-Has (required_of format features (text ident) (text a)) rs,
  )
]

-- Every architecture of the item, for one identifier.
abbrev pub CoversArches : Text → List Text → List Scalar → List Requirement → Scalar → Type 0
CoversArches format features arches rs ident =
    All (λ arch. Has rs (required_of format features ident arch)) arches

add_ident-covers :
    (arches : List Scalar) (format : Text) (features : List Text) (rs : List Requirement)
    (ident : Scalar)
    → Holds
        (λ rs'. Grows rs rs' × CoversArches format features arches rs' ident)
        (add_ident arches format features rs ident)
unfolding add_ident
add_ident-covers arches format features rs nothing = tt
add_ident-covers arches format features rs (other b s) = tt
add_ident-covers arches format features rs (text i) = elim (Bool-cases (is_debug_id i)) [
  | inr e ↦ rw e tt
  | inl e ↦ rw e (
      for_each-covers (λ rs' arch. Has rs' (required_of format features (text i) arch))
        (add_arch i format features) (λ a b x g. g (required_of format features (text i) x))
        (add_arch-covers i format features) rs arches)
]

-- The item has identifiers, architectures and features, and each identifier at each architecture
-- is required with all the features that the item lists, but for `sources`.
pub record Covered (rs : List Requirement) (item : Item) : Type 0 where
  pub listed : Text
  pub arches : List Scalar
  pub ids : List Scalar
  pub format : Text
  pub features : List Text
  pub arches_are : arches_of item ≡ ok arches
  pub ids_are : as_list item.debug_ids ≡ ok ids
  pub format_is : format_of item.format ≡ ok format
  pub listed_is : feature_text item.features ≡ ok listed
  pub features_are : features ≡ keep (λ f. is_one_of f (feature_texts listed)) required_features
  pub some_ids : is_nil ids ≡ false
  pub some_arches : is_nil arches ≡ false
  pub known : all (λ x. is_one_of x known_features) (feature_texts listed) ≡ true
  pub some_features : is_nil features ≡ false
  pub required : All (CoversArches format features arches rs) ids

Covered-Grows :
    (rs rs' : List Requirement) (item : Item) → Grows rs rs' → Covered rs item → Covered rs' item
Covered-Grows rs rs' item g c = record {
  listed = c.listed;
  arches = c.arches;
  ids = c.ids;
  format = c.format;
  features = c.features;
  arches_are = c.arches_are;
  ids_are = c.ids_are;
  format_is = c.format_is;
  listed_is = c.listed_is;
  features_are = c.features_are;
  some_ids = c.some_ids;
  some_arches = c.some_arches;
  known = c.known;
  some_features = c.some_features;
  required =
      All-mono (CoversArches c.format c.features c.arches rs)
        (CoversArches c.format c.features c.arches rs') c.ids
        (λ i. All-Has rs rs' g (required_of c.format c.features i) c.arches) c.required;
}

guards : (a b c : Bool) → (a || b || not c) ≡ false → (a ≡ false) × (c ≡ true)
guards a b true h = (ground (arith, h), refl)
guards a b false h = ground (arith, h)

add_item-covers :
    (rs : List Requirement) (item : Item)
    → Holds (λ rs'. Grows rs rs' × Covered rs' item) (add_item rs item)
unfolding add_item
add_item-covers rs item =
    let P = λ (rs' : List Requirement). Grows rs rs' × Covered rs' item in
    let R = λ (e : Category). Unit {0} in
    Ensures-bind R P (λ _. Unit) (feature_text item.features) _
      (anything (feature_text item.features))
      λ listed a _.
        Ensures-bind R P (λ _. Unit) (arches_of item) _ (anything (arches_of item))
          λ arches b _.
            Ensures-bind R P (λ _. Unit) (as_list item.debug_ids) _
              (anything (as_list item.debug_ids))
              λ ids c _. Ensures-raise_if R P (is_nil ids) invalid_local_inventory _ tt λ i.
                Ensures-bind R P (λ _. Unit) (format_of item.format) _
                  (anything (format_of item.format))
                  λ format d _.
                    Ensures-raise_if R P
                      (is_nil arches
                        || is_nil (feature_texts listed)
                        || not (all (λ x. is_one_of x known_features) (feature_texts listed)))
                      invalid_local_inventory _ tt
                      λ x.
                        let features =
                          keep (λ f. is_one_of f (feature_texts listed)) required_features in
                        Ensures-raise_if R P (is_nil features) invalid_local_features _ tt λ s.
                          finish a b c d i
                            (guards (is_nil arches) (is_nil (feature_texts listed))
                              (all (λ x. is_one_of x known_features) (feature_texts listed)) x)
                            s (for_each (add_ident arches format features) rs ids)
                            (for_each-covers (CoversArches format features arches)
                              (add_ident arches format features)
                              (λ u v i g. All-Has u v g (required_of format features i) arches)
                              (add_ident-covers arches format features) rs ids)
  where
    anything : {A : Type 0} (m : Result Category A) → Holds (λ _. Unit) m
    anything (ok a) = tt
    anything (err e) = tt

    finish :
        {listed : Text} {arches ids : List Scalar} {format : Text}
        → feature_text item.features ≡ ok listed
        → arches_of item ≡ ok arches
        → as_list item.debug_ids ≡ ok ids
        → format_of item.format ≡ ok format
        → is_nil ids ≡ false
        → (is_nil arches ≡ false)
          × (all (λ x. is_one_of x known_features) (feature_texts listed) ≡ true)
        → is_nil (keep (λ f. is_one_of f (feature_texts listed)) required_features) ≡ false
        → (m : Result Category (List Requirement))
        → Holds
            (λ rs'.
              Grows rs rs'
              × All
                  (CoversArches format
                    (keep (λ f. is_one_of f (feature_texts listed)) required_features)
                    arches
                    rs')
                  ids)
            m
        → Holds (λ rs'. Grows rs rs' × Covered rs' item) m
    finish a b c d i x s (ok rs') h = (
      h.0,
      record {
        listed = _;
        arches = _;
        ids = _;
        format = _;
        features = _;
        arches_are = b;
        ids_are = c;
        format_is = d;
        listed_is = a;
        features_are = refl;
        some_ids = i;
        some_arches = x.0;
        known = x.1;
        some_features = s;
        required = h.1;
      },
    )
    finish a b c d i x s (err e) h = tt

abbrev Complete : List Item → List Requirement → Type 0
Complete inventory rs = (is_nil rs ≡ false) × All (Covered rs) inventory

requirements-Complete :
    (inventory : List Item) → Holds (Complete inventory) (requirements inventory)
unfolding requirements
requirements-Complete inventory =
    let R = λ (e : Category). Unit {0} in
    Ensures-bind R (Complete inventory) (λ rs'. Grows [] rs' × All (Covered rs') inventory)
      (for_each add_item [] inventory)
      (λ expected. raise_if (is_nil expected) empty_local_inventory >> ok expected)
      (for_each-covers (λ rs' item. Covered rs' item) add_item Covered-Grows add_item-covers []
        inventory)
      λ found _ h.
        Ensures-raise_if R (Complete inventory) (is_nil found) empty_local_inventory (ok found) tt
          λ filled. (filled, h.1)

-- When requirements accepts an inventory it returns a set that is not empty and loses nothing:
-- each item has identifiers, architectures and features, all of them known, and each of its
-- identifiers at each of its architectures is required with every feature that the item lists, but
-- for sources.
pub requirements-Covered :
    (inventory : List Item) (rs : List Requirement)
    → requirements inventory ≡ ok rs
    → (is_nil rs ≡ false) × All (Covered rs) inventory
requirements-Covered inventory rs h =
    Ensures-ok (λ _. Unit) (Complete inventory) (requirements inventory) rs h
      (requirements-Complete inventory)
