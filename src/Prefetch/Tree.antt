-- ===== src/Prefetch/Tree.antt =====
-- The tree of processes of `stale_prefetches` against the relation that defines it,
-- tool/resolve_macos_packages.py.
use xfl_clash.Prelude.{
  ℕ, zero, suc, ◌+◌, ◌≤◌, ◌<◌, Bool, true, false, not, ◌&&◌, ◌||◌, some, List, [], ◌∷◌, ◌++◌, ◌≡◌,
  refl, sym, ap, ◌∙◌, ◌↔◌, ◌⊎◌, inl, inr, length, keep, length-keep, In, Bool-cases, arith,
}
use mathlib.Core.Path.{subst}
use xfl_clash.Prelude.Int.{ℤ, ◌==ℤ◌, ==ℤ_sound, ==ℤ_refl}
use xfl_clash.Prefetch.{is_in, to_set, new_children, grow, insert, sort, int_before}

-- A process is a root, or a child of a process of the tree.
pub data IsBelow (processes : List (ℤ × ℤ)) (roots : List ℤ) : ℤ → Type 0 where
  root : (pid : ℤ) → In pid roots → IsBelow processes roots pid
  child :
      (pid parent : ℤ)
      → In (pid, parent) processes
      → IsBelow processes roots parent
      → IsBelow processes roots pid

pub is_in-In : (x : ℤ) (xs : List ℤ) → is_in x xs ≡ true → In x xs
is_in-In x [] h = cc
is_in-In x (y ∷ ys) h = elim (Bool-cases (y ==ℤ x)) [
  | inl e ↦ inl (==ℤ_sound y x e)
  | inr e ↦ inr (is_in-In x ys (rw e at h))
]

pub In-is_in : (x : ℤ) (xs : List ℤ) → In x xs → is_in x xs ≡ true
In-is_in x [] i = elim i [ ]
In-is_in x (y ∷ ys) (inl e) =
    ap (λ z. z ==ℤ x || is_in x ys) e ∙ ap (λ b. b || is_in x ys) (==ℤ_refl x)
In-is_in x (y ∷ ys) (inr i) = elim (Bool-cases (y ==ℤ x)) [
  | inl e ↦ rw (e, is_in) refl
  | inr e ↦ rw (e, is_in) (In-is_in x ys i)
]

pub In-either : {A : Type 0} (x : A) (xs ys : List A) → In x (xs ++ ys) → In x xs ⊎ In x ys
In-either x [] ys i = inr i
In-either x (y ∷ xs) ys (inl e) = inl (inl e)
In-either x (y ∷ xs) ys (inr i) = elim (In-either x xs ys i) [ inl j ↦ inl (inr j) | inr j ↦ inr j ]

pub In-left : {A : Type 0} (x : A) (xs ys : List A) → In x xs → In x (xs ++ ys)
In-left x [] ys i = elim i [ ]
In-left x (y ∷ xs) ys (inl e) = inl e
In-left x (y ∷ xs) ys (inr i) = inr (In-left x xs ys i)

to_set-In : (x : ℤ) (xs : List ℤ) → In x (to_set xs) ↔ In x xs
unfolding to_set
to_set-In x [] = (λ i. i, λ i. i)
to_set-In x (y ∷ ys) = elim (Bool-cases (is_in y ys)) [
  | inl e ↦
      rw (e, to_set)
        (
          λ i. inr ((to_set-In x ys).0 i),
          λ i. elim i [
            | inl same ↦ (to_set-In x ys).1 (subst (λ z. In z ys) same (is_in-In y ys e))
            | inr j ↦ (to_set-In x ys).1 j
          ],
        )
  | inr e ↦
      rw (e, to_set)
        (
          λ i. elim i [ inl same ↦ inl same | inr j ↦ inr ((to_set-In x ys).0 j) ],
          λ i. elim i [ inl same ↦ inl same | inr j ↦ inr ((to_set-In x ys).1 j) ],
        )
]

insert-In : (x y : ℤ) (xs : List ℤ) → In x (insert y xs) ↔ In x (y ∷ xs)
unfolding insert
insert-In x y [] = (λ i. i, λ i. i)
insert-In x y (z ∷ zs) = elim (Bool-cases (int_before y z)) [
  | inl e ↦ rw (e, insert) (λ i. i, λ i. i)
  | inr e ↦
      rw (e, insert)
        (
          λ i. elim i [ inl same ↦ inr (inl same) | inr j ↦ behind ((insert-In x y zs).0 j) ],
          λ i. ahead ((insert-In x y zs).1) i,
        )
]
  where
    behind : In x (y ∷ zs) → In x (y ∷ z ∷ zs)
    behind (inl e) = inl e
    behind (inr j) = inr (inr j)

    ahead : (In x (y ∷ zs) → In x (insert y zs)) → In x (y ∷ z ∷ zs) → In x (z ∷ insert y zs)
    ahead k (inl e) = inr (k (inl e))
    ahead k (inr (inl e)) = inl e
    ahead k (inr (inr j)) = inr (k (inr j))

pub sort-In : (x : ℤ) (xs : List ℤ) → In x (sort xs) ↔ In x xs
unfolding sort
sort-In x [] = (λ i. i, λ i. i)
sort-In x (y ∷ ys) = (
  λ i. elim ((insert-In x y (sort ys)).0 i) [ inl e ↦ inl e | inr j ↦ inr ((sort-In x ys).0 j) ],
  λ i. (insert-In x y (sort ys)).1 (elim i [ inl e ↦ inl e | inr j ↦ inr ((sort-In x ys).1 j) ]),
)

new_test : (a b : Bool) → (a && not b) ≡ true → (a ≡ true) × (b ≡ false)
new_test a b h = ground (arith, h)

old_test : (a b : Bool) → (a && not b) ≡ false → a ≡ true → b ≡ true
old_test a b h k = ground (arith, h, k)

-- What a new child is.
new_children-In :
    (x : ℤ) (processes : List (ℤ × ℤ)) (tree : List ℤ)
    → In x (new_children processes tree)
    → (parent : ℤ) × In (x, parent) processes × (is_in parent tree ≡ true) × (is_in x tree ≡ false)
new_children-In x [] tree i = elim i [ ]
new_children-In x ((p, q) ∷ rest) tree i = elim (Bool-cases (is_in q tree && not (is_in p tree))) [
  | inl e ↦
      (let j : In x (p ∷ new_children rest tree) = rw (e, new_children) at i in
        let (e1, e2) = new_test (is_in q tree) (is_in p tree) e in
        elim j [
          | inl same ↦
              (q, inl (ap (λ z. (z, q)) same), e1, subst (λ z. is_in z tree ≡ false) same e2)
          | inr k ↦ deeper (new_children-In x rest tree k)
        ])
  | inr e ↦ deeper (new_children-In x rest tree (rw (e, new_children) at i))
]
  where
    deeper :
        ((parent : ℤ) × In (x, parent) rest × (is_in parent tree ≡ true) × (is_in x tree ≡ false))
        → (parent : ℤ) × In (x, parent) ((p, q) ∷ rest)
          × (is_in parent tree ≡ true)
          × (is_in x tree ≡ false)
    deeper (parent, k, e1, e2) = (parent, inr k, e1, e2)

-- Where there is none, the tree is closed.
new_children-closed :
    (processes : List (ℤ × ℤ)) (tree : List ℤ)
    → new_children processes tree ≡ []
    → (x parent : ℤ) → In (x, parent) processes
    → is_in parent tree ≡ true
    → is_in x tree ≡ true
new_children-closed [] tree h x parent i k = elim i [ ]
new_children-closed ((p, q) ∷ rest) tree h x parent i k =
    elim (Bool-cases (is_in q tree && not (is_in p tree))) [
      | inl e ↦ (let no : p ∷ new_children rest tree ≡ [] = rw (e, new_children) at h in cc)
      | inr e ↦ elim i [
        | inl same ↦
            subst (λ z. is_in z tree ≡ true) (ap (λ z. z.0) same)
              (old_test (is_in q tree) (is_in p tree) e
                (subst (λ z. is_in z tree ≡ true) (sym (ap (λ z. z.1) same)) k))
        | inr j ↦ new_children-closed rest tree (rw (e, new_children) at h) x parent j k
      ]
    ]

-- Fewer processes are outside a larger tree.
keep-less :
    {A : Type 0} (p q : A → Bool) (xs : List A)
    → ((x : A) → q x ≡ true → p x ≡ true)
    → length (keep q xs) ≤ length (keep p xs)
keep-less p q [] h = omega arith
keep-less p q (x ∷ xs) h = elim (Bool-cases (q x)) [
  | inl e ↦ rw (e, keep, h x e) (omega (arith, keep-less p q xs h))
  | inr e ↦
      rw (e, keep)
        (elim (Bool-cases (p x)) [
          | inl f ↦ rw (f, keep) (omega (arith, keep-less p q xs h))
          | inr f ↦ rw (f, keep) (keep-less p q xs h)
        ])
]

keep-fewer :
    {A : Type 0} (p q : A → Bool) (xs : List A) (x : A)
    → ((y : A) → q y ≡ true → p y ≡ true)
    → In x xs
    → p x ≡ true
    → q x ≡ false
    → length (keep q xs) < length (keep p xs)
keep-fewer p q [] x h i e f = elim i [ ]
keep-fewer p q (y ∷ ys) x h (inl same) e f =
    let e' = subst (λ z. p z ≡ true) (sym same) e in
    let f' = subst (λ z. q z ≡ false) (sym same) f in
    rw (e', f', keep) (omega (arith, keep-less p q ys h))
keep-fewer p q (y ∷ ys) x h (inr i) e f = elim (Bool-cases (q y)) [
  | inl g ↦ rw (g, keep, h y g) (omega (arith, keep-fewer p q ys x h i e f))
  | inr g ↦
      rw (g, keep)
        (elim (Bool-cases (p y)) [
          | inl k ↦ rw (k, keep) (omega (arith, keep-fewer p q ys x h i e f))
          | inr k ↦ rw (k, keep) (keep-fewer p q ys x h i e f)
        ])
]

abbrev outside : List ℤ → ℤ × ℤ → Bool
outside tree e = not (is_in e.0 tree)

outside-append :
    (tree more : List ℤ) (e : ℤ × ℤ) → outside (tree ++ more) e ≡ true → outside tree e ≡ true
outside-append tree more e h = elim (Bool-cases (is_in e.0 tree)) [
  | inr out ↦ rw out refl
  | inl within ↦
      (let again : is_in e.0 (tree ++ more) ≡ true =
          In-is_in e.0 (tree ++ more) (In-left e.0 tree more (is_in-In e.0 tree within)) in
        let no : false ≡ true = rw again at h in cc)
]

In-right : {A : Type 0} (x : A) (xs ys : List A) → In x ys → In x (xs ++ ys)
In-right x [] ys i = i
In-right x (y ∷ xs) ys i = inr (In-right x xs ys i)

-- The tree of a set of processes: what is below the roots, and no more.
pub record IsTree (processes : List (ℤ × ℤ)) (roots tree : List ℤ) : Type 0 where
  pub sound : (x : ℤ) → In x tree → IsBelow processes roots x
  pub complete : (x : ℤ) → IsBelow processes roots x → In x tree

grown :
    (processes : List (ℤ × ℤ)) (roots tree children : List ℤ)
    → new_children processes tree ≡ children
    → ((x : ℤ) → In x tree → IsBelow processes roots x)
    → (x : ℤ) → In x (tree ++ children)
    → IsBelow processes roots x
grown processes roots tree children e h x i = elim (In-either x tree children i) [
  | inl j ↦ h x j
  | inr j ↦
      (let (parent, k, e1, e2) = new_children-In x processes tree (subst (λ z. In x z) (sym e) j) in
        child x parent k (h parent (is_in-In parent tree e1)))
]

closed_tree :
    (processes : List (ℤ × ℤ)) (roots tree : List ℤ)
    → new_children processes tree ≡ []
    → ((x : ℤ) → In x roots → In x tree)
    → (x : ℤ) → IsBelow processes roots x
    → In x tree
closed_tree processes roots tree e h _ (root x i) = h x i
closed_tree processes roots tree e h _ (child x parent i below) = is_in-In x tree (
    new_children-closed processes tree e x parent i
      (In-is_in parent tree (closed_tree processes roots tree e h parent below)))

-- The loop ends with the tree; each round adds a process, so their number is enough.
grow_on-IsTree :
    (rounds : ℕ) (processes : List (ℤ × ℤ)) (roots tree : List ℤ)
    → length (keep (outside tree) processes) < rounds
    → ((x : ℤ) → In x roots → In x tree)
    → ((x : ℤ) → In x tree → IsBelow processes roots x)
    → (result : List ℤ) × (grow rounds processes tree ≡ some result) × IsTree processes roots result
unfolding grow
grow_on-IsTree zero processes roots tree enough from below = ground (arith, enough)
grow_on-IsTree (suc rounds) processes roots tree enough from below =
    step (new_children processes tree) refl (λ more less.
      grow_on-IsTree rounds processes roots (tree ++ more) (omega (arith, enough, less))
        (λ x i. In-left x tree more (from x i)))
  where
    step :
        (children : List ℤ)
        → new_children processes tree ≡ children
        → ((more : List ℤ)
            → length (keep (outside (tree ++ more)) processes)
              < length (keep (outside tree) processes)
            → ((x : ℤ) → In x (tree ++ more) → IsBelow processes roots x)
            → (result : List ℤ) × (grow rounds processes (tree ++ more) ≡ some result)
              × IsTree processes roots result)
        → (result : List ℤ) × ((elim children [
          | [] ↦ some tree
          | c ∷ cs ↦ grow rounds processes (tree ++ c ∷ cs)
        ])
            ≡ some result)
          × IsTree processes roots result
    step [] e k =
        (tree, refl, record { sound = below; complete = closed_tree processes roots tree e from })
    step (c ∷ cs) e k =
        let (parent, i, e1, e2) =
          new_children-In c processes tree (subst (λ z. In c z) (sym e) (inl refl)) in
        k (c ∷ cs)
          (keep-fewer (outside tree) (outside (tree ++ c ∷ cs)) processes (c, parent)
            (outside-append tree (c ∷ cs)) i (ap not e2)
            (ap not (In-is_in c (tree ++ c ∷ cs) (In-right c tree (c ∷ cs) (inl refl)))))
          (grown processes roots tree (c ∷ cs) e below)

pub grow-IsTree :
    (processes : List (ℤ × ℤ)) (roots : List ℤ)
    → (tree : List ℤ) × (grow (length processes + 1) processes (to_set roots) ≡ some tree)
      × IsTree processes roots tree
grow-IsTree processes roots = rw (plus_one (length processes)) (
    grow_on-IsTree (suc (length processes)) processes roots (to_set roots)
      (omega (arith, length-keep (outside (to_set roots)) processes))
      (λ x i. (to_set-In x roots).1 i) (λ x i. root x ((to_set-In x roots).0 i)))
  where
    plus_one : (n : ℕ) → n + 1 ≡ suc n
    plus_one n = omega arith
