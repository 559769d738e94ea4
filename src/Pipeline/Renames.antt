-- ===== src/Pipeline/Renames.antt =====
-- The renames of `normalize` are all made or all undone, tool/release_pipeline.py.
use xfl_clash.Prelude.{
  Bool, true, false, List, [], ◌∷◌, ◌≡◌, ◌⊎◌, inl, inr, refl, ◌∙◌, Text, ◌==ₜ◌, ==ₜ_sound, ==ₜ_refl,
  any, map, Bool-cases, or_false, All, Pairs,
}
use xfl_clash.Binary.{Bytes}
use xfl_clash.Pipeline.{Kind, File, rename, roll_back, move_all}

abbrev pub IsAbsent : Text → List File → Type 0
IsAbsent name dir = any (λ f. f.name ==ₜ name) dir ≡ false

different : (s t : Text) → (s ==ₜ t) ≡ false → (t ==ₜ s) ≡ false
different s t h = elim (Bool-cases (t ==ₜ s)) [
  | inr ne ↦ ne
  | inl eq ↦
      let same : t ≡ s = ==ₜ_sound t s eq in
      let clash : (s ==ₜ s) ≡ false = rw same at h in cc (clash, ==ₜ_refl s)
]

-- A first file, renamed and renamed back.
first_back :
    (s t name : Text) (kind : Kind) (content : Bytes) (fs : List File)
    → (s ==ₜ t) ≡ false
    → (name ==ₜ t) ≡ false
    → rename t s (rename s t fs) ≡ fs
    → rename t s (rename s t (record { name = name; kind = kind; content = content } ∷ fs))
      ≡ record { name = name; kind = kind; content = content } ∷ fs
unfolding rename
first_back s t name kind content fs d h ih = elim (Bool-cases (name ==ₜ s)) [
  | inl eq ↦
      let same : name ≡ s = ==ₜ_sound name s eq in
      rw (h, eq, different s t d, ==ₜ_refl t, ih) (rw same refl)
  | inr ne ↦ rw (h, ne, ne, h, ih) refl
]

no_files : (s t : Text) → rename t s (rename s t []) ≡ []
unfolding rename
no_files s t = refl

rename_back :
    (s t : Text) (dir : List File)
    → (s ==ₜ t) ≡ false
    → IsAbsent t dir
    → rename t s (rename s t dir) ≡ dir
rename_back s t [] d h = no_files s t
rename_back s t (f ∷ fs) d h =
    let (a, b) = or_false (f.name ==ₜ t) (any (λ g. g.name ==ₜ t) fs) h in
    first_back s t f.name f.kind f.content fs d a (rename_back s t fs d b)

-- A name that is free stays so after a rename to another one.
rename-IsAbsent :
    (s t u : Text) (dir : List File)
    → (t ==ₜ u) ≡ false
    → IsAbsent u dir
    → IsAbsent u (rename s t dir)
unfolding rename
rename-IsAbsent s t u [] d h = refl
rename-IsAbsent s t u (f ∷ fs) d h =
    let (a, b) = or_false (f.name ==ₜ u) (any (λ g. g.name ==ₜ u) fs) h in
    first_absent f.name f.kind f.content a (rename-IsAbsent s t u fs d b)
  where
    first_absent :
        (name : Text) (kind : Kind) (content : Bytes)
        → (name ==ₜ u) ≡ false
        → IsAbsent u (rename s t fs)
        → IsAbsent u (rename s t (record { name = name; kind = kind; content = content } ∷ fs))
    first_absent name kind content a ih = elim (Bool-cases (name ==ₜ t)) [
      | inl eq ↦ rw eq ih
      | inr ne ↦ rw ne (elim (Bool-cases (name ==ₜ s)) [
        | inl source ↦ rw (source, d, ih) refl
        | inr another ↦ rw (another, a, ih) refl
      ])
    ]

abbrev pub contents : List File → List Bytes
contents dir = map (λ f. f.content) dir

contents-rename :
    (s t : Text) (dir : List File) → IsAbsent t dir → contents (rename s t dir) ≡ contents dir
unfolding rename
contents-rename s t [] h = refl
contents-rename s t (f ∷ fs) h =
    let (a, b) = or_false (f.name ==ₜ t) (any (λ g. g.name ==ₜ t) fs) h in
    first_content f.name f.kind f.content a (contents-rename s t fs b)
  where
    first_content :
        (name : Text) (kind : Kind) (content : Bytes)
        → (name ==ₜ t) ≡ false
        → contents (rename s t fs) ≡ contents fs
        → contents (rename s t (record { name = name; kind = kind; content = content } ∷ fs))
          ≡ content ∷ contents fs
    first_content name kind content a ih = rw a (elim (Bool-cases (name ==ₜ s)) [
      | inl source ↦ rw (source, ih) refl
      | inr another ↦ rw (another, ih) refl
    ])

-- Every file is still there with its content, and after a failure the directory is as it was.
abbrev pub IsKept : List File → Bool × List File → Type 0
IsKept dir0 (true, dir) = contents dir ≡ contents dir0
IsKept dir0 (false, dir) = dir ≡ dir0

-- Each file that changes its name gets one that is free.
abbrev pub IsFree : List File → Text × Text → Type 0
IsFree dir (s, t) = ((s ==ₜ t) ≡ true) ⊎ IsAbsent t dir

abbrev pub OtherTarget : Text × Text → Text × Text → Type 0
OtherTarget p q = (p.1 ==ₜ q.1) ≡ false

module _ (can_rename : Text → Text → List File → Bool) where
  -- A rename that was made can be undone.
  abbrev pub IsUndoable : Text × Text → Type 0
  IsUndoable (s, t) = (dir : List File) → can_rename t s dir ≡ true

  All-IsFree :
      (s t : Text) (dir : List File) (plans : List (Text × Text))
      → All (OtherTarget (s, t)) plans
      → All (IsFree dir) plans
      → All (IsFree (rename s t dir)) plans
  All-IsFree s t dir [] o h = tt
  All-IsFree s t dir ((u, v) ∷ plans) (o, os) (inl same, h) =
      (inl same, All-IsFree s t dir plans os h)
  All-IsFree s t dir ((u, v) ∷ plans) (o, os) (inr absent, h) =
      (inr (rename-IsAbsent s t v dir o absent), All-IsFree s t dir plans os h)

  undone :
      (s t : Text) (completed : List (Text × Text)) (dir dir0 : List File)
      → can_rename t s (rename s t dir) ≡ true
      → rename t s (rename s t dir) ≡ dir
      → roll_back can_rename completed dir ≡ dir0
      → roll_back can_rename ((s, t) ∷ completed) (rename s t dir) ≡ dir0
  unfolding roll_back
  undone s t completed dir dir0 can e back = rw (can, roll_back) (rw e back)

  move_on-IsKept :
      (plans completed : List (Text × Text)) (dir dir0 : List File)
      → roll_back can_rename completed dir ≡ dir0
      → contents dir ≡ contents dir0
      → All (IsFree dir) plans
      → Pairs OtherTarget plans
      → All IsUndoable plans
      → IsKept dir0 (move_all can_rename plans completed dir)
  unfolding move_all roll_back
  move_on-IsKept [] completed dir dir0 back same free other undo = same
  move_on-IsKept ((s, t) ∷ plans) completed dir dir0 back same (f, free) (o, other) (u, undo) =
      elim (Bool-cases (s ==ₜ t)) [
        | inl eq ↦
            rw (eq, move_all) (move_on-IsKept plans completed dir dir0 back same free other undo)
        | inr ne ↦
            rw (ne, move_all)
              (elim (Bool-cases (can_rename s t dir)) [
                | inr refused ↦ rw refused back
                | inl made ↦ rw made (
                    move_on-IsKept plans ((s, t) ∷ completed) (rename s t dir) dir0
                      (undone s t completed dir dir0 (u (rename s t dir))
                        (rename_back s t dir ne (absent_of f ne)) back)
                      (contents-rename s t dir (absent_of f ne) ∙ same)
                      (All-IsFree s t dir plans o free) other undo)
              ])
      ]
    where
      absent_of : IsFree dir (s, t) → (s ==ₜ t) ≡ false → IsAbsent t dir
      absent_of (inl eq) ne = cc
      absent_of (inr absent) ne = absent

  -- The renames keep the content of every file, and where one fails the directory is as it was
  -- before the first. For this the new names are free and different, and the renames that were
  -- made can be undone.
  pub move_all-IsKept :
      (plans : List (Text × Text)) (dir : List File)
      → All (IsFree dir) plans
      → Pairs OtherTarget plans
      → All IsUndoable plans
      → IsKept dir (move_all can_rename plans [] dir)
  unfolding roll_back
  move_all-IsKept plans dir free other undo =
      move_on-IsKept plans [] dir dir refl refl free other undo
