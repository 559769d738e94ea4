-- ===== src/Pipeline/Verified/Final.antt =====
-- What `verified_files` of tool/release_pipeline.py accepts.
use xfl_clash.Prelude.{
  ℕ, Bool, true, false, not, ◌&&◌, ◌||◌, Option, none, some, List, [], ◌∷◌, ◌≡◌, refl, sym, ap, ◌∙◌,
  inl, inr, ◌==◌, ==_iff, map, all, any, Text, ◌==ₜ◌, ==ₜ_sound, is_one_of, length, Result, ok, err,
  Returns, Returns-bind, Returns-guard, Ensures-bind, Ensures-mono, All, In, Bool-cases, and_true,
  not-false, arith,
}
use mathlib.Core.Path.{subst}
use xfl_clash.Prelude.Int.{ℤ, pos, negsuc}
use xfl_clash.Binary.{Bytes}
use xfl_clash.Pipeline.{
  PipelineError, manifest_identity_mismatch, manifest_inventory_mismatch, unexpected_final_artifact,
  final_artifact_changed, invalid_manifest_record, Context, File, is_regular, expected_artifacts,
}
use xfl_clash.Pipeline.Verified.{
  Row, Report, is_same, same_text, same_files, same_names, actual_names, file_at, is_digest,
  size_of, digest_of, name_of, found, directory_of, count_distinct, verify_row, verify_rows,
  verified_files,
}

size_of-ok : (o : Option ℤ) (n : ℕ) → size_of o ≡ ok n → o ≡ some (pos n)
size_of-ok none n h = cc
size_of-ok (some (negsuc m)) n h = cc
size_of-ok (some (pos m)) n h = elim (Bool-cases (m == 0)) [
  | inl e ↦ (let none_such : err invalid_manifest_record ≡ ok n = rw e at h in cc)
  | inr e ↦ (let same : ◌≡◌ {A = Result PipelineError ℕ} (ok m) (ok n) = rw e at h in cc)
]

digest_of-ok : (o : Option Text) (s : Text) → digest_of o ≡ ok s → o ≡ some s
digest_of-ok none s h = cc
digest_of-ok (some t) s h = elim (Bool-cases (is_digest t)) [
  | inl e ↦ (let same : ◌≡◌ {A = Result PipelineError Text} (ok t) (ok s) = rw e at h in cc)
  | inr e ↦ (let none_such : err invalid_manifest_record ≡ ok s = rw e at h in cc)
]

name_of-ok : (o : Option Text) (s : Text) → name_of o ≡ ok s → o ≡ some s
name_of-ok none s h = cc
name_of-ok (some t) s h = cc

found-ok : (o : Option File) (f : File) → found o ≡ ok f → o ≡ some f
found-ok none f h = cc
found-ok (some g) f h = cc

module _ (sha256 : Bytes → Text) (dir : List File) where
  -- A row whose file is in the directory as the row says.
  pub record IsFinal (row : Row) (name : Text) : Type 0 where
    pub file : File
    pub named : row.file ≡ some name
    pub found : file_at name dir ≡ some file
    pub regular : is_regular file.kind ≡ true
    pub size : row.size ≡ some (pos (length file.content))
    pub digest : row.sha256 ≡ some (sha256 file.content)

  verify_row-IsFinal : (row : Row) → Returns (IsFinal row) (verify_row sha256 dir row)
  unfolding verify_row
  verify_row-IsFinal row =
      let P = IsFinal row in
      Returns-bind P (size_of row.size) _ λ size hs.
        Returns-bind P (digest_of row.sha256) _ λ digest hd.
          Returns-bind P (name_of row.file) _ λ name hn.
            Returns-bind P (found (file_at name dir)) _ λ file hf.
              Returns-guard P (not (is_regular file.kind && length file.content == size))
                final_artifact_changed _
                λ h1.
                  Returns-guard P (not (sha256 file.content ==ₜ digest)) final_artifact_changed
                    (ok name)
                    λ h2.
                      (let (regular, sized) =
                          and_true (is_regular file.kind) (length file.content == size)
                            (not-false (is_regular file.kind && length file.content == size) h1) in
                        record {
                          file = file;
                          named = name_of-ok row.file name hn;
                          found = found-ok (file_at name dir) file hf;
                          regular = regular;
                          size =
                              size_of-ok row.size size hs
                              ∙ ap (λ n. some (pos n))
                                  (sym ((==_iff (length file.content) size).0 sized));
                          digest =
                              digest_of-ok row.sha256 digest hd
                              ∙ ap some (
                                  sym (
                                    ==ₜ_sound (sha256 file.content) digest
                                      (not-false (sha256 file.content ==ₜ digest) h2)));
                        })

  abbrev pub AreFinal : List Row → List Text → Type 0
  AreFinal [] [] = Unit
  AreFinal [] (n ∷ ns) = ⊥
  AreFinal (r ∷ rows) [] = ⊥
  AreFinal (r ∷ rows) (n ∷ ns) = IsFinal r n × AreFinal rows ns

  verify_rows-AreFinal : (rows : List Row) → Returns (AreFinal rows) (verify_rows sha256 dir rows)
  unfolding verify_rows
  verify_rows-AreFinal [] = tt
  verify_rows-AreFinal (row ∷ rows) =
      let P = AreFinal (row ∷ rows) in
      Ensures-bind (λ _. Unit) P (IsFinal row) (verify_row sha256 dir row) _
        (verify_row-IsFinal row)
        λ name _ final.
          Ensures-bind (λ _. Unit) P (AreFinal rows) (verify_rows sha256 dir rows)
            (λ names. ok (name ∷ names)) (verify_rows-AreFinal rows)
            λ names _ finals. (final, finals)

  -- The row of an artifact that is wanted.
  wanted_row :
      (rows : List Row) (names : List Text) (t : Text)
      → AreFinal rows names
      → any (λ r. same_text r.file t) rows ≡ true
      → (row : Row) × In row rows × IsFinal row t
  wanted_row [] [] t a h = cc
  wanted_row [] (n ∷ ns) t a h = elim a [ ]
  wanted_row (r ∷ rows) [] t a h = elim a [ ]
  wanted_row (r ∷ rows) (n ∷ ns) t (f, a) h = elim (Bool-cases (same_text r.file t)) [
    | inl e ↦ (r, inl refl, subst (IsFinal r) (same_name r.file n t f.named e) f)
    | inr e ↦ (let (row, i, final) = wanted_row rows ns t a (rw e at h) in (row, inr i, final))
  ]
    where
      same_name : (o : Option Text) (n t : Text) → o ≡ some n → same_text o t ≡ true → n ≡ t
      same_name none n t e h = cc
      same_name (some s) n t e h = (let same : s ≡ n = cc in sym same ∙ ==ₜ_sound s t h)

  wanted_rows :
      (rows : List Row) (names : List Text)
      → AreFinal rows names
      → (wanted : List Text) → all (λ t. any (λ r. same_text r.file t) rows) wanted ≡ true
      → All (λ t. (row : Row) × In row rows × IsFinal row t) wanted
  wanted_rows rows names a [] h = tt
  wanted_rows rows names a (t ∷ ts) h =
      let (one, more) =
        and_true (any (λ r. same_text r.file t) rows)
          (all (λ u. any (λ r. same_text r.file u) rows) ts) h in
      (wanted_row rows names t a one, wanted_rows rows names a ts more)

-- The names that `expected_artifacts` gives.
abbrev pub wanted_of : Result PipelineError (List (Text × Text)) → List Text
wanted_of (ok expected) = map (λ e. e.1) expected
wanted_of (err e) = []

pub record IsVerified (sha256 : Bytes → Text) (c : Context) (report : Report)
    (dist : Option (List File)) (names : List Text) : Type 0 where
  pub dir : List File
  pub at_dist : dist ≡ some dir
  pub passed : report.passed ≡ true
  pub rows : AreFinal sha256 dir report.rows names
  pub wanted :
      All
        (λ t. (row : Row) × In row report.rows × IsFinal sha256 dir row t)
        (wanted_of (expected_artifacts c))
  pub no_other : all (λ n. is_one_of n (wanted_of (expected_artifacts c))) (actual_names dir) ≡ true

three_tests : (a b c : Bool) → (not a || not b || not c) ≡ false → (a ≡ true) × (c ≡ true)
three_tests a b c h = ground (arith, h)

directory_of-ok :
    (o : Option (List File)) (dir : List File) → directory_of o ≡ ok dir → o ≡ some dir
directory_of-ok none dir h = cc
directory_of-ok (some d) dir h = cc

-- Where verified_files returns, the manifest has passed, and every expected artifact is a regular
-- file of the distribution directory with the size and the digest that a row of the manifest gives
-- for it; every name in the directory with the suffix of a package is expected, and the names that
-- are returned are those of the rows.
pub verified_files-IsVerified :
    (sha256 : Bytes → Text) (c : Context) (build_number : ℕ) (source_revision : Text)
    (report : Report) (dist : Option (List File))
    → Returns
        (IsVerified sha256 c report dist)
        (verified_files sha256 c build_number source_revision report dist)
unfolding verified_files
verified_files-IsVerified sha256 c build_number source_revision report dist =
    let P = IsVerified sha256 c report dist in
    Returns-guard P (not (is_same report.identity c build_number source_revision))
      manifest_identity_mismatch _
      λ _. Returns-bind P (expected_artifacts c) _ λ expected he.
        Returns-guard P
          (not report.passed
            || not (length report.rows == count_distinct (map (λ e. e.1) expected))
            || not (same_files report.rows (map (λ e. e.1) expected)))
          manifest_inventory_mismatch _
          λ h1. Returns-bind P (directory_of dist) _ λ dir hd.
            Returns-guard P (not (same_names (actual_names dir) (map (λ e. e.1) expected)))
              unexpected_final_artifact _
              λ h2.
                Ensures-mono (λ _. Unit) P (AreFinal sha256 dir report.rows)
                  (verify_rows sha256 dir report.rows)
                  (λ names a.
                    let wanted : List Text = map (λ e. e.1) expected in
                    let (passed, same) =
                      three_tests report.passed (length report.rows == count_distinct wanted)
                        (same_files report.rows wanted) h1 in
                    let (_, each) =
                      and_true _ (all (λ t. any (λ r. same_text r.file t) report.rows) wanted)
                        same in
                    let (only, _) =
                      and_true (all (λ n. is_one_of n wanted) (actual_names dir)) _
                        (not-false (same_names (actual_names dir) wanted) h2) in
                    record {
                      dir = dir;
                      at_dist = directory_of-ok dist dir hd;
                      passed = passed;
                      rows = a;
                      wanted =
                          subst
                            (λ w.
                              All (λ t. (row : Row) × In row report.rows × IsFinal sha256 dir row t)
                                (wanted_of w))
                            (sym he) (wanted_rows sha256 dir report.rows names a wanted each);
                      no_other =
                          ap (λ w. all (λ n. is_one_of n (wanted_of w)) (actual_names dir)) he
                          ∙ only;
                    })
                  (verify_rows-AreFinal sha256 dir report.rows)
