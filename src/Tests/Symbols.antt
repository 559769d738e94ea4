-- ===== src/Tests/Symbols.antt =====
-- tool/sentry_upload_confirmation.py at concrete inputs.
use xfl_clash.Prelude.{
  ℕ, ◌+◌, true, false, ◌≡◌, refl, some, none, List, [], ◌∷◌, Text, codes, ◌==ₜ◌, is_one_of, strip,
  is_space, ok, Bool, ◌||◌, Result, All, any,
}
use xfl_clash.Confirmation.Requirements.{
  text, items, scalar, Item, Requirement, Row, requirements, matches, is_nil,
}
use xfl_clash.Confirmation.Requirements.Sound.{Covered, requirements-Covered}
use xfl_clash.Confirmation.Rounds.{Refusal, Service, confirm_all}
use xfl_clash.Confirmation.Rounds.Sound.{Confirms, confirm_all-Confirms}

abbrev item : Item
item = record {
  format = some (scalar (text (codes "dsym")));
  features = some (scalar (text (codes "debug, sources")));
  architectures = none;
  architecture = some (scalar (text (codes "AArch64")));
  debug_ids = some (items (text (codes "00010203-0405-0607-0809-0a0b0c0d0e0f") ∷ []));
}

abbrev needed : Requirement
needed = record {
  ident = codes "00010203-0405-0607-0809-0a0b0c0d0e0f";
  format = codes "macho";
  architecture = codes "arm64";
  features = codes "debug" ∷ [];
}

requirements_run : requirements (item ∷ []) ≡ ok (needed ∷ [])
unfolding requirements ◌==ₜ◌ is_one_of strip is_space
requirements_run = refl

requirements-Covered_example :
    (is_nil (needed ∷ []) ≡ false) × All (Covered (needed ∷ [])) (item ∷ [])
requirements-Covered_example = requirements-Covered (item ∷ []) (needed ∷ []) requirements_run

abbrev row : Row
row = record {
  debug_id = some (scalar (text (codes "00010203-0405-0607-0809-0A0B0C0D0E0F")));
  symbol_type = some (scalar (text (codes "macho")));
  cpu_name = some (scalar (text (codes "aarch64")));
  features = some (items (text (codes "symtab") ∷ text (codes "debug") ∷ []));
}

-- A server that answers every request with one row; the world is its clock.
abbrev server : Service ℕ
server = record {
  now = λ t. (t, t + 1);
  fetch = λ ident seconds t. (ok (row ∷ []), t + 1);
  sleep = λ delay t. t + delay;
  second = 1;
}

abbrev HeldByRow : Requirement → Type 0
HeldByRow r = matches row r ≡ true

only_one : (b : Bool) → (b || false) ≡ true → b ≡ true
only_one true e = refl
only_one false e = e

first_row :
    (rows : List Row) (r : Requirement)
    → ◌≡◌ {A = Result Refusal (List Row)} (ok (row ∷ [])) (ok rows)
    → any (λ x. matches x r) rows ≡ true
    → HeldByRow r
first_row rows r e h =
    let same : (row ∷ []) ≡ rows = cc in
    let held : any (λ x. matches x r) (row ∷ []) ≡ true = cc in only_one (matches row r) held

-- The server serves what it answers with: every answer is the one row.
served_by_row :
    (ident : Text) (seconds w : ℕ) (rows : List Row) (r : Requirement)
    → (server.fetch ident seconds w).0 ≡ ok rows
    → r.ident ≡ ident
    → any (λ x. matches x r) rows ≡ true
    → HeldByRow r
served_by_row ident seconds w rows r e _ h = first_row rows r e h

confirm_all-Confirms_example :
    Confirms server HeldByRow served_by_row (needed ∷ []) (confirm_all server 600 (needed ∷ []) 0).0
confirm_all-Confirms_example =
    confirm_all-Confirms server HeldByRow served_by_row 600 (needed ∷ []) 0
