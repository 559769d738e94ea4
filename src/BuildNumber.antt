-- ===== src/BuildNumber.antt =====
-- tool/release_build_number.py: the build counter of a flavor and the number of a release.
pub mod Counter
pub mod Publish
use xfl_clash.Prelude.{
  ℕ, ◌+◌, Bool, true, false, ◌&&◌, ◌||◌, not, [], ◌∷◌, ltb, leb, if◌then◌else◌, max, Text, codes,
  all, length, is_digit, to_number, Result, ok, err, ◌>>=◌, ◌>>◌, raise_if,
}

abbrev pub max_build_number : ℕ
max_build_number = 65535

-- The messages of `BuildNumberError`, and the other exceptions that `main` catches.
pub data BuildError : Type 0 where
  not_in_range below_counter bad_publication git_failed checkout_differs : BuildError
  checkout_dirty source_not_contained counter_unsafe not_extending push_exhausted : BuildError
  unavailable counter_unavailable : BuildError

-- `re.fullmatch(r"[1-9][0-9]{0,more}", value)`
abbrev pub is_number_text : ℕ → Text → Bool
is_number_text more [] = false
is_number_text more (c ∷ s) = (leb b'1' c && leb c b'9') && (all is_digit s && leb (length s) more)

unfoldable pub integer : ℕ → Text → Result BuildError ℕ
integer maximum value =
    if not (is_number_text 9 value) || ltb maximum (to_number 0 value)
    then err not_in_range
    else ok (to_number 0 value)

-- An empty request takes the counter's number.
unfoldable pub resolve : Text → Text → Result BuildError ℕ
resolve current [] = integer max_build_number current
resolve current (c ∷ requested) = do
  available ← integer max_build_number current
  number ← integer max_build_number (c ∷ requested)
  raise_if (ltb number available) below_counter
  ok number

unfoldable pub next_counter : Text → Text → Result BuildError ℕ
next_counter current built = do
  counted ← integer (max_build_number + 1) current
  number ← integer max_build_number built
  ok (max counted (number + 1))
