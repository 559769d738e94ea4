-- ===== src/Tests/Responses.antt =====
-- `get_debug_files` of tool/sentry_upload_confirmation.py on a few responses.
use xfl_clash.Prelude.{
  ℕ, ◌*◌, ◌≡◌, refl, Option, none, some, [], ◌∷◌, Text, codes, ok, err, Ensures,
}
use xfl_clash.Prelude.Int.{pos}
use xfl_clash.Binary.{Bytes}
use xfl_clash.Confirmation.Request.{
  Number, finite, Json, objects, no_json, chunk, ended, late, response, http_error, rate_limited,
  connection_failed, plain, inventory_pagination_unexpected, get_debug_files,
}
use xfl_clash.Confirmation.Request.Whole.{IsPaced, IsAnswer, get_debug_files-IsAnswer}

abbrev float : Text → Option Number
float s = none

abbrev date : Text → Option Number
date [] = none
date (c ∷ s) = some (finite (pos (c * 100)))

-- Each byte is a row.
abbrev json : Bytes → Json ℕ
json [] = no_json
json (b ∷ bytes) = objects (b ∷ bytes)

abbrev ident : Text
ident = codes "0123456789abcdef0123456789abcdef-0123"

abbrev token : Text
token = codes "secret"

two_chunks :
    get_debug_files float date json
      (λ p i t. response [] (chunk (1 ∷ []) (chunk (2 ∷ 3 ∷ []) ended)))
      (codes "daishu")
      ident
      token
    ≡ ok (1 ∷ 2 ∷ 3 ∷ [])
unfolding get_debug_files
two_chunks = refl

too_late :
    get_debug_files float date json
      (λ p i t. response [] (chunk (1 ∷ []) late))
      (codes "daishu")
      ident
      token
    ≡ err connection_failed
unfolding get_debug_files
too_late = refl

limited :
    get_debug_files float date json
      (λ p i t. http_error 429 (some (codes "A")))
      (codes "daishu")
      ident
      token
    ≡ err (record { reason = rate_limited; http_status = some 429; retry_after = 6500 })
unfolding get_debug_files
limited = refl

more_pages :
    get_debug_files float date json
      (λ p i t. response (codes "<u>; rel=\"next\"; results=\"true\"") ended)
      (codes "daishu")
      ident
      token
    ≡ err (plain inventory_pagination_unexpected)
unfolding get_debug_files
more_pages = refl

get_debug_files-IsAnswer_example :
    Ensures IsPaced (IsAnswer float date json (response [] (chunk (1 ∷ []) ended))) (
      get_debug_files float date json
        (λ p i t. response [] (chunk (1 ∷ []) ended))
        (codes "daishu")
        ident
        token)
get_debug_files-IsAnswer_example =
    get_debug_files-IsAnswer float date json (λ p i t. response [] (chunk (1 ∷ []) ended))
      (codes "daishu") ident token
