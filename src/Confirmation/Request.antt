-- ===== src/Confirmation/Request.antt =====
-- `retry_after` and `get_debug_files` of tool/sentry_upload_confirmation.py: one request for the
-- files of a debug identifier, and the errors that it raises. Delays are in milliseconds, with
-- what `float` and the dates give as parameters, as are the connection and the parsed JSON.
pub mod Whole
use xfl_clash.Prelude.{
  ℕ, ◌+◌, ◌-◌, ◌*◌, Bool, true, false, not, ◌&&◌, ◌||◌, Option, none, some, List, [], ◌∷◌, ◌++◌,
  ltb, leb, ◌==◌, if◌then◌else◌, max, Text, codes, ◌==ₜ◌, is_one_of, is_digit, contains, all, any,
  length, Result, ok, err, ◌>>=◌, ◌>>◌, raise_if,
}
use xfl_clash.Prelude.Int.{ℤ, pos, negsuc}
use xfl_clash.Binary.{Bytes}

pub data Reason : Type 0 where
  invalid_retry_after invalid_request_identity invalid_credential inventory_pagination_unexpected :
      Reason
  response_too_large invalid_server_inventory authentication_rejected permission_rejected : Reason
  rate_limited server_error request_rejected transport_error : Reason

-- `UploadError` in the phase `confirmation`; `retry_after` is 0 where none is given.
pub record UploadError : Type 0 where
  pub reason : Reason
  pub http_status : Option ℕ
  pub retry_after : ℕ

abbrev pub plain : Reason → UploadError
plain reason = record { reason = reason; http_status = none; retry_after = 0 }

-- A number that `float` gives.
pub data Number : Type 0 where
  finite : ℤ → Number
  not_finite : Number

abbrev pub at_least_second : ℤ → ℕ
at_least_second (pos n) = max 1000 n
at_least_second (negsuc n) = 1000

abbrev pub delay_of : Option Number → Result UploadError ℕ
delay_of none = err (plain invalid_retry_after)
delay_of (some not_finite) = err (plain invalid_retry_after)
delay_of (some (finite d)) = ok (at_least_second d)

abbrev pub number_or_date : Option Number → Option Number → Option Number
number_or_date (some n) date = some n
number_or_date none date = date

-- `date` is the time from now to a date, or none where the text is no date.
pub retry_after :
    (Text → Option Number) → (Text → Option Number) → Option Text → Result UploadError ℕ
retry_after float date none = ok 10000
retry_after float date (some []) = ok 10000
retry_after float date (some (c ∷ s)) = delay_of (number_or_date (float (c ∷ s)) (date (c ∷ s)))

-- The reads of a body: the bytes that `read1` gave, a passed deadline, an `OSError`, or the end.
pub data Body : Type 0 where
  ended late broken : Body
  chunk : Bytes → Body → Body

-- What the opener gives: a response with its `Link` header, an error status with its
-- `Retry-After` header, or a failed connection.
pub data Opened : Type 0 where
  response : Text → Body → Opened
  http_error : ℕ → Option Text → Opened
  no_connection : Opened

-- The parsed body: a list of objects, another value, or none.
pub data Json (A : Type 0) : Type 0 where
  objects : List A → Json A
  other_value no_json : Json A

abbrev pub max_size : ℕ
max_size = 2000000

abbrev pub connection_failed : UploadError
connection_failed = record { reason = transport_error; http_status = none; retry_after = 10000 }

-- The loop over the chunks, with the bytes so far.
pub read_body : Bytes → Body → Result UploadError Bytes
read_body read ended = ok read
read_body read late = err connection_failed
read_body read broken = err connection_failed
read_body read (chunk [] body) = ok read
read_body read (chunk (b ∷ bytes) body) =
    if ltb max_size (length (read ++ b ∷ bytes))
    then err (plain response_too_large)
    else read_body (read ++ b ∷ bytes) body

abbrev pub rows_of : {A : Type 0} → Json A → Result UploadError (List A)
rows_of (objects rows) = ok rows
rows_of other_value = err (plain invalid_server_inventory)
rows_of no_json = err (plain invalid_server_inventory)

abbrev pub reason_of : ℕ → Reason
reason_of code =
    if code == 401
    then authentication_rejected
    else if code == 403
    then permission_rejected
    else if code == 429
    then rate_limited
    else if leb 500 code
    then server_error
    else request_rejected

abbrev pub is_ident_char : ℕ → Bool
is_ident_char c = (leb b'a' c && leb c b'f') || is_digit c || c == b'-'

-- `[a-f0-9-]{36,70}`
abbrev pub is_ident : Text → Bool
is_ident s = leb 36 (length s) && leb (length s) 70 && all is_ident_char s

abbrev pub projects : List Text
projects = codes "omofly" ∷ codes "daishu" ∷ []

abbrev pub is_token : Text → Bool
is_token token = not (length token == 0) && not (any (λ c. c == 10 || c == 13) token)

module _ {A : Type 0} (float date : Text → Option Number) (json : Bytes → Json A) where
  abbrev pub refusal_of : ℕ → ℕ → UploadError
  refusal_of code delay = record {
    reason = reason_of code;
    http_status = some code;
    retry_after = delay;
  }

  abbrev pub answer : Opened → Result UploadError (List A)
  answer no_connection = err connection_failed
  answer (http_error code header) =
      (if code == 429 || code == 503 then retry_after float date header else ok 10000) >>= λ delay.
      err (refusal_of code delay)
  answer (response link body) = do
    raise_if (contains link (codes "rel=\"next\"; results=\"true\""))
        (plain inventory_pagination_unexpected)
    raw ← read_body [] body
    rows_of (json raw)

  -- `open` is the request and what the server gives for it.
  unfoldable pub get_debug_files :
      (Text → Text → Text → Opened) → Text → Text → Text → Result UploadError (List A)
  unfolding read_body retry_after is_one_of contains ◌==ₜ◌
  get_debug_files connect project ident token = do
    raise_if (not (is_one_of project projects) || not (is_ident ident))
        (plain invalid_request_identity)
    raise_if (not (is_token token)) (plain invalid_credential)
    answer (connect project ident token)
