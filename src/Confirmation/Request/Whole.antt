-- ===== src/Confirmation/Request/Whole.antt =====
-- What `get_debug_files` of tool/sentry_upload_confirmation.py returns and raises.
use xfl_clash.Prelude.{
  ◌≤◌, Bool, true, false, not, ◌||◌, Option, none, some, List, [], ◌∷◌, ◌++◌, ◌≡◌, refl, sym, ap,
  ◌∙◌, inl, inr, ltb, ◌==◌, if◌then◌else◌, Text, codes, contains, length, is_one_of, ok, Ensures,
  Ensures-bind, Ensures-raise_if, Ensures-mono, Bool-cases, arith,
}
use mathlib.Core.Path.{subst}
use xfl_clash.Prelude.Int.{pos, negsuc}
use xfl_clash.Binary.{Bytes}
use xfl_clash.Confirmation.Request.{
  UploadError, Reason, rate_limited, server_error, transport_error, inventory_pagination_unexpected,
  invalid_request_identity, invalid_credential, plain, Number, finite, not_finite, delay_of,
  number_or_date, retry_after, Body, ended, late, broken, chunk, Opened, response, http_error,
  no_connection, Json, objects, other_value, no_json, max_size, connection_failed, read_body,
  rows_of, is_ident, projects, is_token, answer, get_debug_files,
}

-- The bytes of a body, and whether it was read to its end.
abbrev pub bytes_of : Body → Bytes
bytes_of ended = []
bytes_of late = []
bytes_of broken = []
bytes_of (chunk [] body) = []
bytes_of (chunk (b ∷ bytes) body) = (b ∷ bytes) ++ bytes_of body

abbrev pub IsWhole : Body → Type 0
IsWhole ended = Unit
IsWhole late = ⊥
IsWhole broken = ⊥
IsWhole (chunk [] body) = Unit
IsWhole (chunk (b ∷ bytes) body) = IsWhole body

abbrev pub is_retried : Reason → Bool
is_retried transport_error = true
is_retried rate_limited = true
is_retried server_error = true
is_retried _ = false

-- An error that the rounds of the confirmation meet with another request has a pause of a second
-- at least.
abbrev pub IsPaced : UploadError → Type 0
IsPaced e = is_retried e.reason ≡ true → 1000 ≤ e.retry_after

++-assoc : (xs ys zs : Bytes) → (xs ++ ys) ++ zs ≡ xs ++ (ys ++ zs)
++-assoc [] ys zs = refl
++-assoc (x ∷ xs) ys zs = ap (◌∷◌ x) (++-assoc xs ys zs)

++-none : (xs : Bytes) → xs ≡ xs ++ []
++-none [] = refl
++-none (x ∷ xs) = ap (◌∷◌ x) (++-none xs)

connection_failed-IsPaced : IsPaced connection_failed
connection_failed-IsPaced h = omega arith

record IsRead (read : Bytes) (body : Body) (raw : Bytes) : Type 0 where
  whole : IsWhole body
  same : raw ≡ read ++ bytes_of body
  small : length raw ≤ max_size

read_body-IsRead :
    (read : Bytes) (body : Body)
    → length read ≤ max_size
    → Ensures IsPaced (IsRead read body) (read_body read body)
unfolding read_body
read_body-IsRead read ended h = record { whole = tt; same = ++-none read; small = h }
read_body-IsRead read late h = connection_failed-IsPaced
read_body-IsRead read broken h = connection_failed-IsPaced
read_body-IsRead read (chunk [] body) h = record { whole = tt; same = ++-none read; small = h }
read_body-IsRead read (chunk (b ∷ bytes) body) h =
    elim (Bool-cases (ltb max_size (length (read ++ b ∷ bytes)))) [
      | inl large ↦ rw large (λ k. cc)
      | inr small ↦ rw small (
          Ensures-mono IsPaced (IsRead read (chunk (b ∷ bytes) body))
            (IsRead (read ++ b ∷ bytes) body) (read_body (read ++ b ∷ bytes) body)
            (λ raw r. record {
              whole = r.whole;
              same = r.same ∙ ++-assoc read (b ∷ bytes) (bytes_of body);
              small = r.small;
            })
            (read_body-IsRead (read ++ b ∷ bytes) body (ground (arith, small))))
    ]

delay_of-IsPaced : (o : Option Number) → Ensures IsPaced (λ d. 1000 ≤ d) (delay_of o)
delay_of-IsPaced none = λ k. cc
delay_of-IsPaced (some not_finite) = λ k. cc
delay_of-IsPaced (some (finite (pos n))) = omega arith
delay_of-IsPaced (some (finite (negsuc n))) = omega arith

module _ {A : Type 0} (float date : Text → Option Number) (json : Bytes → Json A) where
  retry_after-IsPaced :
      (o : Option Text) → Ensures IsPaced (λ d. 1000 ≤ d) (retry_after float date o)
  unfolding retry_after
  retry_after-IsPaced none = omega arith
  retry_after-IsPaced (some []) = omega arith
  retry_after-IsPaced (some (c ∷ s)) =
      delay_of-IsPaced (number_or_date (float (c ∷ s)) (date (c ∷ s)))

  pause-IsPaced :
      (b : Bool) (header : Option Text)
      → Ensures IsPaced (λ d. 1000 ≤ d) (if b then retry_after float date header else ok 10000)
  pause-IsPaced true header = retry_after-IsPaced header
  pause-IsPaced false header = omega arith

  -- The rows are those of a body that was read to its end, with no further page.
  pub record IsAnswer (opened : Opened) (rows : List A) : Type 0 where
    pub link : Text
    pub body : Body
    pub opened_by : opened ≡ response link body
    pub last_page : contains link (codes "rel=\"next\"; results=\"true\"") ≡ false
    pub whole : IsWhole body
    pub small : length (bytes_of body) ≤ max_size
    pub parsed : json (bytes_of body) ≡ objects rows

  rows_of-parsed :
      (link : Text) (body : Body) (raw : Bytes) (j : Json A)
      → contains link (codes "rel=\"next\"; results=\"true\"") ≡ false
      → IsRead [] body raw
      → json raw ≡ j
      → Ensures IsPaced (IsAnswer (response link body)) (rows_of j)
  rows_of-parsed link body raw (objects rows) h r e = record {
    link = link;
    body = body;
    opened_by = refl;
    last_page = h;
    whole = r.whole;
    small = subst (λ x. length x ≤ max_size) r.same r.small;
    parsed = ap json (sym r.same) ∙ e;
  }
  rows_of-parsed link body raw other_value h r e = λ k. cc
  rows_of-parsed link body raw no_json h r e = λ k. cc

  answer-IsAnswer :
      (opened : Opened) → Ensures IsPaced (IsAnswer opened) (answer float date json opened)
  answer-IsAnswer no_connection = connection_failed-IsPaced
  answer-IsAnswer (http_error code header) =
      Ensures-bind IsPaced (IsAnswer (http_error code header)) (λ d. 1000 ≤ d)
        (if code == 429 || code == 503 then retry_after float date header else ok 10000) _
        (pause-IsPaced (code == 429 || code == 503) header) λ delay _ h. λ k. h
  answer-IsAnswer (response link body) =
      let P = IsAnswer (response link body) in
      Ensures-raise_if IsPaced P (contains link (codes "rel=\"next\"; results=\"true\""))
        (plain inventory_pagination_unexpected) _ (λ k. cc)
        λ last.
          Ensures-bind IsPaced P (IsRead [] body) (read_body [] body) _
            (read_body-IsRead [] body (omega arith))
            λ raw _ r. rows_of-parsed link body raw (json raw) last r refl

  -- The rows that get_debug_files returns are those of a body of at most 2000000 bytes that was read
  -- to its end, in a response with no further page. An error by the connection, the rate limit or
  -- the server, which the confirmation meets with another request, has a pause of at least a second.
  pub get_debug_files-IsAnswer :
      (connect : Text → Text → Text → Opened) (project ident token : Text)
      → Ensures IsPaced
          (IsAnswer (connect project ident token))
          (get_debug_files float date json connect project ident token)
  unfolding get_debug_files
  get_debug_files-IsAnswer connect project ident token =
      let P = IsAnswer (connect project ident token) in
      Ensures-raise_if IsPaced P (not (is_one_of project projects) || not (is_ident ident))
        (plain invalid_request_identity) _ (λ k. cc)
        λ _.
          Ensures-raise_if IsPaced P (not (is_token token)) (plain invalid_credential) _ (λ k. cc)
            λ _. answer-IsAnswer (connect project ident token)
