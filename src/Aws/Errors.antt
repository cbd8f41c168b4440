-- ===== src/Aws/Errors.antt =====
-- internal/aws/errors.go: the classification of an error that a call of AWS returned.
use refresh.Prelude.{
  ℕ, ◌+◌, Bool, true, false, ◌&&◌, ◌||◌, List, [], ◌∷◌, none, some, leb, ◌==◌, if◌then◌else◌,
}
use mathlib.Core.List.{map}
use refresh.Text.{Text, txt, concat, contains}
use refresh.Go.{GoError, canceled, deadline_exceeded, plain, wrapped, error_text}
use refresh.Common.Retry.{ApiError, as_api_error, member}
use refresh.Aws.Messages.{
  credential_error_patterns, network_error_patterns, permission_error_patterns,
  credential_error_codes, permission_error_codes, format_region_error, format_credential_error,
  format_network_error, format_permission_error,
}

-- `strings.ToLower`, as far as a search for ASCII texts sees it: beside the capitals of ASCII only
-- the Kelvin sign and the dotted capital I have a lower case in ASCII.
unfoldable pub lower_char : ℕ → ℕ
lower_char c =
    if leb b'A' c && leb c b'Z'
    then c + 32
    else if c == 0x212a
    then b'k'
    else if c == 0x130
    then b'i'
    else c

unfoldable pub to_lower : Text → Text
unfolding lower_char
to_lower s = map lower_char s

-- The loop of `matchesPatterns` over the lower-case text.
unfoldable pub contains_any : Text → List Text → Bool
unfolding contains
contains_any s [] = false
contains_any s (p ∷ ps) = contains s p || contains_any s ps

unfoldable pub matches_patterns : Text → List Text → Bool
unfolding to_lower contains_any
matches_patterns s ps = contains_any (to_lower s) ps

unfoldable pub is_credential_error : GoError → Bool
is_credential_error e = matches_patterns (error_text e) credential_error_patterns

unfoldable pub is_network_error : GoError → Bool
is_network_error e = matches_patterns (error_text e) network_error_patterns

unfoldable pub is_permission_error : GoError → Bool
is_permission_error e = matches_patterns (error_text e) permission_error_patterns

unfoldable pub is_region_error : GoError → Bool
is_region_error e =
    let s = to_lower (error_text e) in
    contains s (txt "invalid region")
    || contains s (txt "not a valid region")
    || contains s (txt "missing region")
    || contains s (txt "resolve region")
    || contains s (txt "no such host") && contains s (txt ".amazonaws.com")

-- `errors.Is(err, context.Canceled)`
unfoldable pub is_canceled : GoError → Bool
is_canceled canceled = true
is_canceled (wrapped text e) = is_canceled e
is_canceled _ = false

-- `errors.Is(err, context.DeadlineExceeded)`
unfoldable pub is_deadline : GoError → Bool
is_deadline deadline_exceeded = true
is_deadline (wrapped text e) = is_deadline e
is_deadline _ = false

format_canceled : Text → GoError
format_canceled operation = plain (concat (txt "operation cancelled while " ∷ operation ∷ []))

format_deadline : Text → GoError
format_deadline operation = plain (
    concat
      (txt "timed out while " ∷ operation ∷ txt " (increase --timeout to allow more time)" ∷ []))

-- An error that carries a code of the API.
format_api_error : GoError → ApiError → Text → GoError
format_api_error e ae operation =
    if member ae.code permission_error_codes
    then format_permission_error e operation
    else if member ae.code credential_error_codes
    then format_credential_error e
    else plain (
        concat (
          txt "AWS API error while "
          ∷ operation
          ∷ txt ": "
          ∷ ae.message
          ∷ txt " ("
          ∷ ae.code
          ∷ txt ")"
          ∷ []))

-- An error that never reached the API.
format_transport_error : GoError → Text → GoError
format_transport_error e operation =
    if is_credential_error e
    then format_credential_error e
    else if is_region_error e
    then format_region_error e operation
    else if is_network_error e
    then format_network_error e operation
    else if is_permission_error e
    then format_permission_error e operation
    else wrapped (concat (txt "error while " ∷ operation ∷ txt ": " ∷ error_text e ∷ [])) e

-- `FormatAWSError` of an error that is not nil.
unfoldable pub format_aws_error : GoError → Text → GoError
unfolding format_canceled format_deadline format_api_error format_transport_error
format_aws_error e operation =
    if is_canceled e
    then format_canceled operation
    else if is_deadline e
    then format_deadline operation
    else elim (as_api_error e) [
      | some ae ↦ format_api_error e ae operation
      | none ↦ format_transport_error e operation
    ]
