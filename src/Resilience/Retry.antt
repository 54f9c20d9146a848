-- ===== src/Resilience/Retry.antt =====
-- internal/resilience/retry.go: which errors are worth another attempt. `ComputeBackoff` draws a
-- random delay in floating point and `WaitBackoff` sleeps it; only whether the wait was cut short
-- shows in the program's state, so the wait is an input of the round trip.
use stile.Prelude.{
  ℕ, String, Bool, true, false, Option, none, some, List, [], ◌∷◌, str_eq, if◌then◌else◌, any,
}
use stile.Prelude.Text.{itoa}

-- One error of a chain of wrapped errors, as `errors.As` looks at it: *transport.ConnectError,
-- *transport.StatusError with its code, or any other.
pub data Layer : Type 0 where
  connect_error : Layer
  status_error : ℕ → Layer
  other_error : String → Layer

-- an error value, outermost layer first
abbrev pub Error : Type 0
Error = List Layer

pub record RetryPolicy : Type 0 where
  pub max_attempts : ℕ
  pub retryable_errors : List String

has_connect : Error → Bool
has_connect [] = false
has_connect (connect_error ∷ e) = true
has_connect (_ ∷ e) = has_connect e

find_status : Error → Option ℕ
find_status [] = none
find_status (status_error code ∷ e) = some code
find_status (_ ∷ e) = find_status e

-- the map from names to `true` is the list of its names
listed : RetryPolicy → String → Bool
listed rp name = any (λ e. str_eq e name) rp.retryable_errors

status_listed : RetryPolicy → Option ℕ → Bool
unfolding listed
status_listed rp none = false
status_listed rp (some code) = listed rp (itoa code)

unfoldable pub is_retryable : Option RetryPolicy → Error → Bool
unfolding has_connect find_status listed status_listed
is_retryable none e = false
is_retryable (some rp) e =
    if has_connect e then listed rp "connection_error" else status_listed rp (find_status e)
