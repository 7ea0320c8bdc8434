-- ===== src/Api/Error.antt =====
-- services/dispatch-api/src/error.rs: from an error of a handler to its HTTP response.
use velocity_dispatch.Prelude.{ℕ, String}
use velocity_dispatch.Core.Model.{
  CoreError, no_driver_in_range, invalid_coordinate, order_not_assignable,
}
use velocity_dispatch.Store.{SqlError}

pub data ApiError (F : Type 0) : Type 0 where
  core : CoreError F → ApiError F
  database : SqlError → ApiError F
  not_found : ApiError F

-- The text of an error: fixed, or the `Display` of an error of the core.
pub data ErrorText (F : Type 0) : Type 0 where
  fixed : String → ErrorText F
  display : CoreError F → ErrorText F

module _ {F : Type 0} where
  unfoldable pub status_code : ApiError F → ℕ
  status_code (core (no_driver_in_range radius_km)) = 503
  status_code (core (invalid_coordinate lat lon)) = 400
  status_code (core (order_not_assignable id)) = 422
  status_code not_found = 404
  status_code (database e) = 500

  -- `other.to_string()`
  abbrev pub to_string : ApiError F → ErrorText F
  to_string (core e) = display e
  to_string (database e) = fixed "database error"
  to_string not_found = fixed "resource not found"

  unfoldable pub error_message : ApiError F → ErrorText F
  error_message (database e) = fixed "internal server error"
  error_message other = to_string other
