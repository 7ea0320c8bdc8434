-- ===== src/Core/Model.antt =====
-- crates/dispatch-core/src/model.rs and error.rs, over any type of floats. A `Uuid` is its 128-bit
-- value, a `DateTime<Utc>` its nanoseconds since the epoch. The fields of the wire format are those
-- of the structs; the names of the statuses on the wire are `order_status_name` and
-- `driver_status_name`.
use velocity_dispatch.Prelude.{
  ℕ, Bool, true, false, not, ◌&&◌, ◌||◌, String, if◌then◌else◌, Result, ok, err,
}
use velocity_dispatch.Prelude.Int.{ℤ}
use velocity_dispatch.Float.{Float}

abbrev pub Uuid : Type 0
Uuid = ℕ

abbrev pub DateTime : Type 0
DateTime = ℤ

pub data CoreError (F : Type 0) : Type 0 where
  no_driver_in_range : ℕ → CoreError F
  invalid_coordinate : F → F → CoreError F
  order_not_assignable : Uuid → CoreError F

pub record GeoPoint (F : Type 0) : Type 0 where
  pub lat : F
  pub lon : F

pub data OrderStatus : Type 0 where
  pending assigned picked_up delivered cancelled : OrderStatus

pub data DriverStatus : Type 0 where
  available busy offline : DriverStatus

pub record Order (F : Type 0) : Type 0 where
  pub id : Uuid
  pub pickup : GeoPoint F
  pub dropoff : GeoPoint F
  pub status : OrderStatus
  pub created_at : DateTime

pub record Driver (F : Type 0) : Type 0 where
  pub id : Uuid
  pub name : String
  pub location : GeoPoint F
  pub status : DriverStatus
  pub updated_at : DateTime

-- `#[serde(rename_all = "snake_case")]` on the two enums.
abbrev pub order_status_name : OrderStatus → String
order_status_name pending = "pending"
order_status_name assigned = "assigned"
order_status_name picked_up = "picked_up"
order_status_name delivered = "delivered"
order_status_name cancelled = "cancelled"

abbrev pub driver_status_name : DriverStatus → String
driver_status_name available = "available"
driver_status_name busy = "busy"
driver_status_name offline = "offline"

-- `d.status == DriverStatus::Available`, by the derived `PartialEq`.
abbrev pub is_available : DriverStatus → Bool
is_available available = true
is_available busy = false
is_available offline = false

module _ {F : Type 0} ⦃f : Float F⦄ where
  open f use {le, neg, of_ℕ}

  -- `(-limit..=limit).contains(&x)`
  abbrev pub in_range : ℕ → F → Bool
  in_range limit x = le (neg (of_ℕ limit)) x && le x (of_ℕ limit)

  -- `GeoPoint::new`
  unfoldable pub new_point : F → F → Result (CoreError F) (GeoPoint F)
  new_point lat lon =
      if not (in_range 90 lat) || not (in_range 180 lon)
      then err (invalid_coordinate lat lon)
      else ok (record { lat = lat; lon = lon })
