-- ===== src/Store/Schema.antt =====
-- The three tables, and the `CHECK` constraints on their status columns.
use velocity_dispatch.Prelude.{Bool, ◌||◌, List, String, str_eq}
use velocity_dispatch.Core.Model.{Uuid, DateTime}

pub record DriverRow (F : Type 0) : Type 0 where
  pub id : Uuid
  pub name : String
  pub lat : F
  pub lon : F
  pub status : String
  pub updated_at : DateTime

pub record OrderRow (F : Type 0) : Type 0 where
  pub id : Uuid
  pub pickup_lat : F
  pub pickup_lon : F
  pub dropoff_lat : F
  pub dropoff_lon : F
  pub status : String
  pub created_at : DateTime

pub record AssignmentRow (F : Type 0) : Type 0 where
  pub id : Uuid
  pub order_id : Uuid
  pub driver_id : Uuid
  pub distance_km : F
  pub assigned_at : DateTime

pub record Database (F : Type 0) : Type 0 where
  pub drivers : List (DriverRow F)
  pub orders : List (OrderRow F)
  pub assignments : List (AssignmentRow F)

infix 50 ◌is◌
abbrev pub ◌is◌ : String → String → Bool
s is t = str_eq s t

abbrev pub check_driver_status : String → Bool
check_driver_status s = s is "available" || s is "busy" || s is "offline"

abbrev pub check_order_status : String → Bool
check_order_status s =
    s is "pending" || s is "assigned" || s is "picked_up" || s is "delivered" || s is "cancelled"
