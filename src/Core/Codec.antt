-- ===== src/Core/Codec.antt =====
-- `serde_json` at the messages between the services, as an interface: the printer and the parser of
-- the derived `Serialize` and `Deserialize`. The law is about the identifiers and the time, which are
-- exact on the wire; the digits of a coordinate may lose their last bit.
pub mod Sample
use velocity_dispatch.Prelude.{◌≡◌, String, Option, some}
use velocity_dispatch.Float.{Float}
use velocity_dispatch.Core.Coordinates.{IsOnEarth}
use velocity_dispatch.Core.Events.{OrderCreated, DispatchAssigned}

pub record Codec (F : Type 0) : Type 0 where
  -- `serde_json::to_string(&OrderCreated)` and `serde_json::from_str::<OrderCreated>`
  pub order_to_string : OrderCreated F → String
  pub order_from_str : String → Option (OrderCreated F)
  -- `serde_json::to_string(&DispatchAssigned)`
  pub assigned_to_string : DispatchAssigned F → Option String

module _ {F : Type 0} ⦃f : Float F⦄ where
  -- The text of an order at coordinates on Earth parses, to the same order.
  pub record IsFaithful (c : Codec F) : Type 0 where
    pub order_round_trip :
        (e : OrderCreated F)
        → IsOnEarth e.pickup
        → IsOnEarth e.dropoff
        → (d : OrderCreated F) × (c.order_from_str (c.order_to_string e) ≡ some d)
          × (d.order_id ≡ e.order_id)
          × (d.created_at ≡ e.created_at)
