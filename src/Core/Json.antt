-- ===== src/Core/Json.antt =====
-- `serde_json::Value`, as the `json!` calls of the services build it. The members of an object stand
-- in the order of the source.
use velocity_dispatch.Prelude.{ℕ, Bool, true, false, String, if◌then◌else◌, str_eq}
use velocity_dispatch.Core.Model.{Uuid}

mutual
  pub data Json (F : Type 0) : Type 0 where
    text : String → Json F
    number : ℕ → Json F
    float : F → Json F
    uuid : Uuid → Json F
    array : Items F → Json F
    object : Members F → Json F

  pub data Items (F : Type 0) : Type 0 where
    nil : Items F
    cons : Json F → Items F → Items F

  pub data Members (F : Type 0) : Type 0 where
    end : Members F
    member : String → Json F → Members F → Members F

module _ {F : Type 0} where
  abbrev pub has_member : String → Members F → Bool
  has_member k end = false
  has_member k (member j v rest) = if str_eq j k then true else has_member k rest
