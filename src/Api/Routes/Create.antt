-- ===== src/Api/Routes/Create.antt =====
-- `POST /orders`, on all its branches.
use velocity_dispatch.Prelude.{
  ◌≡◌, refl, sym, ◌⊎◌, inl, inr, false, Bool-cases, ==_refl, List, [], ◌∷◌, ◌++◌, some, ok, err,
  Outcome, done, failed, lost,
}
use mathlib.Core.List.{append-nil}
use velocity_dispatch.Float.{Float}
use velocity_dispatch.Core.Model.{DateTime, GeoPoint, Order, pending}
use velocity_dispatch.Core.Coordinates.{IsOnEarth, new_point_iff, new_point_cases}
use velocity_dispatch.Core.Events.{OrderCreated}
use velocity_dispatch.Core.Codec.{Codec}
use velocity_dispatch.Store.{SqlError, unreachable, violation, Database, has, row_of, row_of-append}
use velocity_dispatch.Api.Db.{order_key, row_of_order, insert_order, insert_order_row}
use velocity_dispatch.Api.Error.{fixed}
use velocity_dispatch.Api.Sqs.{SendMessage, OrderEventPublisher, message_of, publish}
use velocity_dispatch.Api.Routes.Defs.{
  PointDto, CreateOrderRequest, AppState, CreateIo, order_body, error_body, reply, answer,
  new_order, event_of, create_order, error_response,
}

module _ {F : Type 0} where
  abbrev pub to_point : PointDto F → GeoPoint F
  to_point p = record { lat = p.lat; lon = p.lon }

  -- The order that a request asks for.
  abbrev pub requested : CreateIo → CreateOrderRequest F → Order F
  requested io body = new_order io (to_point body.pickup) (to_point body.dropoff)

module _ {F : Type 0} ⦃f : Float F⦄ (codec : Codec F) where
  abbrev pub message : CreateIo → CreateOrderRequest F → AppState F → SendMessage
  message io body s = message_of codec s.publisher (event_of (requested io body))

  -- What SQS has accepted when its call ends so.
  abbrev pub accepted : Outcome → SendMessage → List SendMessage
  accepted done m = m ∷ []
  accepted failed m = []
  accepted lost m = m ∷ []

  insert_order_new :
      (stored : DateTime) (o : Order F) (db : Database F)
      → has order_key o.id db.orders ≡ false
      → insert_order done stored o db
        ≡ (ok tt, record db { orders = db.orders ++ row_of_order stored o ∷ [] })
  unfolding insert_order insert_order_row
  insert_order_new stored o db new = rw new

  publish_log :
      (io : Outcome) (p : OrderEventPublisher) (e : OrderCreated F) (sent : List SendMessage)
      → (publish codec io p e sent).1 ≡ sent ++ accepted io (message_of codec p e)
  unfolding publish
  publish_log done p e sent = refl
  publish_log failed p e sent = sym (append-nil sent)
  publish_log lost p e sent = refl

  publish_cases :
      (io : Outcome) (p : OrderEventPublisher) (e : OrderCreated F) (sent : List SendMessage)
      → ((publish codec io p e sent).1 ≡ sent)
        ⊎ ((publish codec io p e sent).1 ≡ sent ++ message_of codec p e ∷ [])
  unfolding publish
  publish_cases done p e sent = inr refl
  publish_cases failed p e sent = inl refl
  publish_cases lost p e sent = inr refl

  insert_order_cases :
      (io : Outcome) (stored : DateTime) (o : Order F) (db : Database F)
      → ((insert_order io stored o db).0 ≡ ok tt
          × (row_of order_key o.id (insert_order io stored o db).1.orders
              ≡ some (row_of_order stored o)))
        ⊎ ((e : SqlError) × ((insert_order io stored o db).0 ≡ err e))
  unfolding insert_order insert_order_row
  insert_order_cases failed stored o db = inr (unreachable, refl)
  insert_order_cases lost stored o db = inr (unreachable, refl)
  insert_order_cases done stored o db = elim (Bool-cases (has order_key o.id db.orders)) [
    | inl old ↦ inr (violation, rw old)
    | inr new ↦ inl (
        rw new (
          refl,
          rw (row_of-append order_key o.id db.orders (row_of_order stored o))
              (rw (new, ==_refl o.id)),
        ))
  ]

  -- A request with both points on Earth, whose fresh id no order has, is answered 201 with the
  -- pending order once the insert is done. The order is stored, and nothing else changes but the
  -- message, which SQS has unless its call had no effect: a failed publish does not fail the request.
  pub create_order_created :
      (io : CreateIo) (body : CreateOrderRequest F) (s : AppState F)
      → IsOnEarth (to_point body.pickup)
      → IsOnEarth (to_point body.dropoff)
      → has order_key io.new_id s.db.orders ≡ false
      → io.insert ≡ done
      → create_order codec io body s ≡ (
        ok (
            reply 201
              (order_body (record { id = io.new_id; status = pending; created_at = io.now }))),
        record s {
          db = record (s.db) {
            orders = s.db.orders ++ row_of_order io.stored_at (requested io body) ∷ [];
          };
          sent = s.sent ++ accepted io.publish (message io body s);
        },
      )
  unfolding create_order
  create_order_created io body s p d new i = rw ((new_point_iff _ _).0.1 p) (
      rw ((new_point_iff _ _).0.1 d) (
        rw (
          i,
          insert_order_new io.stored_at (requested io body) s.db new,
          publish_log io.publish s.publisher (event_of (requested io body)),
        )))

  -- A request with a point that is not on Earth is answered 400, and changes nothing.
  pub create_order_refused :
      (io : CreateIo) (body : CreateOrderRequest F) (s : AppState F)
      → (¬ IsOnEarth (to_point body.pickup)) ⊎ (¬ IsOnEarth (to_point body.dropoff))
      → let (r, t) = create_order codec io body s in ((answer r).status ≡ 400) × (t ≡ s)
  unfolding create_order error_response
  create_order_refused io body s (inl p) = rw ((new_point_iff _ _).1.1 p) (refl, refl)
  create_order_refused io body s (inr d) = elim (new_point_cases body.pickup.lat body.pickup.lon) [
    | inl (e, _) ↦ rw e (rw ((new_point_iff _ _).1.1 d) (refl, refl))
    | inr (e, _) ↦ rw e (refl, refl)
  ]

  -- A valid request whose insert is refused or fails is answered 500 with a fixed text, and nothing
  -- is published.
  pub create_order_not_stored :
      (io : CreateIo) (body : CreateOrderRequest F) (s : AppState F) (e : SqlError)
      → IsOnEarth (to_point body.pickup)
      → IsOnEarth (to_point body.dropoff)
      → (insert_order io.insert io.stored_at (requested io body) s.db).0 ≡ err e
      → let (r, t) = create_order codec io body s in
        (answer r ≡ reply 500 (error_body (fixed "internal server error"))) × (t.sent ≡ s.sent)
  unfolding create_order error_response
  create_order_not_stored io body s e p d h =
      rw ((new_point_iff _ _).0.1 p) (rw ((new_point_iff _ _).0.1 d) (rw h (refl, refl)))

  -- Whatever fails: nothing is published, or one message is, for an order between two points on Earth
  -- that the database then holds as pending.
  pub create_order_stored_first :
      (io : CreateIo) (body : CreateOrderRequest F) (s : AppState F)
      → let t = (create_order codec io body s).1 in
        (t.sent ≡ s.sent)
        ⊎ ((t.sent ≡ s.sent ++ message io body s ∷ [])
            × (row_of order_key io.new_id t.db.orders
                ≡ some (row_of_order io.stored_at (requested io body)))
            × IsOnEarth (to_point body.pickup)
            × IsOnEarth (to_point body.dropoff))
  unfolding create_order
  create_order_stored_first io body s = elim (new_point_cases body.pickup.lat body.pickup.lon) [
    | inr (e, _) ↦ rw e (inl refl)
    | inl (e, p) ↦ rw e (elim (new_point_cases body.dropoff.lat body.dropoff.lon) [
      | inr (k, _) ↦ rw k (inl refl)
      | inl (k, d) ↦
          rw k (elim (insert_order_cases io.insert io.stored_at (requested io body) s.db) [
            | inr (x, bad) ↦ rw bad (inl refl)
            | inl (good, stored) ↦
                rw good
                  (elim (publish_cases io.publish s.publisher (event_of (requested io body))
                    s.sent) [ inl same ↦ inl same | inr more ↦ inr (more, stored, p, d) ])
          ])
    ])
  ]
