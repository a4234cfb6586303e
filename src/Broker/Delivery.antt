-- ===== src/Broker/Delivery.antt =====
-- A broadcast and each subscription (api/internal/broker/broker.go).
use mathlib.Core.Option
use taillight.Base.{
  ℕ, ◌+◌, ◌<◌, ◌≡◌, refl, Bool, ◌&&◌, if◌then◌else◌, ltb, leb, Text, [], ◌∷◌, ◌++◌, Option, some,
  length, length-append, arith,
}
use taillight.Base.Assoc.{
  Assoc, lookup, total, nat_eq, Every, map_values, total-map_values, map_values-Every,
  lookup-map_values, map_values-Distinct,
}
use taillight.Broker.{Broker, Subscription, Message, send, offer, offer_all, broadcast}
use taillight.Broker.Invariant.{IsWellFormed, IsLive, has_key}

module _ {E F : Type 0} (matches : F → E → Bool) where
  -- The subscription after an offer: the message is appended if the filter passes the event and
  -- the channel has room.
  abbrev pub offered : E → Message → Subscription F → Subscription F
  offered event msg s =
      if matches s.filter event && ltb (length s.buffer) 512
      then record s { buffer = s.buffer ++ msg ∷ [] }
      else s

  -- 1 if the filter passes the event and the channel is full.
  abbrev pub dropped : E → Subscription F → ℕ
  dropped event s = if matches s.filter event && leb 512 (length s.buffer) then 1 else 0

  pub offer-offered :
      (event : E) (msg : Message) (s : Subscription F)
      → IsLive s
      → offer matches event msg s ≡ some (offered event msg s, dropped event s)
  unfolding offer send
  offer-offered event msg s h = ground arith

  offer_all-offered :
      (event : E) (msg : Message) (m : Assoc ℕ (Subscription F))
      → Every (λ _ s. IsLive s) m
      → offer_all matches event msg m
        ≡ some (map_values (offered event msg) m, total (dropped event) m)
  unfolding offer_all map_values total
  offer_all-offered event msg [] h = refl
  offer_all-offered event msg ((i, s) ∷ m) h =
      rw (offer-offered event msg s h.0, offer_all-offered event msg m h.1, offer_all) refl

  pub offered-IsLive :
      (event : E) (msg : Message) (s : Subscription F) → IsLive s → IsLive (offered event msg s)
  offered-IsLive event msg s h = ground (arith, length-append s.buffer (msg ∷ []))

  offered-key :
      (event : E) (msg : Message) (s : Subscription F)
      → (offered event msg s).client_key ≡ s.client_key
  offered-key event msg s = ground arith

  connections-offered :
      (event : E) (msg : Message) (k : Text) (m : Assoc ℕ (Subscription F))
      → total (has_key k) (map_values (offered event msg) m) ≡ total (has_key k) m
  unfolding total map_values
  connections-offered event msg k [] = refl
  connections-offered event msg k ((i, s) ∷ m) =
      rw (offered-key event msg s) (omega (arith, connections-offered event msg k m))

module _ {E F : Type 0} (matches : F → E → Bool) (get_id : E → ℕ) (marshal : E → Option Text) where
  abbrev message : E → Text → Message
  message event payload = record { id = get_id event; payload = payload }

  -- On a well-formed broker, broadcasting an event that marshals never panics. Every
  -- subscription stays; exactly those whose filter passes the event and whose channel has
  -- room get it, as their newest message, and every other passed one is counted as a drop.
  -- The broker stays well-formed.
  pub broadcast_delivers :
      (event : E) (payload : Text) (b : Broker F)
      → IsWellFormed b
      → marshal event ≡ some payload
      → (b' : Broker F) × (broadcast matches get_id marshal event b ≡ some b')
        × IsWellFormed b'
        × ((i : ℕ)
            → lookup i b'.subscribers
              ≡ Option.map (offered matches event (message event payload)) (lookup i b.subscribers))
        × (b'.metrics.on_drop ≡ b.metrics.on_drop + total (dropped matches event) b.subscribers)
  unfolding broadcast
  broadcast_delivers event payload b w encoded =
      let msg = message event payload in
      let f = offered matches event msg in
      (
        record b {
          subscribers = map_values f b.subscribers;
          metrics = record (b.metrics) {
            on_broadcast = b.metrics.on_broadcast + 1;
            on_drop = b.metrics.on_drop + total (dropped matches event) b.subscribers;
          };
        },
        rw (encoded, offer_all-offered matches event msg b.subscribers w.live, broadcast) refl,
        record {
          distinct = map_values-Distinct f b.subscribers w.distinct;
          below = map_values-Every f (λ i _. i < b.next) (λ i s h. h) b.subscribers w.below;
          live =
              map_values-Every f (λ _ s. IsLive s) (λ i s h. offered-IsLive matches event msg s h)
                b.subscribers w.live;
          counts_distinct = w.counts_distinct;
          counted = λ k named.
              rw (connections-offered matches event msg k b.subscribers) (w.counted k named);
          at_most = rw (total-map_values f (λ _. 1) b.subscribers) w.at_most;
          capped = λ k named.
              rw (connections-offered matches event msg k b.subscribers) (w.capped k named);
        },
        λ i. lookup-map_values f i b.subscribers,
        refl,
      )
