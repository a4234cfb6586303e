-- ===== src/Broker.antt =====
-- api/internal/broker/broker.go: the fan-out of events to SSE clients.
pub mod Invariant
pub mod Removal
pub mod Delivery
pub mod Stream
use taillight.Base.{
  ℕ, suc, ◌+◌, ◌-◌, Bool, true, false, not, ◌&&◌, if◌then◌else◌, ltb, leb, Text, is_empty, List, [],
  ◌∷◌, ◌++◌, Option, none, some, length,
}
use taillight.Base.Assoc.{Assoc, lookup, insert, delete, total, weigh, text_eq_keys, nat_eq}

abbrev pub subscription_buffer_size : ℕ
subscription_buffer_size = 512

abbrev pub max_subscribers : ℕ
max_subscribers = 1000

abbrev pub max_subscribers_per_client : ℕ
max_subscribers_per_client = 20

pub record Message : Type 0 where
  pub id : ℕ
  pub payload : Text

-- A subscription with its channel: `buffer` is what the channel holds, oldest first.
pub record Subscription (F : Type 0) : Type 0 where
  pub buffer : List Message
  pub closed : Bool
  pub filter : F
  pub client_key : Text

-- How often each metric callback ran.
pub record BrokerMetrics : Type 0 where
  pub on_subscribe : ℕ
  pub on_unsubscribe : ℕ
  pub on_broadcast : ℕ
  pub on_drop : ℕ

-- The broker and the subscriptions that clients hold. A subscription is named by its pointer, a
-- number; `next` is the first unused one. `subscribers` is the broker's set, and `released` are
-- the subscriptions that left it, which their clients may still read.
pub record Broker (F : Type 0) : Type 0 where
  pub subscribers : Assoc ℕ (Subscription F)
  pub released : Assoc ℕ (Subscription F)
  pub next : ℕ
  pub by_client : Assoc Text ℕ
  pub metrics : BrokerMetrics

pub data SubscribeResult : Type 0 where
  subscribed : ℕ → SubscribeResult
  err_too_many_subscribers err_too_many_client_subscribers : SubscribeResult

-- A map's count: a missing key reads as 0.
abbrev pub count_of : Text → Assoc Text ℕ → ℕ
count_of k m = weigh (λ n. n) (lookup k m)

unfoldable pub dec_client : Text → Assoc Text ℕ → Assoc Text ℕ
dec_client client_key m =
    if is_empty client_key
    then m
    else if leb (count_of client_key m) 1
    then delete client_key m
    else insert client_key (count_of client_key m - 1) m

module _ {F : Type 0} where
  unfoldable pub new : Broker F
  new = record {
    subscribers = [];
    released = [];
    next = 0;
    by_client = [];
    metrics = record { on_subscribe = 0; on_unsubscribe = 0; on_broadcast = 0; on_drop = 0 };
  }

  unfoldable pub len : Broker F → ℕ
  unfolding total
  len b = total (λ s. 1) b.subscribers

  abbrev fresh_subscription : F → Text → Subscription F
  fresh_subscription filter client_key = record {
    buffer = [];
    closed = false;
    filter = filter;
    client_key = client_key;
  }

  -- The state after a successful registration.
  admit : F → Text → Broker F → Broker F
  admit filter client_key b = record b {
    subscribers = insert b.next (fresh_subscription filter client_key) b.subscribers;
    next = suc b.next;
    by_client =
        if is_empty client_key
        then b.by_client
        else insert client_key (count_of client_key b.by_client + 1) b.by_client;
    metrics = record metrics { on_subscribe = metrics.on_subscribe + 1 };
  }
    where
      open b use {metrics}

  unfoldable pub subscribe : F → Text → Broker F → Broker F × SubscribeResult
  unfolding len admit
  subscribe filter client_key b =
      if leb max_subscribers (len b)
      then (b, err_too_many_subscribers)
      else if not (is_empty client_key)
          && leb max_subscribers_per_client (count_of client_key b.by_client)
      then (b, err_too_many_client_subscribers)
      else (admit filter client_key b, subscribed b.next)

  -- `close` of a closed channel panics: `none`.
  unfoldable pub close : Subscription F → Option (Subscription F)
  close s = if s.closed then none else some (record s { closed = true })

  release : ℕ → Subscription F → Subscription F → Broker F → Broker F
  unfolding dec_client
  release i s closed b = record b {
    subscribers = delete i b.subscribers;
    released = insert i closed b.released;
    by_client = dec_client s.client_key b.by_client;
    metrics = record metrics { on_unsubscribe = metrics.on_unsubscribe + 1 };
  }
    where
      open b use {metrics}

  -- `none` is a panic.
  unfoldable pub unsubscribe : ℕ → Broker F → Option (Broker F)
  unfolding release close
  unsubscribe i b = elim (lookup i b.subscribers) [
    | none ↦ some b
    | some s ↦ elim (close s) [ none ↦ none | some c ↦ some (release i s c b) ]
  ]

  close_all :
      Assoc ℕ (Subscription F) → Assoc ℕ (Subscription F) → Option (Assoc ℕ (Subscription F))
  unfolding close
  close_all [] released = some released
  close_all ((i, s) ∷ m) released = elim (close s) [
    | none ↦ none
    | some c ↦ close_all m (insert i c released)
  ]

  unfoldable pub shutdown : Broker F → Option (Broker F)
  unfolding close_all
  shutdown b = elim (close_all b.subscribers b.released) [
    | none ↦ none
    | some released ↦ some (record b { subscribers = []; released = released; by_client = [] })
  ]

  -- The non-blocking send of the `select`: the subscription, and 1 if the event was dropped. A
  -- send on a closed channel panics.
  unfoldable pub send : Message → Subscription F → Option (Subscription F × ℕ)
  send msg s =
      if s.closed
      then none
      else if ltb (length s.buffer) subscription_buffer_size
      then some (record s { buffer = s.buffer ++ msg ∷ [] }, 0)
      else some (s, 1)

  -- A client takes the oldest message of its channel.
  unfoldable pub receive : Subscription F → Option (Message × Subscription F)
  receive s = elim s.buffer [ [] ↦ none | msg ∷ rest ↦ some (msg, record s { buffer = rest }) ]

-- `matches` is the filter's method.
module _ {E F : Type 0} (matches : F → E → Bool) where
  unfoldable pub offer : E → Message → Subscription F → Option (Subscription F × ℕ)
  unfolding send
  offer event msg s = if matches s.filter event then send msg s else some (s, 0)

  unfoldable pub offer_all :
      E → Message → Assoc ℕ (Subscription F) → Option (Assoc ℕ (Subscription F) × ℕ)
  unfolding offer
  offer_all event msg [] = some ([], 0)
  offer_all event msg ((i, s) ∷ m) = elim (offer event msg s) [
    | none ↦ none
    | some (s', d) ↦ elim (offer_all event msg m) [
      | none ↦ none
      | some (m', ds) ↦ some ((i, s') ∷ m', d + ds)
    ]
  ]

-- `get_id` is the event's id, and `marshal` is json.Marshal.
module _ {E F : Type 0} (matches : F → E → Bool) (get_id : E → ℕ) (marshal : E → Option Text) where
  unfoldable pub broadcast : E → Broker F → Option (Broker F)
  unfolding offer_all
  broadcast event b = elim (marshal event) [
    | none ↦ some b
    | some payload ↦
        elim (offer_all matches event (record { id = get_id event; payload = payload })
          b.subscribers) [
            | none ↦ none
            | some (subscribers, drops) ↦ some (record b {
              subscribers = subscribers;
              metrics = record (b.metrics) {
                on_broadcast = b.metrics.on_broadcast + 1;
                on_drop = b.metrics.on_drop + drops;
              };
            })
          ]
  ]
