-- ===== src/Tests/Fanout.antt =====
-- Runs of the broker and of the filters.
use mathlib.Core.Option
use taillight.Base.{
  ℕ, ◌+◌, ◌≡◌, refl, true, false, Text, codes, List, [], ◌∷◌, Option, none, some, contains_byte,
  ◌↔◌, arith,
}
use taillight.Base.Assoc.{lookup, total, nat_eq}
use taillight.Model.Event.{SrvlogEvent}
use taillight.Model.Unicode.{ascii}
use taillight.Model.Filter.{SrvlogFilter, srvlog_matches, match_lower}
use taillight.Model.Filter.Glob.{Glob}
use taillight.Model.Filter.Wildcard.{match_lower-Glob}
use taillight.Broker.{
  Broker, Subscription, Message, new, subscribe, unsubscribe, shutdown, broadcast,
}
use taillight.Broker.Invariant.{IsWellFormed, IsLive, new-IsWellFormed, subscribe-IsWellFormed}
use taillight.Broker.Removal.{unsubscribe-IsWellFormed, shutdown-IsWellFormed}
use taillight.Broker.Delivery.{offered, dropped, broadcast_delivers}
use taillight.Broker.Stream.{Happening, published, reads, Client, Ends, run_in_order}
use taillight.Tests.Data.{link_down, oslo_filter}

abbrev no_clients : Broker SrvlogFilter
no_clients = new

abbrev one_client : Broker SrvlogFilter
one_client = (subscribe oslo_filter (codes "ip:10.0.0.1") no_clients).0

subscribe-IsWellFormed_example :
    IsWellFormed (subscribe oslo_filter (codes "ip:10.0.0.1") no_clients).0
subscribe-IsWellFormed_example =
    subscribe-IsWellFormed oslo_filter (codes "ip:10.0.0.1") no_clients new-IsWellFormed

unsubscribe-IsWellFormed_example :
    (b' : Broker SrvlogFilter) × (unsubscribe 0 one_client ≡ some b')
    × IsWellFormed b'
    × (lookup 0 b'.subscribers ≡ none)
unsubscribe-IsWellFormed_example =
    unsubscribe-IsWellFormed 0 one_client
      (subscribe-IsWellFormed oslo_filter (codes "ip:10.0.0.1") no_clients new-IsWellFormed)

shutdown-IsWellFormed_example :
    (b' : Broker SrvlogFilter) × (shutdown one_client ≡ some b')
    × IsWellFormed b'
    × (b'.subscribers ≡ [])
    × ((i : ℕ) (s : Subscription SrvlogFilter)
        → lookup i one_client.subscribers ≡ some s
        → lookup i b'.released ≡ some (record s { closed = true }))
    × ((i : ℕ)
        → lookup i one_client.subscribers ≡ none
        → lookup i b'.released ≡ lookup i one_client.released)
shutdown-IsWellFormed_example =
    shutdown-IsWellFormed one_client
      (subscribe-IsWellFormed oslo_filter (codes "ip:10.0.0.1") no_clients new-IsWellFormed)

abbrev as_text : SrvlogEvent → Option Text
as_text e = some e.message

abbrev event_id : SrvlogEvent → ℕ
event_id e = e.id

broadcast_delivers_example :
    (b' : Broker SrvlogFilter) × (broadcast
        (srvlog_matches ascii)
        event_id
        as_text
        link_down
        one_client
      ≡ some b')
    × IsWellFormed b'
    × ((i : ℕ)
        → lookup i b'.subscribers
          ≡ Option.map
              (offered
                (srvlog_matches ascii)
                link_down
                (record { id = 41; payload = codes "link down" }))
              (lookup i one_client.subscribers))
    × (b'.metrics.on_drop
        ≡ one_client.metrics.on_drop
          + total (dropped (srvlog_matches ascii) link_down) one_client.subscribers)
broadcast_delivers_example =
    broadcast_delivers (srvlog_matches ascii) event_id as_text link_down (codes "link down")
      one_client
      (subscribe-IsWellFormed oslo_filter (codes "ip:10.0.0.1") no_clients new-IsWellFormed) refl

abbrev as_message : SrvlogEvent → Option Message
as_message e = some (record { id = e.id; payload = e.message })

abbrev fresh_client : Client SrvlogFilter
fresh_client = record {
  received = [];
  subscription = record {
    buffer = [];
    closed = false;
    filter = oslo_filter;
    client_key = codes "ip:10.0.0.1";
  };
  drops = 0;
}

abbrev two_events : List (Happening SrvlogEvent)
two_events = published link_down ∷ reads ∷ published link_down ∷ []

fresh_client-IsLive : IsLive fresh_client.subscription
fresh_client-IsLive = record { is_open = refl; fits = omega arith }

run_in_order_example : Ends (srvlog_matches ascii) as_message two_events fresh_client
run_in_order_example =
    run_in_order (srvlog_matches ascii) as_message two_events fresh_client fresh_client-IsLive

match_lower-Glob_example :
    (match_lower (codes "sw-oslo-1") (codes "sw-*-1") ≡ true)
    ↔ Glob (codes "sw-*-1") (codes "sw-oslo-1")
match_lower-Glob_example =
    match_lower-Glob (codes "sw-oslo-1") (codes "sw-*-1") (unfold contains_byte in refl)
