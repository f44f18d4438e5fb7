-- ===== src/WsServer/Examples.antt =====
-- A server with two connections, and the theorems at it.
use mpcq_json_rpc_relay.Prelude.{
  ◌+◌, ◌≡◌, ◌≢◌, refl, Bool, true, false, List, [], ◌∷◌, ◌++◌, Text, codes, text_eq, lookup, insert,
  arith, text_eq_iff, lookup-insert,
}
use mpcq_json_rpc_relay.Prelude.Int.{pos}
use mpcq_json_rpc_relay.Prelude.Lru.{LruCache, unbounded}
use mpcq_json_rpc_relay.WsServer.Poller
use mpcq_json_rpc_relay.WsServer.Poller.{PollerService, start, is_polling, has_poll, push_poll}
use mpcq_json_rpc_relay.WsServer.Polling
use mpcq_json_rpc_relay.WsServer.Polling.{polls_for, add-IsConsistent, remove-IsConsistent}
use mpcq_json_rpc_relay.WsServer.Subscriptions
use mpcq_json_rpc_relay.WsServer.Subscriptions.{
  SubscriptionService, Message, subscribers, existing_sub, create, subscribe, matches, unsubscribe,
  notify_subscribers,
}
use mpcq_json_rpc_relay.WsServer.Subscribing
use mpcq_json_rpc_relay.WsServer.Subscribing.{left, total, unsubscribe_lem}
use mpcq_json_rpc_relay.WsServer.Joining.{has_subscription, subscribe_lem}
use mpcq_json_rpc_relay.WsServer.Limiter
use mpcq_json_rpc_relay.WsServer.Limiter.{
  Limits, Socket, Server, connect, Reach, started, next, connected, connection_ip_limit_exceeded,
  validate_subscription_limit,
}
use mpcq_json_rpc_relay.WsServer.Counting.{IsCounted, Reach-IsCounted}
use mpcq_json_rpc_relay.WsServer.Totals.{subscriptions_of}
use mpcq_json_rpc_relay.WsServer.Handlers.{
  subscribed, handle_eth_subscribe, handle_eth_subscribe-overcounts,
}

-- A tag of one letter; `h` is the tag of newHeads.
abbrev is_h : Text → Bool
is_h tag = text_eq tag (codes "h")

abbrev join : Text → Text → Text
join content sub_id = content ++ b'/' ∷ sub_id

abbrev cache : LruCache Bool
cache = unbounded Bool

abbrev limits : Limits
limits = record { connection_limit = 10; connection_limit_per_ip = 1; subscription_limit = 10 }

polls : PollerService
unfolding Poller.add
polls = Poller.add is_h Poller.init (codes "h")

polls-IsConsistent : Polling.IsConsistent is_h polls
unfolding polls
polls-IsConsistent =
    (add-IsConsistent is_h Poller.init (codes "h") (Polling.init-IsConsistent is_h)).0

-- One connection has subscribed to the new heads.
service : SubscriptionService is_h join cache
unfolding subscribe
service =
    (subscribe is_h join cache true (Subscriptions.init is_h join cache) (codes "a") (codes "h")
      (codes "1")).0

service-IsConsistent : Subscribing.IsConsistent is_h join cache service
unfolding service
service-IsConsistent =
    (subscribe_lem is_h join cache true (Subscriptions.init is_h join cache) (codes "a") (codes "h")
      (codes "1") (Subscribing.init-IsConsistent is_h join cache)).0

subscribe_lem_example :
    let s' = (subscribe is_h join cache true service (codes "b") (codes "l") (codes "2")).0 in
    let sub_id = (subscribe is_h join cache true service (codes "b") (codes "l") (codes "2")).1 in
    Subscribing.IsConsistent is_h join cache s'
    × (has_subscription is_h join cache
          (codes "b")
          sub_id
          (subscribers is_h join cache (lookup (codes "l") s'.subscriptions))
        ≡ true)
    × ((t : Text)
        → text_eq (codes "l") t ≡ false
        → lookup t s'.subscriptions ≡ lookup t service.subscriptions)
subscribe_lem_example =
    subscribe_lem is_h join cache true service (codes "b") (codes "l") (codes "2")
      service-IsConsistent

unsubscribe_lem_example :
    Subscribing.IsConsistent is_h join cache (unsubscribe is_h join cache service (codes "a") []).0
    × ((t : Text)
        → lookup t (unsubscribe is_h join cache service (codes "a") []).0.subscriptions
          ≡ left (matches is_h join cache (codes "a") []) (lookup t service.subscriptions))
    × ((unsubscribe is_h join cache service (codes "a") []).1
        ≡ total is_h join cache (matches is_h join cache (codes "a") []) service.subscriptions)
unsubscribe_lem_example =
    unsubscribe_lem is_h join cache service (codes "a") [] service-IsConsistent

cache-keeps :
    (s : List (Text × Bool)) (k j : Text) (v : Bool) → k ≢ j → lookup j (insert k v s) ≡ lookup j s
cache-keeps s k j v ne = ground (arith, lookup-insert k j v s, text_eq_iff k j)

-- Its socket.
abbrev socket : Socket
socket = record { ip = codes "i"; ip_counted = true; subscriptions = pos 1 }

counted_once : pos 1 ≡ pos (subscriptions_of is_h join cache (codes "a") service)
unfolding service subscribe Subscriptions.init existing_sub create matches lookup insert text_eq
counted_once = refl

handle_eth_subscribe-overcounts_example :
    let r =
      handle_eth_subscribe is_h join cache limits true service socket
        (codes "a")
        (codes "h")
        (codes "2") in
    (r.0 ≡ service)
    × (r.2 ≡ subscribed (codes "1"))
    × (r.1.subscriptions ≡ pos (subscriptions_of is_h join cache (codes "a") r.0 + 1))
unfolding service subscribe Subscriptions.init existing_sub create lookup insert text_eq
    validate_subscription_limit
handle_eth_subscribe-overcounts_example =
    handle_eth_subscribe-overcounts is_h join cache limits service socket (codes "a") (codes "h")
      (codes "2") (codes "1") refl refl counted_once

abbrev server : Server
server = record { limiter = Limiter.init; sockets = [] }

reached : Reach limits (connect limits server (codes "i") 1).0
reached = next started (connected (codes "i") 1)

Reach-IsCounted_example : IsCounted (connect limits server (codes "i") 1).0
Reach-IsCounted_example = Reach-IsCounted limits (connect limits server (codes "i") 1).0 reached
