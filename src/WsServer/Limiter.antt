-- ===== src/WsServer/Limiter.antt =====
-- ConnectionLimiter (packages/ws-server/src/metrics/connectionLimiter.ts), and the connections that
-- koa-websocket opens and closes (webSocketServer.ts, utils.ts). Metrics other than the gauge of the
-- connections, messages and logs are not modelled.
use mpcq_json_rpc_relay.Prelude.{
  ℕ, zero, Bool, true, false, Option, none, some, List, [], ◌∷◌, ◌++◌, Text, lookup, insert, remove,
  if◌then◌else◌, ◌==◌, ◌&&◌, not,
}
use mpcq_json_rpc_relay.Prelude.Int.{ℤ, pos, ◌+ℤ◌, ◌-ℤ◌, ltb_ℤ}

-- A counter: a number, or `NaN`.
pub data Counter : Type 0 where
  nan : Counter
  count : ℤ → Counter

-- The options WS_CONNECTION_LIMIT, WS_CONNECTION_LIMIT_PER_IP and WS_SUBSCRIPTION_LIMIT.
pub record Limits : Type 0 where
  pub connection_limit : ℕ
  pub connection_limit_per_ip : ℕ
  pub subscription_limit : ℕ

pub record ConnectionLimiter : Type 0 where
  pub connected_clients : ℤ
  pub client_ips : List (Text × Counter)
  pub active_connections_gauge : ℤ

-- What the limiter keeps on a socket.
pub record Socket : Type 0 where
  pub ip : Text
  pub ip_counted : Bool
  pub subscriptions : ℤ

-- What `applyLimits` does with a socket.
pub data Outcome : Type 0 where
  connection_limit_exceeded connection_ip_limit_exceeded inactivity_timer_started : Outcome

unfoldable pub init : ConnectionLimiter
init = record { connected_clients = pos 0; client_ips = []; active_connections_gauge = pos 0 }

-- The counter after `this.clientIps[ip] = 1` or `this.clientIps[ip]++`.
unfoldable pub incremented : Option Counter → Counter
unfolding ◌+ℤ◌
incremented none = count (pos 1)
incremented (some nan) = count (pos 1)
incremented (some (count (pos zero))) = count (pos 1)
incremented (some (count n)) = count (n +ℤ pos 1)

-- `connections` is `ctx.app.server._connections`.
unfoldable pub increment_counters : ConnectionLimiter → Socket → ℕ → ConnectionLimiter × Socket
unfolding incremented
increment_counters s socket connections = (
  record {
    connected_clients = pos connections;
    client_ips = insert socket.ip (incremented (lookup socket.ip s.client_ips)) s.client_ips;
    active_connections_gauge = pos connections;
  },
  record socket { ip_counted = true; subscriptions = pos 0 },
)

-- The counter after `this.clientIps[ip]--`.
unfoldable pub decremented : Option Counter → Counter
unfolding ◌-ℤ◌
decremented (some (count n)) = count (n -ℤ pos 1)
decremented v = nan

-- `n === 0`.
abbrev pub is_zero : Counter → Bool
is_zero (count (pos n)) = n == 0
is_zero v = false

-- The part of `decrementCounters` under `if (ctx.websocket.ipCounted)`.
unfoldable pub decrement_ip : List (Text × Counter) → Text → List (Text × Counter)
unfolding decremented
decrement_ip m ip =
    let n = decremented (lookup ip m) in
    let m' = insert ip n m in if is_zero n then remove ip m' else m'

unfoldable pub decrement_counters : ConnectionLimiter → Socket → ConnectionLimiter
unfolding decrement_ip ◌-ℤ◌
decrement_counters s socket =
    let ips = if socket.ip_counted then decrement_ip s.client_ips socket.ip else s.client_ips in
    record {
      connected_clients = s.connected_clients -ℤ pos 1;
      client_ips = ips;
      active_connections_gauge = s.connected_clients -ℤ pos 1;
    }

-- `this.clientIps[ip] && this.clientIps[ip] > MAX_CONNECTION_LIMIT_PER_IP`.
unfoldable pub exceeds : Option Counter → ℕ → Bool
exceeds (some (count n)) limit = not (is_zero (count n)) && ltb_ℤ (pos limit) n
exceeds v limit = false

unfoldable pub apply_limits : Limits → ConnectionLimiter → Socket → Outcome
unfolding exceeds
apply_limits o s socket =
    if ltb_ℤ (pos o.connection_limit) s.connected_clients
    then connection_limit_exceeded
    else (if exceeds (lookup socket.ip s.client_ips) o.connection_limit_per_ip
        then connection_ip_limit_exceeded
        else inactivity_timer_started)

unfoldable pub increment_subs : Socket → Socket
unfolding ◌+ℤ◌
increment_subs socket = record socket { subscriptions = socket.subscriptions +ℤ pos 1 }

unfoldable pub decrement_subs : Socket → ℕ → Socket
unfolding ◌-ℤ◌
decrement_subs socket amount = record socket { subscriptions = socket.subscriptions -ℤ pos amount }

unfoldable pub validate_subscription_limit : Limits → Socket → Bool
validate_subscription_limit o socket = ltb_ℤ socket.subscriptions (pos o.subscription_limit)

-- The server: the limiter and the sockets that are open.
pub record Server : Type 0 where
  pub limiter : ConnectionLimiter
  pub sockets : List Socket

-- The handler of a new connection: it counts, then applies the limits.
unfoldable pub connect : Limits → Server → Text → ℕ → Server × Outcome
unfolding increment_counters apply_limits
connect o s ip connections =
    let (limiter, socket) =
      increment_counters s.limiter (record { ip = ip; ip_counted = false; subscriptions = pos 0 })
        connections in
    (record { limiter = limiter; sockets = socket ∷ s.sockets }, apply_limits o limiter socket)

-- The steps of a server: a socket that closes may be any that is open. The outcome of the limits does
-- not matter for the counters: a socket that is refused is closed later like any other.
pub data Step (o : Limits) : Server → Server → Type 0 where
  connected : {s : Server} (ip : Text) (connections : ℕ) → Step o s (connect o s ip connections).0
  closed :
      {l : ConnectionLimiter} (xs : List Socket) (w : Socket) (ys : List Socket)
      → Step o
          (record { limiter = l; sockets = xs ++ w ∷ ys })
          (record { limiter = decrement_counters l w; sockets = xs ++ ys })

pub data Reach (o : Limits) : Server → Type 0 where
  started : Reach o (record { limiter = init; sockets = [] })
  next : {s t : Server} → Reach o s → Step o s t → Reach o t
