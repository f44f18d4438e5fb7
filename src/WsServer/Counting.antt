-- ===== src/WsServer/Counting.antt =====
-- The counters of the connection limiter count the open sockets, in every state that the server
-- reaches.
use mpcq_json_rpc_relay.Prelude.{
  ℕ, zero, suc, ◌+◌, ◌≡◌, ◌<◌, ◌≤◌, refl, sym, subst, Bool, true, Option, none, some, List, [], ◌∷◌,
  ◌++◌, Text, text_eq, text_eq_iff, text_eq_refl, lookup, insert, lookup-insert, lookup-remove,
  if◌then◌else◌, arith, ltb, count_if, All, All-middle, Bool-cases, inl, inr, ◌↔◌,
}
use mpcq_json_rpc_relay.Prelude.Int.{pos, ◌+ℤ◌, ◌-ℤ◌}
use mpcq_json_rpc_relay.WsServer.Limiter.{
  Counter, count, Limits, ConnectionLimiter, Socket, connection_ip_limit_exceeded, init,
  incremented, increment_counters, decremented, decrement_ip, decrement_counters, exceeds,
  apply_limits, Server, connect, Step, connected, closed, Reach, started, next,
}

-- The number of open sockets of an address.
abbrev pub sockets_of : Text → List Socket → ℕ
sockets_of ip ws = count_if (λ w. text_eq w.ip ip) ws

-- The counter that an address must have: none when it has no socket.
abbrev pub expected : ℕ → Option Counter
expected zero = none
expected (suc n) = some (count (pos (suc n)))

-- Every address has the counter that it must have, and every socket was counted.
pub record IsCounted (s : Server) : Type 0 where
  pub counters : (ip : Text) → lookup ip s.limiter.client_ips ≡ expected (sockets_of ip s.sockets)
  pub counted : All (λ w. w.ip_counted ≡ true) s.sockets

incremented_lem : (n : ℕ) → some (incremented (expected n)) ≡ expected (suc n)
unfolding incremented ◌+ℤ◌
incremented_lem zero = refl
incremented_lem (suc n) = ground arith

decrement_ip_lem :
    (m : List (Text × Counter)) (ip : Text) (n : ℕ)
    → lookup ip m ≡ expected (suc n)
    → (j : Text) → lookup j (decrement_ip m ip) ≡ (if text_eq ip j then expected n else lookup j m)
unfolding decrement_ip decremented ◌-ℤ◌
decrement_ip_lem m ip zero h j = ground (
  arith,
  h,
  lookup-remove ip j (insert ip (count (pos 0)) m),
  lookup-insert ip j (count (pos 0)) m,
)
decrement_ip_lem m ip (suc n) h j = ground (arith, h, lookup-insert ip j (count (pos (suc n))) m)

count_if-middle :
    (f : Socket → Bool) (xs : List Socket) (w : Socket) (ys : List Socket)
    → count_if f (xs ++ w ∷ ys) ≡ (if f w then 1 else 0) + count_if f (xs ++ ys)
count_if-middle f [] w ys = refl
count_if-middle f (x ∷ xs) w ys = omega (arith, count_if-middle f xs w ys)

connect-IsCounted :
    (o : Limits) (s : Server) (ip : Text) (connections : ℕ)
    → IsCounted s
    → IsCounted (connect o s ip connections).0
unfolding connect increment_counters
connect-IsCounted o s ip connections c = record {
  counters = λ j.
      let at =
        lookup-insert ip j (incremented (lookup ip s.limiter.client_ips)) s.limiter.client_ips in
      elim (Bool-cases (text_eq ip j)) [
        | inl e ↦
            let same = (text_eq_iff ip j).0 e in
            let i = incremented_lem (sockets_of j s.sockets) in
            let here =
              subst (λ x. lookup x s.limiter.client_ips ≡ expected (sockets_of j s.sockets))
                (sym same) (c.counters j) in
            ground (arith, at, e, i, here)
        | inr e ↦ ground (arith, at, e, c.counters j)
      ];
  counted = (refl, c.counted);
}

closed-IsCounted :
    (l : ConnectionLimiter) (xs : List Socket) (w : Socket) (ys : List Socket)
    → IsCounted (record { limiter = l; sockets = xs ++ w ∷ ys })
    → IsCounted (record { limiter = decrement_counters l w; sockets = xs ++ ys })
unfolding decrement_counters
closed-IsCounted l xs w ys c =
    let (one, rest) = All-middle (λ v. v.ip_counted ≡ true) xs w ys c.counted in
    let n = sockets_of w.ip (xs ++ ys) in
    let has_one : lookup w.ip l.client_ips ≡ expected (suc n) =
      let m = count_if-middle (λ v. text_eq v.ip w.ip) xs w ys in
      ground (arith, c.counters w.ip, m, text_eq_refl w.ip) in
    record {
      counters = λ j.
          let at = decrement_ip_lem l.client_ips w.ip n has_one j in
          let m = count_if-middle (λ v. text_eq v.ip j) xs w ys in
          elim (Bool-cases (text_eq w.ip j)) [
            | inl e ↦
                let same = (text_eq_iff w.ip j).0 e in
                let there =
                  subst (λ x. expected n ≡ expected (sockets_of x (xs ++ ys))) same refl in
                ground (arith, one, at, e, there)
            | inr e ↦ ground (arith, one, at, e, m, c.counters j)
          ];
      counted = rest;
    }

-- A server that has started has no sockets and no counters.
started-IsCounted : IsCounted (record { limiter = init; sockets = [] })
unfolding init lookup
started-IsCounted = record { counters = λ ip. refl; counted = tt }

-- A new connection and the closing of any open socket keep the counters of all addresses equal to
-- their numbers of open sockets, an address without sockets having no counter.
pub Step-IsCounted : (o : Limits) (s t : Server) → Step o s t → IsCounted s → IsCounted t
Step-IsCounted o s t (connected ip connections) c = connect-IsCounted o s ip connections c
Step-IsCounted o s t (closed {l} xs w ys) c = closed-IsCounted l xs w ys c

-- In every state that a server reaches, the counter of each address is the number of its open
-- sockets, and an address without sockets has no counter.
pub Reach-IsCounted : (o : Limits) (s : Server) → Reach o s → IsCounted s
Reach-IsCounted o s started = started-IsCounted
Reach-IsCounted o s (next {s = u} r step) = Step-IsCounted o u s step (Reach-IsCounted o u r)

exceeds_lem : (n limit : ℕ) → exceeds (expected (suc n)) limit ≡ ltb limit (suc n)
unfolding exceeds
exceeds_lem n limit = ground arith

-- In a state that a server reaches, when the server's connections do not exceed the total limit, a
-- new connection is refused for its address exactly when the sockets of the address, the new one
-- included, are more than the limit for one address.
pub connect-refused :
    (o : Limits) (s : Server) (ip : Text) (connections : ℕ)
    → Reach o s
    → connections ≤ o.connection_limit
    → ((connect o s ip connections).1 ≡ connection_ip_limit_exceeded)
      ↔ (o.connection_limit_per_ip < suc (sockets_of ip s.sockets))
unfolding connect increment_counters apply_limits
connect-refused o s ip connections r h =
    let c = Reach-IsCounted o s r in
    let at =
      lookup-insert ip ip (incremented (lookup ip s.limiter.client_ips)) s.limiter.client_ips in
    let i = incremented_lem (sockets_of ip s.sockets) in
    let e = exceeds_lem (sockets_of ip s.sockets) o.connection_limit_per_ip in
    (
      λ q. ground (arith, at, text_eq_refl ip, i, e, c.counters ip, q),
      λ q. ground (arith, at, text_eq_refl ip, i, e, c.counters ip, q),
    )
