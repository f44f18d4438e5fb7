-- ===== src/WsServer/Handlers.antt =====
-- The counter of subscriptions that the limiter keeps on a socket, as the handlers of eth_subscribe
-- and eth_unsubscribe (subscribeController.ts, unsubscribeController.ts, jsonRpcController.ts) move
-- it. The parameters of a request are validated before and are not modelled.
use mpcq_json_rpc_relay.Prelude.{
  ℕ, ◌+◌, ◌≡◌, refl, ap, Bool, true, false, some, Text, not, lookup, insert_same, if◌then◌else◌,
  arith, Bool-cases, inl, inr, ◌==◌,
}
use mpcq_json_rpc_relay.Prelude.Int.{pos, ◌+ℤ◌, ◌-ℤ◌}
use mpcq_json_rpc_relay.Prelude.Lru.{LruCache}
use mpcq_json_rpc_relay.WsServer.Limiter.{
  Limits, Socket, increment_subs, decrement_subs, validate_subscription_limit,
}
use mpcq_json_rpc_relay.WsServer.Subscriptions.{
  SubscriptionService, subscribers, existing_sub, create, subscribe, matches, unsubscribe_all,
  unsubscribe,
}
use mpcq_json_rpc_relay.WsServer.Subscribing.{
  IsConsistent, total, unsubscribe_lem, unsubscribe_all-count,
}
use mpcq_json_rpc_relay.WsServer.Joining.{
  subscribe-new, subscribe-existing, create_lem, entry_there,
}
use mpcq_json_rpc_relay.WsServer.Totals.{subscriptions_of, unsubscribe_all-total, create-total}

-- The answer of a handler.
pub data Answer : Type 0 where
  subscribed : Text → Answer
  unsubscribed : Bool → Answer
  max_subscriptions : Answer

module _ (is_new_heads : Text → Bool) (hash : Text → Text → Text) (L : LruCache Bool) where
  -- eth_subscribe of the connection `id`.
  unfoldable pub handle_eth_subscribe :
      Limits
      → Bool
      → SubscriptionService is_new_heads hash L
      → Socket
      → (id tag new_id : Text) → SubscriptionService is_new_heads hash L × Socket × Answer
  unfolding subscribe validate_subscription_limit increment_subs
  handle_eth_subscribe o same_sub s socket id tag new_id =
      if validate_subscription_limit o socket
      then (let (s', sub_id) = subscribe is_new_heads hash L same_sub s id tag new_id in
          (s', increment_subs socket, subscribed sub_id))
      else (s, socket, max_subscriptions)

  -- eth_unsubscribe of the connection `id`.
  unfoldable pub handle_eth_unsubscribe :
      SubscriptionService is_new_heads hash L
      → Socket
      → (id sub_id : Text) → SubscriptionService is_new_heads hash L × Socket × Answer
  unfolding unsubscribe decrement_subs
  handle_eth_unsubscribe s socket id sub_id =
      let (s', unsubbed_count) = unsubscribe is_new_heads hash L s id sub_id in
      (s', decrement_subs socket unsubbed_count, unsubscribed (not (unsubbed_count == 0)))

  one_more : (n : ℕ) → pos n +ℤ pos 1 ≡ pos (n + 1)
  unfolding ◌+ℤ◌
  one_more n = ground arith

  less : (n m k : ℕ) → k + m ≡ n → pos n -ℤ pos m ≡ pos k
  unfolding ◌-ℤ◌
  less n m k h = ground arith

  handle_eth_subscribe-new :
      (o : Limits) (s : SubscriptionService is_new_heads hash L) (socket : Socket)
      (id tag new_id : Text)
      → validate_subscription_limit o socket ≡ true
      → handle_eth_subscribe o false s socket id tag new_id
        ≡ (create is_new_heads hash L s id tag new_id, increment_subs socket, subscribed new_id)
  unfolding handle_eth_subscribe
  handle_eth_subscribe-new o s socket id tag new_id allowed =
      let made = subscribe-new is_new_heads hash L false s id tag new_id refl in
      rw allowed (ap (λ r. (r.0, increment_subs socket, subscribed r.1)) made)

  handle_eth_subscribe-refused :
      (o : Limits) (s : SubscriptionService is_new_heads hash L) (socket : Socket)
      (id tag new_id : Text)
      → validate_subscription_limit o socket ≡ false
      → handle_eth_subscribe o false s socket id tag new_id ≡ (s, socket, max_subscriptions)
  unfolding handle_eth_subscribe
  handle_eth_subscribe-refused o s socket id tag new_id refused = rw refused refl

  -- Without WS_SAME_SUB_FOR_SAME_EVENT, a socket's counter that is the number of subscriptions of its
  -- connection stays that number when the connection subscribes, whether the limit allows it or not.
  pub handle_eth_subscribe-counter :
      (o : Limits) (s : SubscriptionService is_new_heads hash L) (socket : Socket)
      (id tag new_id : Text)
      → IsConsistent is_new_heads hash L s
      → socket.subscriptions ≡ pos (subscriptions_of is_new_heads hash L id s)
      → let r = handle_eth_subscribe o false s socket id tag new_id in
        IsConsistent is_new_heads hash L r.0
        × (r.1.subscriptions ≡ pos (subscriptions_of is_new_heads hash L id r.0))
  unfolding increment_subs
  handle_eth_subscribe-counter o s socket id tag new_id c h =
      let (c₁, _) = create_lem is_new_heads hash L s id tag new_id c in
      let n = create-total is_new_heads hash L s id tag new_id in
      let m = one_more (subscriptions_of is_new_heads hash L id s) in
      elim (Bool-cases (validate_subscription_limit o socket)) [
        | inl e ↦
            rw (handle_eth_subscribe-new o s socket id tag new_id e) (c₁, ground (arith, h, n, m))
        | inr e ↦ rw (handle_eth_subscribe-refused o s socket id tag new_id e) (c, h)
      ]

  -- A socket's counter that is the number of subscriptions of its connection stays that number when
  -- the connection cancels one of them or all, and the answer says whether there was one to cancel.
  pub handle_eth_unsubscribe-counter :
      (s : SubscriptionService is_new_heads hash L) (socket : Socket) (id sub_id : Text)
      → IsConsistent is_new_heads hash L s
      → socket.subscriptions ≡ pos (subscriptions_of is_new_heads hash L id s)
      → let r = handle_eth_unsubscribe s socket id sub_id in
        IsConsistent is_new_heads hash L r.0
        × (r.1.subscriptions ≡ pos (subscriptions_of is_new_heads hash L id r.0))
        × (r.2
            ≡ unsubscribed (
                not (
                  total is_new_heads hash L (matches is_new_heads hash L id sub_id) s.subscriptions
                  == 0)))
  unfolding handle_eth_unsubscribe decrement_subs unsubscribe
  handle_eth_unsubscribe-counter s socket id sub_id c h =
      let (c₁, _, _) = unsubscribe_lem is_new_heads hash L s id sub_id c in
      let all =
        unsubscribe_all-total is_new_heads hash L s.subscriptions s id sub_id 0 c c.distinct
          (λ t x q. q) in
      let k = unsubscribe_all-count is_new_heads hash L s.subscriptions s id sub_id 0 in
      let m =
        less (subscriptions_of is_new_heads hash L id s)
          (total is_new_heads hash L (matches is_new_heads hash L id sub_id) s.subscriptions)
          (subscriptions_of is_new_heads hash L id
            (unsubscribe_all is_new_heads hash L s id sub_id s.subscriptions 0).0)
          all in
      (c₁, ground (arith, h, k, m), ground (arith, k))

  -- With WS_SAME_SUB_FOR_SAME_EVENT, a connection below its limit that subscribes again to an event
  -- is answered with the subscription that it has, and nothing changes but the socket's counter, which
  -- rises by one: it is then more than the number of subscriptions.
  pub handle_eth_subscribe-overcounts :
      (o : Limits) (s : SubscriptionService is_new_heads hash L) (socket : Socket)
      (id tag new_id sub_id : Text)
      → existing_sub is_new_heads hash L
          (subscribers is_new_heads hash L (lookup tag s.subscriptions))
          id
        ≡ some sub_id
      → validate_subscription_limit o socket ≡ true
      → socket.subscriptions ≡ pos (subscriptions_of is_new_heads hash L id s)
      → let r = handle_eth_subscribe o true s socket id tag new_id in
        (r.0 ≡ s)
        × (r.2 ≡ subscribed sub_id)
        × (r.1.subscriptions ≡ pos (subscriptions_of is_new_heads hash L id r.0 + 1))
  unfolding handle_eth_subscribe increment_subs
  handle_eth_subscribe-overcounts o s socket id tag new_id sub_id there allowed h =
      let same =
        insert_same tag _ s.subscriptions
          (entry_there is_new_heads hash L (lookup tag s.subscriptions) id sub_id there) in
      let e = subscribe-existing is_new_heads hash L true s id tag new_id sub_id there same in
      let m = one_more (subscriptions_of is_new_heads hash L id s) in
      rw (allowed, e) (refl, refl, ground (arith, h, m))
