-- ===== src/WsServer/Subscriptions.antt =====
-- SubscriptionService (packages/ws-server/src/service/subscriptionService.ts). A tag stands for
-- `JSON.stringify({ event, filters })`, and a hash for the SHA-256 of what is sent: both are computed
-- by code outside this file and are given. The timers of the histogram are not modelled.
use mpcq_json_rpc_relay.Prelude.{
  ℕ, ◌+◌, Bool, true, false, Option, none, some, List, [], ◌∷◌, ◌++◌, Text, text_eq, not, lookup,
  insert, remove, if◌then◌else◌, ◌&&◌, ◌||◌, keep_if, count_if, is_empty,
}
use mpcq_json_rpc_relay.Prelude.Lru.{LruCache}
use mpcq_json_rpc_relay.WsServer.Poller
use mpcq_json_rpc_relay.WsServer.Poller.{PollerService}

-- `Subscriber`, with the id of its connection.
pub record Subscriber : Type 0 where
  pub connection_id : Text
  pub subscription_id : Text

-- What is sent to a connection.
pub record Message : Type 0 where
  pub receiver : Text
  pub subscription : Text
  pub result : Text

-- `!this.cache.get(hash)`.
abbrev pub is_new : Option Bool → Bool
is_new (some true) = false
is_new v = true

module _ (is_new_heads : Text → Bool) (hash : Text → Text → Text) (L : LruCache Bool) where
  open L use {Store, empty, find, touch, set}

  pub record SubscriptionService : Type 0 where
    pub poller_service : PollerService
    pub subscriptions : List (Text × List Subscriber)
    pub cache : Store

  unfoldable pub init : SubscriptionService
  init = record { poller_service = Poller.init; subscriptions = []; cache = empty }

  abbrev pub subscribers : Option (List Subscriber) → List Subscriber
  subscribers none = []
  subscribers (some subs) = subs

  -- `find` with the id of the connection.
  unfoldable pub existing_sub : List Subscriber → Text → Option Text
  existing_sub [] id = none
  existing_sub (x ∷ xs) id =
      let rest = existing_sub xs id in
      if text_eq x.connection_id id then some x.subscription_id else rest

  -- The part of `subscribe` that makes a subscription.
  unfoldable pub create : SubscriptionService → Text → Text → Text → SubscriptionService
  unfolding Poller.add
  create s id tag new_id = record s {
    subscriptions =
        insert tag
          (subscribers (lookup tag s.subscriptions)
            ++ record { connection_id = id; subscription_id = new_id } ∷ [])
          s.subscriptions;
    poller_service = Poller.add is_new_heads s.poller_service tag;
  }

  -- `same_sub` is the option WS_SAME_SUB_FOR_SAME_EVENT, `new_id` what `generateId` returns.
  unfoldable pub subscribe :
      Bool → SubscriptionService → Text → Text → Text → SubscriptionService × Text
  unfolding create existing_sub
  subscribe same_sub s id tag new_id =
      let subs = subscribers (lookup tag s.subscriptions) in
      let s₁ = record s { subscriptions = insert tag subs s.subscriptions } in
      elim (if same_sub then existing_sub subs id else none) [
        | some sub_id ↦ (s₁, sub_id)
        | none ↦ (create s₁ id tag new_id, new_id)
      ]

  -- `match` in `unsubscribe`; an empty text stands for no subscription id.
  unfoldable pub matches : Text → Text → Subscriber → Bool
  matches id sub_id sub =
      text_eq sub.connection_id id && (is_empty sub_id || text_eq sub_id sub.subscription_id)

  -- The end of the body of the loop in `unsubscribe`, with the subscribers that are left.
  unfoldable pub keep_left : SubscriptionService → Text → List Subscriber → SubscriptionService
  unfolding Poller.remove
  keep_left s tag [] = record s {
    subscriptions = remove tag (insert tag [] s.subscriptions);
    poller_service = Poller.remove is_new_heads s.poller_service tag;
  }
  keep_left s tag (x ∷ xs) = record s { subscriptions = insert tag (x ∷ xs) s.subscriptions }

  -- The body of the loop in `unsubscribe`, for one entry.
  unfoldable pub unsubscribe_from :
      SubscriptionService → Text → Text → Text → List Subscriber → SubscriptionService
  unfolding matches keep_left
  unsubscribe_from s id sub_id tag subs =
      keep_left s tag (keep_if (λ sub. not (matches id sub_id sub)) subs)

  -- The loop over the entries that were there at its start, with the count so far.
  unfoldable pub unsubscribe_all :
      SubscriptionService
      → Text
      → Text
      → List (Text × List Subscriber)
      → ℕ
      → SubscriptionService × ℕ
  unfolding unsubscribe_from matches
  unsubscribe_all s id sub_id [] sub_count = (s, sub_count)
  unsubscribe_all s id sub_id ((tag, subs) ∷ entries) sub_count =
      unsubscribe_all (unsubscribe_from s id sub_id tag subs) id sub_id entries
        (sub_count + count_if (matches id sub_id) subs)

  unfoldable pub unsubscribe : SubscriptionService → Text → Text → SubscriptionService × ℕ
  unfolding unsubscribe_all
  unsubscribe s id sub_id = unsubscribe_all s id sub_id s.subscriptions 0

  -- The loop of `notifySubscribers`, with what is sent; each message also starts the inactivity timer
  -- of its receiver again.
  unfoldable pub notify_all : Store → List Subscriber → Text → Store × List Message
  notify_all cache [] content = (cache, [])
  notify_all cache (sub ∷ subs) content =
      let key = hash content sub.subscription_id in
      let seen = notify_all (touch cache key) subs content in
      let sent = notify_all (set (touch cache key) key true) subs content in
      if is_new (find cache key)
      then (
        sent.0,
        record {
          receiver = sub.connection_id;
          subscription = sub.subscription_id;
          result = content;
        }
            ∷ sent.1,
      )
      else seen

  unfoldable pub notify_subscribers :
      SubscriptionService → Text → Text → SubscriptionService × List Message
  unfolding notify_all
  notify_subscribers s tag content =
      let (cache, messages) =
        notify_all s.cache (subscribers (lookup tag s.subscriptions)) content in
      (record s { cache = cache }, messages)
