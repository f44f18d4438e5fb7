-- ===== src/WsServer/Joining.antt =====
-- What `subscribe` of SubscriptionService does: the connection has the subscription whose id is
-- returned, new or not.
use mpcq_json_rpc_relay.Prelude.{
  ◌≡◌, ◌≢◌, refl, ap, Bool, true, false, Option, none, some, List, [], ◌∷◌, ◌++◌, Text, text_eq,
  text_eq_refl, lookup, insert, lookup-insert, lookup-insert_self, insert-insert, insert_same,
  if◌then◌else◌, arith, ◌&&◌, ◌||◌, Bool-cases, Option-cases, inl, inr,
}
use mpcq_json_rpc_relay.Prelude.Lru.{LruCache}
use mpcq_json_rpc_relay.WsServer.Poller
use mpcq_json_rpc_relay.WsServer.Poller.{Poll, PollerService}
use mpcq_json_rpc_relay.WsServer.Polling.{add-IsConsistent}
use mpcq_json_rpc_relay.WsServer.Subscriptions.{
  Subscriber, SubscriptionService, subscribers, existing_sub, create, subscribe,
}
use mpcq_json_rpc_relay.WsServer.Subscribing.{IsConsistent, insert-HasDistinctTags}

module _ (is_new_heads : Text → Bool) (hash : Text → Text → Text) (L : LruCache Bool) where
  -- Whether a connection has a subscription of this id.
  abbrev pub has_subscription : Text → Text → List Subscriber → Bool
  has_subscription id sub_id [] = false
  has_subscription id sub_id (x ∷ xs) =
      (text_eq x.connection_id id && text_eq x.subscription_id sub_id)
      || has_subscription id sub_id xs

  existing_sub-has :
      (subs : List Subscriber) (id sub_id : Text)
      → existing_sub is_new_heads hash L subs id ≡ some sub_id
      → has_subscription id sub_id subs ≡ true
  unfolding existing_sub
  existing_sub-has [] id sub_id h = ground arith
  existing_sub-has (x ∷ xs) id sub_id h =
      ground (arith, existing_sub-has xs id sub_id, text_eq_refl sub_id, h)

  has-append :
      (subs : List Subscriber) (id new_id : Text)
      → has_subscription id new_id
          (subs ++ record { connection_id = id; subscription_id = new_id } ∷ [])
        ≡ true
  has-append [] id new_id = ground (arith, text_eq_refl id, text_eq_refl new_id)
  has-append (x ∷ xs) id new_id = ground (arith, has-append xs id new_id)

  not_nil : (subs : List Subscriber) (x : Subscriber) → some (subs ++ x ∷ []) ≢ some []
  not_nil [] x h = ground arith
  not_nil (y ∷ ys) x h = ground arith

  pub create_lem :
      (s : SubscriptionService is_new_heads hash L) (id tag new_id : Text)
      → IsConsistent is_new_heads hash L s
      → let subs = subscribers is_new_heads hash L (lookup tag s.subscriptions) in
        let all = subs ++ record { connection_id = id; subscription_id = new_id } ∷ [] in
        IsConsistent is_new_heads hash L (create is_new_heads hash L s id tag new_id)
        × ((t : Text)
            → lookup t (create is_new_heads hash L s id tag new_id).subscriptions
              ≡ (if text_eq tag t then some all else lookup t s.subscriptions))
  unfolding create
  create_lem s id tag new_id c =
      let subs = subscribers is_new_heads hash L (lookup tag s.subscriptions) in
      let all = subs ++ record { connection_id = id; subscription_id = new_id } ∷ [] in
      let (poller, polls) = add-IsConsistent is_new_heads s.poller_service tag c.poller in
      let at = λ (t : Text). lookup-insert tag t all s.subscriptions in
      (
        record {
          poller = poller;
          distinct = insert-HasDistinctTags tag all s.subscriptions c.distinct;
          subscribed = λ t h. elim (Bool-cases (text_eq tag t)) [
            | inl e ↦
                not_nil subs (record { connection_id = id; subscription_id = new_id })
                  (ground (arith, at t, e, h))
            | inr e ↦ c.subscribed t (ground (arith, at t, e, h))
          ];
          polled = λ t. ground (arith, at t, polls t, c.polled t);
        },
        at,
      )

  create_again :
      (s : SubscriptionService is_new_heads hash L) (id tag new_id : Text)
      → let subs = subscribers is_new_heads hash L (lookup tag s.subscriptions) in
        create is_new_heads hash L
          (record s { subscriptions = insert tag subs s.subscriptions })
          id
          tag
          new_id
        ≡ create is_new_heads hash L s id tag new_id
  unfolding create
  create_again s id tag new_id =
      let subs = subscribers is_new_heads hash L (lookup tag s.subscriptions) in
      let at = lookup-insert_self tag subs s.subscriptions in
      rw at (
        ap
          (λ m. record s {
            subscriptions = m;
            poller_service = Poller.add is_new_heads s.poller_service tag;
          })
          (insert-insert tag (subs ++ record { connection_id = id; subscription_id = new_id } ∷ [])
            subs s.subscriptions))

  pub entry_there :
      (v : Option (List Subscriber)) (id sub_id : Text)
      → existing_sub is_new_heads hash L (subscribers is_new_heads hash L v) id ≡ some sub_id
      → v ≡ some (subscribers is_new_heads hash L v)
  unfolding existing_sub
  entry_there none id sub_id h = ground arith
  entry_there (some subs) id sub_id h = refl

  pub subscribe-new :
      (same_sub : Bool) (s : SubscriptionService is_new_heads hash L) (id tag new_id : Text)
      → (if same_sub
          then existing_sub is_new_heads hash L
              (subscribers is_new_heads hash L (lookup tag s.subscriptions))
              id
          else none)
        ≡ none
      → subscribe is_new_heads hash L same_sub s id tag new_id
        ≡ (create is_new_heads hash L s id tag new_id, new_id)
  unfolding subscribe
  subscribe-new same_sub s id tag new_id h =
      let again = create_again s id tag new_id in ground (arith, h, again)

  pub subscribe-existing :
      (same_sub : Bool) (s : SubscriptionService is_new_heads hash L) (id tag new_id sub_id : Text)
      → (if same_sub
          then existing_sub is_new_heads hash L
              (subscribers is_new_heads hash L (lookup tag s.subscriptions))
              id
          else none)
        ≡ some sub_id
      → insert tag (subscribers is_new_heads hash L (lookup tag s.subscriptions)) s.subscriptions
        ≡ s.subscriptions
      → subscribe is_new_heads hash L same_sub s id tag new_id ≡ (s, sub_id)
  unfolding subscribe
  subscribe-existing same_sub s id tag new_id sub_id h same = ground (arith, h, same)

  -- To subscribe keeps the service consistent, and afterwards the connection has a subscription of the
  -- returned id under the tag; the entries of all other tags stay as they are.
  pub subscribe_lem :
      (same_sub : Bool) (s : SubscriptionService is_new_heads hash L) (id tag new_id : Text)
      → IsConsistent is_new_heads hash L s
      → let s' = (subscribe is_new_heads hash L same_sub s id tag new_id).0 in
        let sub_id = (subscribe is_new_heads hash L same_sub s id tag new_id).1 in
        IsConsistent is_new_heads hash L s'
        × (has_subscription id sub_id
              (subscribers is_new_heads hash L (lookup tag s'.subscriptions))
            ≡ true)
        × ((t : Text)
            → text_eq tag t ≡ false
            → lookup t s'.subscriptions ≡ lookup t s.subscriptions)
  subscribe_lem same_sub s id tag new_id c =
      let subs = subscribers is_new_heads hash L (lookup tag s.subscriptions) in
      elim (Option-cases (if same_sub then existing_sub is_new_heads hash L subs id else none)) [
        | inl none_there ↦
            let (c', at) = create_lem s id tag new_id c in
            rw (subscribe-new same_sub s id tag new_id none_there) (
              c',
              ground (arith, at tag, text_eq_refl tag, has-append subs id new_id),
              λ t ne. ground (arith, at t, ne),
            )
        | inr (sub_id, there) ↦
            let found : existing_sub is_new_heads hash L subs id ≡ some sub_id =
              ground (arith, there) in
            let same =
              insert_same tag subs s.subscriptions
                (entry_there (lookup tag s.subscriptions) id sub_id found) in
            rw (subscribe-existing same_sub s id tag new_id sub_id there same)
              (c, existing_sub-has subs id sub_id found, λ t ne. refl)
      ]
