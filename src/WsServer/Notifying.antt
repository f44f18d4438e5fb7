-- ===== src/WsServer/Notifying.antt =====
-- What notifySubscribers sends.
use mpcq_json_rpc_relay.Prelude.{
  ◌≡◌, ◌≢◌, refl, Bool, true, false, Option, none, some, List, [], ◌∷◌, Text, text_eq, text_eq_iff,
  lookup, subst, ◌∙◌, All, All-mono, arith, Bool-cases, inl, inr,
}
use mpcq_json_rpc_relay.Prelude.Lru.{LruCache}
use mpcq_json_rpc_relay.WsServer.Subscriptions.{
  Subscriber, SubscriptionService, subscribers, is_new, notify_all, notify_subscribers,
}

-- The cache is not full: to set a key keeps the others.
abbrev pub Keeps : LruCache Bool → Type 0
Keeps L = (s : L.Store) (k j : Text) (v : Bool) → k ≢ j → L.find (L.set s k v) j ≡ L.find s j

module _ (is_new_heads : Text → Bool) (hash : Text → Text → Text) (L : LruCache Bool)
    (keeps : Keeps L) where
  open L use {Store, find, touch, set}

  set_stays :
      (s : Store) (k j : Text) → find s j ≡ some true → find (set (touch s k) k true) j ≡ some true
  set_stays s k j h = elim (Bool-cases (text_eq k j)) [
    | inl e ↦
        subst (λ x. find (set (touch s k) k true) x ≡ some true) ((text_eq_iff k j).0 e)
          (L.find-set_self (touch s k) k true)
    | inr e ↦
        let ne : k ≢ j = λ q. let r = (text_eq_iff k j).1 q in ground (arith, r, e) in
        ground (arith, keeps (touch s k) k j true ne, L.find-touch s k j, h)
  ]

  stays :
      (subs : List Subscriber) (s : Store) (content j : Text)
      → find s j ≡ some true
      → find (notify_all is_new_heads hash L s subs content).0 j ≡ some true
  unfolding notify_all
  stays [] s content j h = h
  stays (x ∷ xs) s content j h =
      let k = hash content x.subscription_id in
      let a = stays xs (touch s k) content j (ground (arith, L.find-touch s k j, h)) in
      let b = stays xs (set (touch s k) k true) content j (set_stays s k j h) in
      elim (Bool-cases (is_new (find s k))) [
        | inl e ↦ ground (arith, a, b, e)
        | inr e ↦ ground (arith, a, b, e)
      ]

  not_new : (v : Option Bool) → is_new v ≡ false → v ≡ some true
  not_new none h = ground arith
  not_new (some true) h = refl
  not_new (some false) h = ground arith

  abbrev AllKnown : Store → List Subscriber → Text → Type 0
  AllKnown s subs content = All (λ x. find s (hash content x.subscription_id) ≡ some true) subs

  -- Every subscriber's hash is known after the loop.
  known :
      (subs : List Subscriber) (s : Store) (content : Text)
      → AllKnown (notify_all is_new_heads hash L s subs content).0 subs content
  unfolding notify_all
  known [] s content = tt
  known (x ∷ xs) s content =
      let k = hash content x.subscription_id in
      elim (Bool-cases (is_new (find s k))) [
        | inl e ↦
            let h =
              stays xs (set (touch s k) k true) content k (L.find-set_self (touch s k) k true) in
            let w = (notify_all is_new_heads hash L (set (touch s k) k true) xs content).0 in
            let same : w ≡ (notify_all is_new_heads hash L s (x ∷ xs) content).0 =
              ground (arith, e) in
            subst (λ c. AllKnown c (x ∷ xs) content) same
              (h, known xs (set (touch s k) k true) content)
        | inr e ↦
            let h = stays xs (touch s k) content k (L.find-touch s k k ∙ not_new (find s k) e) in
            let w = (notify_all is_new_heads hash L (touch s k) xs content).0 in
            let same : w ≡ (notify_all is_new_heads hash L s (x ∷ xs) content).0 =
              ground (arith, e) in
            subst (λ c. AllKnown c (x ∷ xs) content) same (h, known xs (touch s k) content)
      ]

  silent :
      (subs : List Subscriber) (s : Store) (content : Text)
      → AllKnown s subs content
      → (notify_all is_new_heads hash L s subs content).1 ≡ []
  unfolding notify_all
  silent [] s content h = refl
  silent (x ∷ xs) s content (h, hs) =
      let k = hash content x.subscription_id in
      let rest = silent xs (touch s k) content (
        All-mono (λ y. find s (hash content y.subscription_id) ≡ some true)
          (λ y. find (touch s k) (hash content y.subscription_id) ≡ some true)
          (λ y q. L.find-touch s k (hash content y.subscription_id) ∙ q) xs hs) in
      ground (arith, h, rest)

  -- While the cache keeps its entries, data that were sent for a tag are not sent again: a second
  -- notification of the same data sends nothing.
  pub notify_subscribers-again :
      (s : SubscriptionService is_new_heads hash L) (tag content : Text)
      → let s' = (notify_subscribers is_new_heads hash L s tag content).0 in
        (notify_subscribers is_new_heads hash L s' tag content).1 ≡ []
  unfolding notify_subscribers
  notify_subscribers-again s tag content =
      let subs = subscribers is_new_heads hash L (lookup tag s.subscriptions) in
      silent subs (notify_all is_new_heads hash L s.cache subs content).0 content
        (known subs s.cache content)
