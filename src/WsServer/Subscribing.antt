-- ===== src/WsServer/Subscribing.antt =====
-- What the subscriptions keep true, together with the polls: a tag has an entry exactly when it is
-- polled, and an entry has a subscriber.
use mpcq_json_rpc_relay.Prelude.{
  ℕ, ◌+◌, ◌≡◌, ◌≢◌, ◌∙◌, refl, subst, Bool, Option, none, some, List, [], ◌∷◌, Text, text_eq,
  text_eq_iff, text_eq_refl, not, lookup, insert, remove, lookup-insert, lookup-remove,
  if◌then◌else◌, arith, keep_if, count_if, Bool-cases, inl, inr,
}
use mpcq_json_rpc_relay.Prelude.Lru.{LruCache}
use mpcq_json_rpc_relay.WsServer.Poller
use mpcq_json_rpc_relay.WsServer.Poller.{Poll, PollerService}
use mpcq_json_rpc_relay.WsServer.Polling
use mpcq_json_rpc_relay.WsServer.Polling.{polls_for, add-IsConsistent, remove-IsConsistent}
use mpcq_json_rpc_relay.WsServer.Subscriptions.{
  Subscriber, SubscriptionService, init, matches, keep_left, unsubscribe_from, unsubscribe_all,
  unsubscribe,
}

-- No tag has two entries.
abbrev pub HasDistinctTags : List (Text × List Subscriber) → Type 0
HasDistinctTags [] = Unit
HasDistinctTags ((tag, subs) ∷ m) = (lookup tag m ≡ none) × HasDistinctTags m

pub insert-HasDistinctTags :
    (tag : Text) (subs : List Subscriber) (m : List (Text × List Subscriber))
    → HasDistinctTags m
    → HasDistinctTags (insert tag subs m)
unfolding insert lookup
insert-HasDistinctTags tag subs [] h = (refl, tt)
insert-HasDistinctTags tag subs ((t, x) ∷ m) (n, h) = elim (Bool-cases (text_eq t tag)) [
  | inl e ↦ rw e (subst (λ y. lookup y m ≡ none) ((text_eq_iff t tag).0 e) n, h)
  | inr e ↦ rw e (
    ground (arith, lookup-insert tag t subs m, n, text_eq_iff tag t, text_eq_iff t tag, e),
    insert-HasDistinctTags tag subs m h,
  )
]

remove-HasDistinctTags :
    (tag : Text) (m : List (Text × List Subscriber))
    → HasDistinctTags m
    → HasDistinctTags (remove tag m)
unfolding remove lookup
remove-HasDistinctTags tag [] h = tt
remove-HasDistinctTags tag ((t, x) ∷ m) (n, h) = elim (Bool-cases (text_eq t tag)) [
  | inl e ↦ rw e (remove-HasDistinctTags tag m h)
  | inr e ↦ rw e (ground (arith, lookup-remove tag t m, n), remove-HasDistinctTags tag m h)
]

-- The polls that a tag must have.
abbrev pub expected : Option (List Subscriber) → ℕ
expected none = 0
expected (some subs) = 1

-- The subscribers of an entry that a cancellation leaves; none when it leaves nobody.
abbrev non_empty : List Subscriber → Option (List Subscriber)
non_empty [] = none
non_empty (x ∷ xs) = some (x ∷ xs)

abbrev pub left : (Subscriber → Bool) → Option (List Subscriber) → Option (List Subscriber)
left p none = none
left p (some subs) = non_empty (keep_if (λ sub. not (p sub)) subs)

module _ (is_new_heads : Text → Bool) (hash : Text → Text → Text) (L : LruCache Bool) where
  pub record IsConsistent (s : SubscriptionService is_new_heads hash L) : Type 0 where
    pub poller : Polling.IsConsistent is_new_heads s.poller_service
    pub distinct : HasDistinctTags s.subscriptions
    pub subscribed : (t : Text) → lookup t s.subscriptions ≢ some []
    pub polled :
        (t : Text)
        → polls_for is_new_heads t s.poller_service.polls ≡ expected (lookup t s.subscriptions)

  pub keep_left_lem :
      (s : SubscriptionService is_new_heads hash L) (tag : Text) (subs kept : List Subscriber)
      → IsConsistent s
      → lookup tag s.subscriptions ≡ some subs
      → let s' = keep_left is_new_heads hash L s tag kept in
        IsConsistent s'
        × ((t : Text)
            → lookup t s'.subscriptions
              ≡ (if text_eq tag t then non_empty kept else lookup t s.subscriptions))
  unfolding keep_left
  keep_left_lem s tag subs [] c there =
      let (poller, polls) = remove-IsConsistent is_new_heads s.poller_service tag c.poller in
      let at : (t : Text)
          → lookup t (remove tag (insert tag [] s.subscriptions))
            ≡ (if text_eq tag t then none else lookup t s.subscriptions) =
        λ t. ground (
          arith,
          lookup-remove tag t (insert tag [] s.subscriptions),
          lookup-insert tag t [] s.subscriptions,
        ) in
      (
        record {
          poller = poller;
          distinct =
              remove-HasDistinctTags tag _
                (insert-HasDistinctTags tag [] s.subscriptions c.distinct);
          subscribed = λ t h. c.subscribed t (ground (arith, at t, h));
          polled = λ t. ground (arith, at t, polls t, c.polled t);
        },
        at,
      )
  keep_left_lem s tag subs (x ∷ xs) c there =
      let at = λ (t : Text). lookup-insert tag t (x ∷ xs) s.subscriptions in
      (
        record {
          poller = c.poller;
          distinct = insert-HasDistinctTags tag (x ∷ xs) s.subscriptions c.distinct;
          subscribed = λ t h. c.subscribed t (ground (arith, at t, h));
          polled = λ t. elim (Bool-cases (text_eq tag t)) [
            | inl e ↦
                let same = (text_eq_iff tag t).0 e in
                subst
                  (λ y.
                    polls_for is_new_heads y s.poller_service.polls
                    ≡ expected (lookup y (insert tag (x ∷ xs) s.subscriptions)))
                  same (ground (arith, at tag, text_eq_refl tag, c.polled tag, there))
            | inr e ↦ ground (arith, at t, e, c.polled t)
          ];
        },
        at,
      )

  -- The entries that are still to come are there after a step of the loop.
  pub keep_left-still :
      (s : SubscriptionService is_new_heads hash L) (tag : Text) (subs kept : List Subscriber)
      → (entries : List (Text × List Subscriber)) → IsConsistent s
      → lookup tag s.subscriptions ≡ some subs
      → lookup tag entries ≡ none
      → ((t : Text) (x : List Subscriber)
          → lookup t ((tag, subs) ∷ entries) ≡ some x
          → lookup t s.subscriptions ≡ some x)
      → (t : Text) (x : List Subscriber) → lookup t entries ≡ some x
      → lookup t (keep_left is_new_heads hash L s tag kept).subscriptions ≡ some x
  unfolding lookup
  keep_left-still s tag subs kept entries c here fresh there t x h =
      let (c₁, at₁) = keep_left_lem s tag subs kept c here in
      elim (Bool-cases (text_eq tag t)) [
        | inl e ↦
            let gone = subst (λ y. lookup y entries ≡ none) ((text_eq_iff tag t).0 e) fresh in
            ground (arith, gone, h)
        | inr e ↦ ground (arith, at₁ t, e, there t x, h)
      ]

  -- The entry of a tag after the loop, from the entries that are still to come.
  abbrev after :
      (Subscriber → Bool)
      → Option (List Subscriber)
      → Option (List Subscriber)
      → Option (List Subscriber)
  after p none now = now
  after p (some subs) now = left p (some subs)

  unsubscribe_all_lem :
      (entries : List (Text × List Subscriber)) (s : SubscriptionService is_new_heads hash L)
      (id sub_id : Text) (n : ℕ)
      → IsConsistent s
      → HasDistinctTags entries
      → ((t : Text) (subs : List Subscriber)
          → lookup t entries ≡ some subs
          → lookup t s.subscriptions ≡ some subs)
      → let s' = (unsubscribe_all is_new_heads hash L s id sub_id entries n).0 in
        IsConsistent s'
        × ((t : Text)
            → lookup t s'.subscriptions
              ≡ after
                  (matches is_new_heads hash L id sub_id)
                  (lookup t entries)
                  (lookup t s.subscriptions))
  unfolding unsubscribe_all unsubscribe_from lookup
  unsubscribe_all_lem [] s id sub_id n c d there = (c, λ t. refl)
  unsubscribe_all_lem ((tag, subs) ∷ entries) s id sub_id n c (fresh, d) there =
      let p = matches is_new_heads hash L id sub_id in
      let here = there tag subs (ground (arith, text_eq_refl tag)) in
      let (c₁, at₁) = keep_left_lem s tag subs (keep_if (λ sub. not (p sub)) subs) c here in
      let s₁ = keep_left is_new_heads hash L s tag (keep_if (λ sub. not (p sub)) subs) in
      let still =
        keep_left-still s tag subs (keep_if (λ sub. not (p sub)) subs) entries c here fresh there in
      let (c₂, at₂) = unsubscribe_all_lem entries s₁ id sub_id (n + count_if p subs) c₁ d still in
      (
        c₂,
        λ t. elim (Bool-cases (text_eq tag t)) [
          | inl e ↦
              let gone = subst (λ y. lookup y entries ≡ none) ((text_eq_iff tag t).0 e) fresh in
              ground (arith, gone, at₂ t, at₁ t, e)
          | inr e ↦ ground (arith, at₂ t, at₁ t, e)
        ],
      )

  -- The number of subscribers that pass a test.
  abbrev pub total : (Subscriber → Bool) → List (Text × List Subscriber) → ℕ
  total p [] = 0
  total p ((tag, subs) ∷ entries) = count_if p subs + total p entries

  pub unsubscribe_all-count :
      (entries : List (Text × List Subscriber)) (s : SubscriptionService is_new_heads hash L)
      (id sub_id : Text) (n : ℕ)
      → (unsubscribe_all is_new_heads hash L s id sub_id entries n).1
        ≡ n + total (matches is_new_heads hash L id sub_id) entries
  unfolding unsubscribe_all
  unsubscribe_all-count [] s id sub_id n = omega arith
  unsubscribe_all-count ((tag, subs) ∷ entries) s id sub_id n =
      let p = matches is_new_heads hash L id sub_id in
      let rest =
        unsubscribe_all-count entries (unsubscribe_from is_new_heads hash L s id sub_id tag subs) id
          sub_id (n + count_if p subs) in
      omega (arith, rest)

  left-after : (p : Subscriber → Bool) (v : Option (List Subscriber)) → after p v v ≡ left p v
  left-after p none = refl
  left-after p (some subs) = refl

  -- A service without subscriptions and polls is consistent.
  pub init-IsConsistent : IsConsistent (init is_new_heads hash L)
  unfolding init Poller.init lookup
  init-IsConsistent = record {
    poller = Polling.init-IsConsistent is_new_heads;
    distinct = tt;
    subscribed = λ t h. ground arith;
    polled = λ t. refl;
  }

  -- To cancel a subscription of a connection, or all of them, keeps the service consistent, leaves in
  -- the entry of each tag exactly the subscribers that do not match and no entry when there are none
  -- left, and returns the number of those that match.
  pub unsubscribe_lem :
      (s : SubscriptionService is_new_heads hash L) (id sub_id : Text)
      → IsConsistent s
      → IsConsistent (unsubscribe is_new_heads hash L s id sub_id).0
        × ((t : Text)
            → lookup t (unsubscribe is_new_heads hash L s id sub_id).0.subscriptions
              ≡ left (matches is_new_heads hash L id sub_id) (lookup t s.subscriptions))
        × ((unsubscribe is_new_heads hash L s id sub_id).1
            ≡ total (matches is_new_heads hash L id sub_id) s.subscriptions)
  unfolding unsubscribe
  unsubscribe_lem s id sub_id c =
      let p = matches is_new_heads hash L id sub_id in
      let (c', at) = unsubscribe_all_lem s.subscriptions s id sub_id 0 c c.distinct (λ t x h. h) in
      (
        c',
        λ t. at t ∙ left-after p (lookup t s.subscriptions),
        omega (arith, unsubscribe_all-count s.subscriptions s id sub_id 0),
      )
