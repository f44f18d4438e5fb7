-- ===== src/WsServer/Totals.antt =====
-- How many subscriptions a connection has, before and after it subscribes and cancels.
use mpcq_json_rpc_relay.Prelude.{
  ℕ, ◌+◌, ◌≡◌, refl, subst, Bool, none, some, List, [], ◌∷◌, ◌++◌, Text, text_eq, text_eq_iff,
  text_eq_refl, not, lookup, insert, remove, lookup-insert_self, if◌then◌else◌, arith, keep_if,
  count_if, Bool-cases, inl, inr,
}
use mpcq_json_rpc_relay.Prelude.Lru.{LruCache}
use mpcq_json_rpc_relay.WsServer.Subscriptions.{
  Subscriber, SubscriptionService, subscribers, create, matches, keep_left, unsubscribe_from,
  unsubscribe_all,
}
use mpcq_json_rpc_relay.WsServer.Subscribing.{
  HasDistinctTags, IsConsistent, total, keep_left_lem, keep_left-still, insert-HasDistinctTags,
}

module _ (is_new_heads : Text → Bool) (hash : Text → Text → Text) (L : LruCache Bool) where
  -- The number of subscriptions of a connection.
  abbrev pub subscriptions_of : Text → SubscriptionService is_new_heads hash L → ℕ
  subscriptions_of id s =
      total is_new_heads hash L (matches is_new_heads hash L id []) s.subscriptions

  total-insert :
      (p : Subscriber → Bool) (tag : Text) (new : List Subscriber)
      (m : List (Text × List Subscriber))
      → total is_new_heads hash L p (insert tag new m)
          + count_if p (subscribers is_new_heads hash L (lookup tag m))
        ≡ total is_new_heads hash L p m + count_if p new
  unfolding insert lookup
  total-insert p tag new [] = omega arith
  total-insert p tag new ((t, x) ∷ m) = ground (arith, total-insert p tag new m)

  absent-remove :
      (tag : Text) (m : List (Text × List Subscriber)) → lookup tag m ≡ none → remove tag m ≡ m
  unfolding lookup remove
  absent-remove tag [] h = refl
  absent-remove tag ((t, x) ∷ m) h = ground (arith, absent-remove tag m)

  total-remove :
      (p : Subscriber → Bool) (tag : Text) (m : List (Text × List Subscriber))
      → HasDistinctTags m
      → total is_new_heads hash L p (remove tag m)
          + count_if p (subscribers is_new_heads hash L (lookup tag m))
        ≡ total is_new_heads hash L p m
  unfolding remove lookup
  total-remove p tag [] d = omega arith
  total-remove p tag ((t, x) ∷ m) (n, d) =
      let rest = total-remove p tag m d in
      elim (Bool-cases (text_eq t tag)) [
        | inl e ↦
            let gone = subst (λ y. lookup y m ≡ none) ((text_eq_iff t tag).0 e) n in
            ground (arith, e, absent-remove tag m gone)
        | inr e ↦ ground (arith, e, rest)
      ]

  count_if-append :
      (p : Subscriber → Bool) (xs : List Subscriber) (x : Subscriber)
      → count_if p (xs ++ x ∷ []) ≡ count_if p xs + (if p x then 1 else 0)
  count_if-append p [] x = omega arith
  count_if-append p (y ∷ ys) x = omega (arith, count_if-append p ys x)

  count_if-kept :
      (id sub_id : Text) (xs : List Subscriber)
      → count_if
            (matches is_new_heads hash L id [])
            (keep_if (λ x. not (matches is_new_heads hash L id sub_id x)) xs)
          + count_if (matches is_new_heads hash L id sub_id) xs
        ≡ count_if (matches is_new_heads hash L id []) xs
  unfolding matches
  count_if-kept id sub_id [] = omega arith
  count_if-kept id sub_id (x ∷ xs) = ground (arith, count_if-kept id sub_id xs)

  keep_left-total :
      (p : Subscriber → Bool) (s : SubscriptionService is_new_heads hash L) (tag : Text)
      (subs kept : List Subscriber)
      → IsConsistent is_new_heads hash L s
      → lookup tag s.subscriptions ≡ some subs
      → total is_new_heads hash L p (keep_left is_new_heads hash L s tag kept).subscriptions
          + count_if p subs
        ≡ total is_new_heads hash L p s.subscriptions + count_if p kept
  unfolding keep_left
  keep_left-total p s tag subs [] c here =
      let a = total-insert p tag [] s.subscriptions in
      let b =
        total-remove p tag (insert tag [] s.subscriptions)
          (insert-HasDistinctTags tag [] s.subscriptions c.distinct) in
      ground (arith, here, a, b, lookup-insert_self {V = List Subscriber} tag [] s.subscriptions)
  keep_left-total p s tag subs (x ∷ xs) c here =
      ground (arith, here, total-insert p tag (x ∷ xs) s.subscriptions)

  pub unsubscribe_all-total :
      (entries : List (Text × List Subscriber)) (s : SubscriptionService is_new_heads hash L)
      (id sub_id : Text) (n : ℕ)
      → IsConsistent is_new_heads hash L s
      → HasDistinctTags entries
      → ((t : Text) (subs : List Subscriber)
          → lookup t entries ≡ some subs
          → lookup t s.subscriptions ≡ some subs)
      → subscriptions_of id (unsubscribe_all is_new_heads hash L s id sub_id entries n).0
          + total is_new_heads hash L (matches is_new_heads hash L id sub_id) entries
        ≡ subscriptions_of id s
  unfolding unsubscribe_all unsubscribe_from lookup
  unsubscribe_all-total [] s id sub_id n c d there = omega arith
  unsubscribe_all-total ((tag, subs) ∷ entries) s id sub_id n c (fresh, d) there =
      let q = matches is_new_heads hash L id sub_id in
      let kept = keep_if (λ sub. not (q sub)) subs in
      let here = there tag subs (ground (arith, text_eq_refl tag)) in
      let (c₁, at₁) = keep_left_lem is_new_heads hash L s tag subs kept c here in
      let still = keep_left-still is_new_heads hash L s tag subs kept entries c here fresh there in
      let rest =
        unsubscribe_all-total entries (keep_left is_new_heads hash L s tag kept) id sub_id
          (n + count_if q subs) c₁ d still in
      let step = keep_left-total (matches is_new_heads hash L id []) s tag subs kept c here in
      let k = count_if-kept id sub_id subs in omega (arith, rest, step, k)

  pub create-total :
      (s : SubscriptionService is_new_heads hash L) (id tag new_id : Text)
      → subscriptions_of id (create is_new_heads hash L s id tag new_id) ≡ subscriptions_of id s + 1
  unfolding create matches
  create-total s id tag new_id =
      let subs = subscribers is_new_heads hash L (lookup tag s.subscriptions) in
      let x : Subscriber = record { connection_id = id; subscription_id = new_id } in
      let a =
        total-insert (matches is_new_heads hash L id []) tag (subs ++ x ∷ []) s.subscriptions in
      let b = count_if-append (matches is_new_heads hash L id []) subs x in
      ground (arith, a, b, text_eq_refl id)
