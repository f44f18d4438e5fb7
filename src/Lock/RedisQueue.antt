-- ===== src/Lock/RedisQueue.antt =====
-- The queue of the lock in Redis: who gets the lock in a round, who gets it at all.
use mpcq_json_rpc_relay.Prelude.{
  ℕ, zero, suc, ◌≡◌, ◌≢◌, inl, inr, refl, sym, ◌∙◌, Bool, true, false, Option, none, some, List, [],
  ◌∷◌, ◌++◌, Text, codes, text_eq, text_eq_iff, if◌then◌else◌, Bool-cases, Option-cases, arith, ap,
}
use mpcq_json_rpc_relay.Prelude.Sets.{delete, has}
use mpcq_json_rpc_relay.Lock.Redis.{
  RedisKeys, get_lock_key, get_queue_key, get_heartbeat_key, Round, acquired, removed, waits,
  last_of, refresh_heartbeat, try_lock, drop_without, remove_zombie, after_look, round, poll,
}

pub last_of-end : (xs : List Text) (x : Text) → last_of (xs ++ x ∷ []) ≡ some x
unfolding last_of
last_of-end [] x = refl
last_of-end (y ∷ []) x = refl
last_of-end (y ∷ z ∷ xs) x = last_of-end (z ∷ xs) x

pub last_of-has : (xs : List Text) (x : Text) → last_of xs ≡ some x → has x xs ≡ true
unfolding last_of has
last_of-has [] x h = ground arith
last_of-has (y ∷ []) x h = ground (arith, text_eq_iff y x)
last_of-has (y ∷ z ∷ xs) x h = ground (arith, last_of-has (z ∷ xs) x h)

has-delete_false : (x y : Text) (xs : List Text) → has x xs ≡ false → has x (delete y xs) ≡ false
unfolding delete has
has-delete_false x y [] h = refl
has-delete_false x y (z ∷ xs) h = ground (arith, has-delete_false x y xs)

taken : (b : Bool) → (if b then acquired else waits) ≡ acquired → b ≡ false → ⊥
taken b h e = ground arith

no_lock {ℓ} :
    {A : Type ℓ} (r : A × Round) (rest : Option A)
    → r.1 ≢ acquired
    → rest ≡ none
    → elim r.1 [ acquired ↦ some r.0 | removed ↦ rest | waits ↦ rest ] ≡ none
no_lock (d, acquired) rest h e = absurd (h refl)
no_lock (d, removed) rest h e = e
no_lock (d, waits) rest h e = e

module _ (R : RedisKeys) (max_lock_hold_ms heartbeat_ttl_ms : ℕ) where
  open R use {Db, list_at, string_at}

  -- The session had the lock of the address free before, was first in its queue, and holds it.
  unfoldable pub Takes : Option Text → Db → Db → Text → Text → Type 0
  unfolding get_lock_key
  Takes first d d' address session =
      (first ≡ some session)
      × (string_at d (get_lock_key address) ≡ none)
      × (string_at d' (get_lock_key address) ≡ some session)

  try_lock-free :
      (d : Db) (a s : Text)
      → (try_lock R max_lock_hold_ms heartbeat_ttl_ms d a s).1 ≡ acquired
      → (string_at d (get_lock_key a) ≡ none)
        × (string_at (try_lock R max_lock_hold_ms heartbeat_ttl_ms d a s).0 (get_lock_key a)
            ≡ some s)
  unfolding try_lock
  try_lock-free d a s h = elim (Option-cases (string_at d (get_lock_key a))) [
    | inl e ↦ (e, (R.set_nx-free d (get_lock_key a) s max_lock_hold_ms e).1)
    | inr (x, e) ↦ absurd (
        taken (R.set_nx d (get_lock_key a) s max_lock_hold_ms).1 h
          (ap (λ r. r.1) (R.set_nx-taken d (get_lock_key a) s x max_lock_hold_ms e)))
  ]

  drop_without-other :
      (o : Option Text) (d : Db) (a f : Text)
      → (drop_without R max_lock_hold_ms heartbeat_ttl_ms o d a f).1 ≢ acquired
  unfolding drop_without
  drop_without-other none d a f h = ground arith
  drop_without-other (some x) d a f h = ground arith

  remove_zombie-other :
      (d : Db) (a f : Text) → (remove_zombie R max_lock_hold_ms heartbeat_ttl_ms d a f).1 ≢ acquired
  unfolding remove_zombie
  remove_zombie-other d a [] h = ground arith
  remove_zombie-other d a (c ∷ f) h =
      drop_without-other (string_at d (get_heartbeat_key (c ∷ f))) d a (c ∷ f) h

  waits-acquired :
      (d : Db) (a s : Text)
      → (after_look R max_lock_hold_ms heartbeat_ttl_ms none d a s).1 ≢ acquired
  unfolding after_look
  waits-acquired d a s h = ground arith

  pub after_look_first :
      (f s : Text) (d : Db) (a : Text)
      → text_eq f s ≡ true
      → after_look R max_lock_hold_ms heartbeat_ttl_ms (some f) d a s
        ≡ try_lock R max_lock_hold_ms heartbeat_ttl_ms d a s
  unfolding after_look
  after_look_first f s d a e =
      ap
        (λ b.
          if b
          then try_lock R max_lock_hold_ms heartbeat_ttl_ms d a s
          else remove_zombie R max_lock_hold_ms heartbeat_ttl_ms d a f)
        e

  pub after_look_other :
      (f s : Text) (d : Db) (a : Text)
      → text_eq f s ≡ false
      → after_look R max_lock_hold_ms heartbeat_ttl_ms (some f) d a s
        ≡ remove_zombie R max_lock_hold_ms heartbeat_ttl_ms d a f
  unfolding after_look
  after_look_other f s d a e =
      ap
        (λ b.
          if b
          then try_lock R max_lock_hold_ms heartbeat_ttl_ms d a s
          else remove_zombie R max_lock_hold_ms heartbeat_ttl_ms d a f)
        e

  after_look-Takes :
      (o : Option Text) (d : Db) (a s : Text)
      → (after_look R max_lock_hold_ms heartbeat_ttl_ms o d a s).1 ≡ acquired
      → Takes o d (after_look R max_lock_hold_ms heartbeat_ttl_ms o d a s).0 a s
  unfolding Takes
  after_look-Takes none d a s h = absurd (waits-acquired d a s h)
  after_look-Takes (some f) d a s h = elim (Bool-cases (text_eq f s)) [
    | inl e ↦
        let same = after_look_first f s d a e in
        let free = try_lock-free d a s (ap (λ r. r.1) (sym same) ∙ h) in
        (
          ap some ((text_eq_iff f s).0 e),
          free.0,
          ap (λ r. string_at r.0 (get_lock_key a)) same ∙ free.1,
        )
    | inr e ↦
        absurd (remove_zombie-other d a f (ap (λ r. r.1) (sym (after_look_other f s d a e)) ∙ h))
  ]

  -- A session that has the lock after a round was the oldest of the queue when the round looked at it,
  -- nobody held the lock when the session tried, and the session holds it then; whatever others do
  -- between the heartbeat and the look, and between the look and the try.
  pub round-Takes :
      (before later : Db → Db) (d : Db) (a s : Text)
      → (round R max_lock_hold_ms heartbeat_ttl_ms before later d a s).1 ≡ acquired
      → (let beating = before (refresh_heartbeat R max_lock_hold_ms heartbeat_ttl_ms d s) in
          Takes
            (last_of (list_at beating (get_queue_key a)))
            (later beating)
            (round R max_lock_hold_ms heartbeat_ttl_ms before later d a s).0
            a
            s)
  unfolding round
  round-Takes before later d a s h =
      let beating = before (refresh_heartbeat R max_lock_hold_ms heartbeat_ttl_ms d s) in
      after_look-Takes (last_of (list_at beating (get_queue_key a))) (later beating) a s h

  pub round_queue :
      (d : Db) (a s : Text)
      → list_at (refresh_heartbeat R max_lock_hold_ms heartbeat_ttl_ms d s) (get_queue_key a)
        ≡ list_at d (get_queue_key a)
  unfolding refresh_heartbeat
  round_queue d a s =
      R.list_at-set d (get_heartbeat_key s) (codes "1") (get_queue_key a) heartbeat_ttl_ms

  dropped_absent :
      (o : Option Text) (d : Db) (a f s : Text)
      → has s (list_at d (get_queue_key a)) ≡ false
      → has s
          (list_at (drop_without R max_lock_hold_ms heartbeat_ttl_ms o d a f).0 (get_queue_key a))
        ≡ false
  unfolding drop_without
  dropped_absent none d a f s h =
      ap (has s) (R.list_at-l_rem d (get_queue_key a) f)
      ∙ has-delete_false s f (list_at d (get_queue_key a)) h
  dropped_absent (some x) d a f s h = h

  look_none :
      (d : Db) (a s : Text)
      → has s (list_at d (get_queue_key a)) ≡ false
      → has s
          (list_at (after_look R max_lock_hold_ms heartbeat_ttl_ms none d a s).0 (get_queue_key a))
        ≡ false
  unfolding after_look
  look_none d a s h = h

  zombie_absent :
      (d : Db) (a f s : Text)
      → has s (list_at d (get_queue_key a)) ≡ false
      → has s
          (list_at (remove_zombie R max_lock_hold_ms heartbeat_ttl_ms d a f).0 (get_queue_key a))
        ≡ false
  unfolding remove_zombie
  zombie_absent d a [] s h = h
  zombie_absent d a (c ∷ f) s h =
      dropped_absent (string_at d (get_heartbeat_key (c ∷ f))) d a (c ∷ f) s h

  look_absent :
      (o : Option Text) (d : Db) (a s : Text)
      → has s (list_at d (get_queue_key a)) ≡ false
      → o ≢ some s
      → (has s
            (list_at (after_look R max_lock_hold_ms heartbeat_ttl_ms o d a s).0 (get_queue_key a))
          ≡ false)
        × ((after_look R max_lock_hold_ms heartbeat_ttl_ms o d a s).1 ≢ acquired)
  look_absent none d a s h other = (look_none d a s h, waits-acquired d a s)
  look_absent (some f) d a s h other = elim (Bool-cases (text_eq f s)) [
    | inl e ↦ absurd (other (ap some ((text_eq_iff f s).0 e)))
    | inr e ↦
        let same = after_look_other f s d a e in
        (
          ap (λ r. has s (list_at r.0 (get_queue_key a))) same ∙ zombie_absent d a f s h,
          λ g. remove_zombie-other d a f (ap (λ r. r.1) (sym same) ∙ g),
        )
  ]

  absent_first : (xs : List Text) (s : Text) → has s xs ≡ false → last_of xs ≢ some s
  absent_first xs s h e = ground (arith, last_of-has xs s e)

  -- A waiter that is not in the queue any more does not get the lock, whatever the number of rounds,
  -- while no other session acts: it does not join the queue again.
  pub poll-absent :
      (fuel : ℕ) (d : Db) (a s : Text)
      → has s (list_at d (get_queue_key a)) ≡ false
      → poll R max_lock_hold_ms heartbeat_ttl_ms fuel d a s ≡ none
  unfolding poll round
  poll-absent zero d a s h = refl
  poll-absent (suc fuel) d a s h =
      let beating = refresh_heartbeat R max_lock_hold_ms heartbeat_ttl_ms d s in
      let h' = ap (has s) (round_queue d a s) ∙ h in
      let r =
        look_absent (last_of (list_at beating (get_queue_key a))) beating a s h'
          (absent_first (list_at beating (get_queue_key a)) s h') in
      no_lock (round R max_lock_hold_ms heartbeat_ttl_ms (λ e. e) (λ e. e) d a s)
        (poll R max_lock_hold_ms heartbeat_ttl_ms fuel
          (round R max_lock_hold_ms heartbeat_ttl_ms (λ e. e) (λ e. e) d a s).0 a s)
        r.1
        (poll-absent fuel (round R max_lock_hold_ms heartbeat_ttl_ms (λ e. e) (λ e. e) d a s).0 a s
          r.0)
