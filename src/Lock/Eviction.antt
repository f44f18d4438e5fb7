-- ===== src/Lock/Eviction.antt =====
-- Two callers for one address: with the lock state in the cache the second waits; once the cache
-- has evicted the state, it does not.
use mpcq_json_rpc_relay.Prelude.{
  ℕ, ◌+◌, ◌<◌, ◌≡◌, ◌≢◌, refl, none, some, ◌∷◌, Text, arith, text_eq_iff, text_eq_refl,
}
use mpcq_json_rpc_relay.Prelude.Lru.{LruCache}
use mpcq_json_rpc_relay.Lock.Strategy.{
  MutexPackage, LocalLockStrategy, normalize_address, fresh_state, get_or_create_state, enter,
  release_lock, do_release, write,
}
use mpcq_json_rpc_relay.Lock.Ownership.{IsConsistent}

module _ (M : MutexPackage) (L : LruCache ℕ) where
  -- A call that the mutex lets in.
  enter-acquired :
      (s : LocalLockStrategy M L) (r now : ℕ) (a k : Text) (m : M.Mutex)
      → M.acquire (s.heap r).mutex ≡ some m
      → (s' : LocalLockStrategy M L) × (enter M L s r a k now ≡ some s')
        × ((s'.heap r).session_key ≡ some k)
        × ((q : ℕ) → q ≢ r → s'.heap q ≡ s.heap q)
        × (s'.local_lock_states ≡ s.local_lock_states)
  unfolding enter write
  enter-acquired s r now a k m got = (
    record s {
      heap = write M L s.heap r (record {
        mutex = m;
        session_key = some k;
        acquired_at = some now;
        lock_timeout_id = some s.next_timer;
      });
      timers = record { id = s.next_timer; address = a; session = k } ∷ s.timers;
      next_timer = s.next_timer + 1;
    },
    ground arith,
    ground arith,
    λ q ne. ground arith,
    refl,
  )

module _ (M : MutexPackage) (L : LruCache ℕ) (s : LocalLockStrategy M L)
    (v : IsConsistent M L s) where
  -- While the state of the address is in the cache and held, a second caller gets the same state,
  -- whatever the case of its letters, and waits.
  pub second_waits :
      (a b k k' : Text) (r now : ℕ)
      → L.find s.local_lock_states (normalize_address a) ≡ some r
      → (s.heap r).session_key ≡ some k
      → normalize_address b ≡ normalize_address a
      → (s' : LocalLockStrategy M L) × (get_or_create_state M L s b ≡ (s', r))
        × (enter M L s' r b k' now ≡ none)
  unfolding get_or_create_state enter
  second_waits a b k k' r now f hold same = (
    record s { local_lock_states = L.touch s.local_lock_states (normalize_address b) },
    ground arith,
    ground
        (arith, v.locked r (v.refs (normalize_address a) r f), M.acquire-locked (s.heap r).mutex),
  )

  -- A release by the session that holds the lock frees it for the next caller.
  pub release_frees :
      (a k k' : Text) (r now : ℕ)
      → L.find s.local_lock_states (normalize_address a) ≡ some r
      → (s.heap r).session_key ≡ some k
      → (s' : LocalLockStrategy M L) × (enter M L (release_lock M L s a k) r a k' now ≡ some s')
        × ((s'.heap r).session_key ≡ some k')
  unfolding release_lock do_release write
  release_frees a k k' r now f hold =
      let free = M.acquire-free (M.release (s.heap r).mutex) (M.release-free (s.heap r).mutex) in
      let entered =
        enter-acquired M L (release_lock M L s a k) r now a k' free.0
          (ground (arith, free.1, text_eq_refl k)) in
      (entered.0, entered.1, entered.2)

  -- A state that is evicted while it is held: the next caller for its address gets a new state and
  -- holds it beside the first, and the first can no longer release its own.
  pub evicted_lock_shared :
      (a k k' : Text) (r now : ℕ)
      → L.find s.local_lock_states (normalize_address a) ≡ none
      → r < s.next_ref
      → (s.heap r).session_key ≡ some k
      → k' ≢ k
      → (s₁ : LocalLockStrategy M L) × (s₂ : LocalLockStrategy M L) × (q : ℕ) × (get_or_create_state
            M L s a
          ≡ (s₁, q))
        × (enter M L s₁ q a k' now ≡ some s₂)
        × ((s₂.heap q).session_key ≡ some k')
        × ((s₂.heap r).session_key ≡ some k)
        × (((release_lock M L s₂ a k).heap r).session_key ≡ some k)
  unfolding get_or_create_state write fresh_state release_lock
  evicted_lock_shared a k k' r now f h hold ne =
      let n = normalize_address a in
      let s₁ = record s {
        local_lock_states = L.touch (L.set s.local_lock_states n s.next_ref) n;
        heap = write M L s.heap s.next_ref (fresh_state M L);
        next_ref = s.next_ref + 1;
      } in
      let free = M.acquire-free M.new M.new-free in
      let (s₂, entered, holds, others, states) =
        enter-acquired M L s₁ s.next_ref now a k' free.0 (ground (arith, free.1)) in
      let here : L.find s₂.local_lock_states n ≡ some s.next_ref = ground (
        arith,
        states,
        L.find-touch (L.set s.local_lock_states n s.next_ref) n n,
        L.find-set_self s.local_lock_states n s.next_ref,
      ) in
      let apart : r ≢ s.next_ref = omega arith in
      let old : (s₂.heap r).session_key ≡ some k = ground (arith, others r apart) in
      (
        s₁,
        s₂,
        s.next_ref,
        ground arith,
        entered,
        holds,
        old,
        ground (arith, here, holds, old, text_eq_iff k' k),
      )
