-- ===== src/Lock/Exclusion.antt =====
-- The steps keep the invariant, and a hold ends only by the session that has it.
use mpcq_json_rpc_relay.Prelude.{
  ℕ, ◌<◌, ◌≤◌, ◌≡◌, ◌⊎◌, inl, inr, refl, none, some, List, [], ◌++◌, Text, arith, All, All-middle,
  All-mono, text_eq_iff, Option-cases, subst, ap,
}
use mpcq_json_rpc_relay.Prelude.Lru.{LruCache}
use mpcq_json_rpc_relay.Lock.Strategy.{
  MutexPackage, LocalLockStrategy, normalize_address, fresh_state, get_or_create_state, enter,
  release_lock, force_release_expired_lock, do_release, write,
}
use mpcq_json_rpc_relay.Lock.Steps.{
  Waiter, Label, releases, expires, System, Step, begin, go, give_back, time_out, Reach, here, next,
}
use mpcq_json_rpc_relay.Lock.Ownership.{
  IsConsistent, acquire-some, get_or_create_state-IsConsistent, enter-IsConsistent,
  release_lock-IsConsistent, release_lock-cases,
}

module _ (M : MutexPackage) (L : LruCache ℕ) where
  abbrev pub InRange : ℕ → List Waiter → Type 0
  InRange n = All (λ w. w.ref < n)

  pub record Inv (c : System M L) : Type 0 where
    pub consistent : IsConsistent M L c.strategy
    pub waiting_refs : InRange c.strategy.next_ref c.waiting

  create-range :
      (s : LocalLockStrategy M L) (a : Text)
      → IsConsistent M L s
      → let r = get_or_create_state M L s a in
        (s.next_ref ≤ r.0.next_ref)
        × (r.1 < r.0.next_ref)
        × ((q : ℕ) → q < s.next_ref → r.0.heap q ≡ s.heap q)
  unfolding get_or_create_state write
  create-range s a v = elim (Option-cases (L.find s.local_lock_states (normalize_address a))) [
    | inl e ↦ rw (e, get_or_create_state) (omega arith, omega arith, λ q h. ground arith)
    | inr (r, e) ↦ rw (e, get_or_create_state) (omega arith, v.refs _ r e, λ q h. refl)
  ]

  enter-range :
      (s s' : LocalLockStrategy M L) (r now : ℕ) (a k : Text)
      → enter M L s r a k now ≡ some s'
      → s'.next_ref ≡ s.next_ref
  unfolding enter
  enter-range s s' r now a k e = ground arith

  release-range :
      (s : LocalLockStrategy M L) (a k : Text)
      → ((release_lock M L s a k).next_ref ≡ s.next_ref)
        × ((force_release_expired_lock M L s a k).next_ref ≡ s.next_ref)
  unfolding do_release
  release-range s a k =
      release_lock-cases M L (λ t. t.next_ref ≡ s.next_ref) s a k (refl, λ r _ _. refl)

  -- Every step keeps the invariant.
  pub Step-Inv : (c d : System M L) (l : Label) → Inv c → Step M L c d l → Inv d
  Step-Inv c d _ v (begin a k s' ref e de) =
      let x = create-range c.strategy a v.consistent in
      let same : (get_or_create_state M L c.strategy a).0 ≡ s' = ap (λ p. p.0) e in
      let ref_eq : (get_or_create_state M L c.strategy a).1 ≡ ref = ap (λ p. p.1) e in
      rw de (record {
        consistent =
            subst (IsConsistent M L) same
              (get_or_create_state-IsConsistent M L c.strategy v.consistent a);
        waiting_refs = (
          rw (← same, ← ref_eq) x.1,
          All-mono _ _ (λ w h. rw (← same) (omega (arith, x.0))) c.waiting v.waiting_refs,
        );
      })
  Step-Inv c d _ v (go w xs ys now s' we e de) =
      let refs = All-middle _ xs w ys (rw we at v.waiting_refs) in
      rw de (record {
        consistent =
            enter-IsConsistent M L c.strategy v.consistent w.ref now w.address w.session s' refs.0
              e;
        waiting_refs = rw (enter-range c.strategy s' w.ref now w.address w.session e) refs.1;
      })
  Step-Inv c d _ v (give_back a k de) = rw de (record {
    consistent = (release_lock-IsConsistent M L c.strategy a k v.consistent).0;
    waiting_refs = rw ((release-range c.strategy a k).0) v.waiting_refs;
  })
  Step-Inv c d _ v (time_out t xs ys te de) =
      let s = record c.strategy { timers = xs ++ ys } in
      let same : IsConsistent M L s = record {
        locked = v.consistent.locked;
        refs = v.consistent.refs;
        apart = v.consistent.apart;
      } in
      rw de (record {
        consistent = (release_lock-IsConsistent M L s t.address t.session same).1;
        waiting_refs = rw ((release-range s t.address t.session).1) v.waiting_refs;
      })

  enter-hold :
      (s s' : LocalLockStrategy M L) (q now r : ℕ) (a k' k : Text)
      → IsConsistent M L s
      → r < s.next_ref
      → (s.heap r).session_key ≡ some k
      → enter M L s q a k' now ≡ some s'
      → (s'.heap r).session_key ≡ some k
  unfolding enter write
  enter-hold s s' q now r a k' k v h hold e = elim (Option-cases (M.acquire (s.heap q).mutex)) [
    | inl waits ↦ absurd (ground arith)
    | inr (m, got) ↦ ground (arith, v.locked r h, acquire-some M L (s.heap q).mutex m got)
  ]

  release-hold :
      (s : LocalLockStrategy M L) (r : ℕ) (a k' k : Text)
      → (s.heap r).session_key ≡ some k
      → let P : LocalLockStrategy M L → Type 0 =
          λ t. ((t.heap r).session_key ≡ some k) ⊎ (((t.heap r).session_key ≡ none) × (k' ≡ k)) in
        P (release_lock M L s a k') × P (force_release_expired_lock M L s a k')
  unfolding do_release write
  release-hold s r a k' k hold =
      release_lock-cases M L
        (λ t. ((t.heap r).session_key ≡ some k) ⊎ (((t.heap r).session_key ≡ none) × (k' ≡ k))) s a
        k' (inl hold, λ q f own. ground (arith, text_eq_iff k k'))

  -- While a session holds a lock, no step gives the lock to another or ends the hold, but a release
  -- with its session key or the timer of that key.
  pub Step-hold :
      (c d : System M L) (l : Label) (r : ℕ) (k : Text)
      → Inv c
      → r < c.strategy.next_ref
      → (c.strategy.heap r).session_key ≡ some k
      → Step M L c d l
      → ((d.strategy.heap r).session_key ≡ some k)
        ⊎ (((d.strategy.heap r).session_key ≡ none) × ((l ≡ releases k) ⊎ (l ≡ expires k)))
  Step-hold c d _ r k v h hold (begin a k' s' ref e de) =
      let same : (get_or_create_state M L c.strategy a).0 ≡ s' = ap (λ p. p.0) e in
      let kept = (create-range c.strategy a v.consistent).2 r h in inl (rw (de, ← same, kept) hold)
  Step-hold c d _ r k v h hold (go w xs ys now s' we e de) =
      inl (rw de (enter-hold c.strategy s' w.ref now r w.address w.session k v.consistent h hold e))
  Step-hold c d _ r k v h hold (give_back a k' de) =
      rw de (ground (arith, (release-hold c.strategy r a k' k hold).0))
  Step-hold c d _ r k v h hold (time_out t xs ys te de) =
      let s = record c.strategy { timers = xs ++ ys } in
      rw de (ground (arith, (release-hold s r t.address t.session k hold).1))

  -- A call enters only a lock that no session holds, and then holds it.
  pub enter-free :
      (s s' : LocalLockStrategy M L) (r now : ℕ) (a k : Text)
      → IsConsistent M L s
      → r < s.next_ref
      → enter M L s r a k now ≡ some s'
      → ((s.heap r).session_key ≡ none) × ((s'.heap r).session_key ≡ some k)
  unfolding enter write
  enter-free s s' r now a k v h e = elim (Option-cases (M.acquire (s.heap r).mutex)) [
    | inl waits ↦ absurd (ground arith)
    | inr (m, got) ↦ ground (arith, v.locked r h, acquire-some M L (s.heap r).mutex m got)
  ]

  -- The system before any call.
  unfoldable pub init : System M L
  init = record {
    strategy = record {
      local_lock_states = L.empty;
      heap = λ r. fresh_state M L;
      next_ref = 0;
      timers = [];
      next_timer = 0;
    };
    waiting = [];
  }

  init-Inv : Inv init
  unfolding init fresh_state
  init-Inv = record {
    consistent = record {
      locked = λ r h. absurd (omega arith);
      refs = λ a r h. absurd (ground (arith, L.find-empty a));
      apart = λ a b r h g. absurd (ground (arith, L.find-empty a));
    };
    waiting_refs = tt;
  }

  -- In every system that calls, entries, releases and timers lead to, a mutex is locked exactly while
  -- its state names a session, no two addresses share a state, and every waiting call waits for a
  -- state that was made.
  pub Reach-Inv : (d : System M L) → Reach M L init d → Inv d
  Reach-Inv d here = init-Inv
  Reach-Inv d (next {d = c} {l = l} r st) = Step-Inv c d l (Reach-Inv c r) st
