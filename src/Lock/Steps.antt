-- ===== src/Lock/Steps.antt =====
-- Callers, timers and the lock strategy as a step relation: a call of `acquireLock` begins, enters
-- when the mutex lets it, and ends by a release or by its timer.
use mpcq_json_rpc_relay.Prelude.{ℕ, ◌≡◌, some, List, ◌∷◌, ◌++◌, Text}
use mpcq_json_rpc_relay.Prelude.Lru.{LruCache}
use mpcq_json_rpc_relay.Lock.Strategy.{
  MutexPackage, Timer, LocalLockStrategy, get_or_create_state, enter, release_lock,
  force_release_expired_lock,
}

-- A caller that waits in `acquireLock`.
pub record Waiter : Type 0 where
  pub address : Text
  pub session : Text
  pub ref : ℕ

pub data Label : Type 0 where
  begins enters releases expires : Text → Label

module _ (M : MutexPackage) (L : LruCache ℕ) where
  pub record System : Type 0 where
    pub strategy : LocalLockStrategy M L
    pub waiting : List Waiter

  -- The label names the session key of the call. Session keys are those of `randomUUID`.
  pub data Step (c : System) (d : System) : Label → Type 0 where
    begin :
        (address session : Text) (s' : LocalLockStrategy M L) (ref : ℕ)
        → get_or_create_state M L c.strategy address ≡ (s', ref)
        → d ≡ record {
          strategy = s';
          waiting = record { address = address; session = session; ref = ref } ∷ c.waiting;
        }
        → Step c d (begins session)
    go :
        (w : Waiter) (xs ys : List Waiter) (now : ℕ) (s' : LocalLockStrategy M L)
        → c.waiting ≡ xs ++ w ∷ ys
        → enter M L c.strategy w.ref w.address w.session now ≡ some s'
        → d ≡ record { strategy = s'; waiting = xs ++ ys }
        → Step c d (enters w.session)
    give_back :
        (address session : Text)
        → d ≡ record c { strategy = release_lock M L c.strategy address session }
        → Step c d (releases session)
    time_out :
        (t : Timer M L) (xs ys : List (Timer M L))
        → c.strategy.timers ≡ xs ++ t ∷ ys
        → d ≡ record c {
          strategy =
              force_release_expired_lock M L
                (record c.strategy { timers = xs ++ ys })
                t.address
                t.session;
        }
        → Step c d (expires t.session)

  pub data Reach (c : System) : System → Type 0 where
    here : Reach c c
    next : {d e : System} {l : Label} → Reach c d → Step d e l → Reach c e
