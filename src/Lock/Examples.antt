-- ===== src/Lock/Examples.antt =====
-- A concrete mutex and cache, and the theorems at a lock that one session holds.
use mpcq_json_rpc_relay.Prelude.{
  ℕ, ◌≡◌, refl, Bool, true, false, Option, none, some, [], ◌∷◌, Text, codes, text_eq, arith, lookup,
  insert, to_lower_case,
}
use mpcq_json_rpc_relay.Prelude.Strings.{to_lower}
use mpcq_json_rpc_relay.Prelude.Lru.{LruCache, unbounded}
use mpcq_json_rpc_relay.Lock.Strategy.{
  MutexPackage, LocalLockStrategy, normalize_address, fresh_state, get_or_create_state, enter,
  release_lock, force_release_expired_lock, do_release, write, clear_timeout,
}
use mpcq_json_rpc_relay.Lock.Steps.{begins, enters, System, Step, begin, go, here, next}
use mpcq_json_rpc_relay.Lock.Ownership.{IsConsistent}
use mpcq_json_rpc_relay.Lock.Exclusion.{Inv, init, Reach-Inv}
use mpcq_json_rpc_relay.Lock.Eviction.{second_waits, release_frees, evicted_lock_shared}

abbrev acquire_flag : Bool → Option Bool
acquire_flag false = some true
acquire_flag true = none

acquire_flag-locked : (m : Bool) → m ≡ true → acquire_flag m ≡ none
acquire_flag-locked m h = ground arith

acquire_flag-free : (m : Bool) → m ≡ false → (m' : Bool) × (acquire_flag m ≡ some m') × (m' ≡ true)
acquire_flag-free m h = (true, ground arith, refl)

-- A mutex is whether it is locked.
abbrev flag : MutexPackage
flag = record {
  Mutex = Bool;
  new = false;
  is_locked = λ m. m;
  acquire = acquire_flag;
  release = λ m. false;
  new-free = refl;
  acquire-locked = acquire_flag-locked;
  acquire-free = acquire_flag-free;
  release-free = λ m. refl;
}

abbrev cache : LruCache ℕ
cache = unbounded ℕ

program : Unit {0}
unfolding normalize_address fresh_state get_or_create_state enter release_lock
    force_release_expired_lock do_release write clear_timeout lookup insert to_lower_case to_lower
    text_eq init
program = tt

abbrev address : Text
address = codes "0xA"

abbrev first : Text
first = codes "s1"

abbrev second : Text
second = codes "s2"

-- The first session has begun its call.
begun : System flag cache
unfolding program
begun = record {
  strategy = (get_or_create_state flag cache (init flag cache).strategy address).0;
  waiting = record { address = address; session = first; ref = 0 } ∷ [];
}

-- It has entered, and holds the lock.
holding : System flag cache
unfolding program begun
holding = record {
  strategy = elim (enter flag cache begun.strategy 0 address first 5) [
    | some s ↦ s
    | none ↦ begun.strategy
  ];
  waiting = [];
}

begins_first : Step flag cache (init flag cache) begun (begins first)
unfolding program begun
begins_first = begin address first begun.strategy 0 refl refl

enters_first : Step flag cache begun holding (enters first)
unfolding program begun holding
enters_first =
    go (record { address = address; session = first; ref = 0 }) [] [] 5 holding.strategy refl refl
      refl

begun-Inv : Inv flag cache begun
begun-Inv = Reach-Inv flag cache begun (next here begins_first)

holding-Inv : Inv flag cache holding
holding-Inv = Reach-Inv flag cache holding (next (next here begins_first) enters_first)

Reach-Inv_example : Inv flag cache holding
Reach-Inv_example = Reach-Inv flag cache holding (next (next here begins_first) enters_first)

-- A release with the wrong session key.
not_released : System flag cache
not_released = record holding { strategy = release_lock flag cache holding.strategy address second }

second_waits_example :
    (s' : LocalLockStrategy flag cache) × (get_or_create_state flag cache holding.strategy
        (codes "0xa")
      ≡ (s', 0))
    × (enter flag cache s' 0 (codes "0xa") second 9 ≡ none)
unfolding program begun holding
second_waits_example =
    second_waits flag cache holding.strategy holding-Inv.consistent address (codes "0xa") first
      second 0 9 refl refl refl

release_frees_example :
    (s' : LocalLockStrategy flag cache) × (enter flag cache
        (release_lock flag cache holding.strategy address first)
        0
        address
        second
        9
      ≡ some s')
    × ((s'.heap 0).session_key ≡ some second)
unfolding program begun holding
release_frees_example =
    release_frees flag cache holding.strategy holding-Inv.consistent address first second 0 9 refl
      refl

-- The cache has evicted the address.
evicted : LocalLockStrategy flag cache
unfolding holding
evicted = record holding.strategy { local_lock_states = [] }

evicted-IsConsistent : IsConsistent flag cache evicted
unfolding evicted lookup
evicted-IsConsistent = record {
  locked = holding-Inv.consistent.locked;
  refs = λ a r h. absurd (ground arith);
  apart = λ a b r h g. absurd (ground arith);
}

evicted_lock_shared_example :
    (s₁ : LocalLockStrategy flag cache) × (s₂ : LocalLockStrategy flag cache) × (q : ℕ)
    × (get_or_create_state flag cache evicted address ≡ (s₁, q))
    × (enter flag cache s₁ q address second 9 ≡ some s₂)
    × ((s₂.heap q).session_key ≡ some second)
    × ((s₂.heap 0).session_key ≡ some first)
    × (((release_lock flag cache s₂ address first).heap 0).session_key ≡ some first)
unfolding program begun holding evicted
evicted_lock_shared_example =
    evicted_lock_shared flag cache evicted evicted-IsConsistent address first second 0 9 refl
      (omega arith) refl (λ e. ground arith)
