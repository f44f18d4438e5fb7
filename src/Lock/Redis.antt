-- ===== src/Lock/Redis.antt =====
-- packages/relay/src/lib/services/lockService/RedisLockStrategy.ts: a queue of sessions and a key with
-- the holder, in Redis. The commands are a parameter. One round of the loop is a function; what other
-- callers do between its commands is an argument. That a command fails, after which acquireLock
-- returns without a lock, is not modelled.
use mpcq_json_rpc_relay.Prelude.{
  ℕ, zero, suc, ◌≡◌, Bool, true, false, Option, none, some, List, [], ◌∷◌, ◌++◌, Text, codes,
  text_eq, if◌then◌else◌,
}
use mpcq_json_rpc_relay.Prelude.Sets.{delete}
use mpcq_json_rpc_relay.Lock.Strategy.{normalize_address}

-- The last of a list, which is its oldest element: LPUSH adds at the front.
unfoldable pub last_of : List Text → Option Text
last_of [] = none
last_of (x ∷ []) = some x
last_of (x ∷ y ∷ xs) = last_of (y ∷ xs)

-- LREM with a count of 1.
unfoldable pub remove_first : Text → List Text → List Text
remove_first x [] = []
remove_first x (y ∷ ys) = let rest = remove_first x ys in if text_eq y x then ys else y ∷ rest

-- What Redis documents of its commands on lists and on strings that live for a time. `set_nx` tells
-- whether it set the key.
pub record RedisKeys : Type 1 where
  pub Db : Type 0
  pub list_at : Db → Text → List Text
  pub string_at : Db → Text → Option Text
  pub l_push : Db → Text → Text → Db
  pub l_rem : Db → Text → Text → Db
  pub l_rem_one : Db → Text → Text → Db
  pub set : Db → Text → Text → ℕ → Db
  pub set_nx : Db → Text → Text → ℕ → Db × Bool
  pub del : Db → Text → Db
  pub list_at-l_push : (d : Db) (k x : Text) → list_at (l_push d k x) k ≡ x ∷ list_at d k
  pub list_at-l_rem : (d : Db) (k x : Text) → list_at (l_rem d k x) k ≡ delete x (list_at d k)
  pub list_at-l_rem_one :
      (d : Db) (k x : Text) → list_at (l_rem_one d k x) k ≡ remove_first x (list_at d k)
  pub list_at-set : (d : Db) (k x j : Text) (ttl : ℕ) → list_at (set d k x ttl) j ≡ list_at d j
  pub string_at-set :
      (d : Db) (k x j : Text) (ttl : ℕ)
      → string_at (set d k x ttl) j ≡ (if text_eq k j then some x else string_at d j)
  pub string_at-l_push : (d : Db) (k x j : Text) → string_at (l_push d k x) j ≡ string_at d j
  pub string_at-l_rem : (d : Db) (k x j : Text) → string_at (l_rem d k x) j ≡ string_at d j
  pub string_at-l_rem_one : (d : Db) (k x j : Text) → string_at (l_rem_one d k x) j ≡ string_at d j
  pub set_nx-free :
      (d : Db) (k x : Text) (ttl : ℕ)
      → string_at d k ≡ none
      → ((set_nx d k x ttl).1 ≡ true) × (string_at (set_nx d k x ttl).0 k ≡ some x)
  pub set_nx-taken :
      (d : Db) (k x holder : Text) (ttl : ℕ)
      → string_at d k ≡ some holder
      → set_nx d k x ttl ≡ (d, false)
  pub set_nx-elsewhere :
      (d : Db) (k x j : Text) (ttl : ℕ)
      → text_eq k j ≡ false
      → string_at (set_nx d k x ttl).0 j ≡ string_at d j
  pub string_at-del :
      (d : Db) (k j : Text) → string_at (del d k) j ≡ (if text_eq k j then none else string_at d j)

unfoldable pub get_lock_key : Text → Text
unfolding normalize_address
get_lock_key address = codes "lock:" ++ normalize_address address

unfoldable pub get_queue_key : Text → Text
unfolding normalize_address
get_queue_key address = codes "lock:queue:" ++ normalize_address address

unfoldable pub get_heartbeat_key : Text → Text
get_heartbeat_key session = codes "lock:heartbeat:" ++ session

-- How a round of the loop ends; `removed` is followed by the next round at once.
pub data Round : Type 0 where
  acquired removed waits : Round

-- `redis.call("get", KEYS[1]) == ARGV[1]`; a key that is not there is equal to no text.
unfoldable pub is_session : Option Text → Text → Bool
unfolding text_eq
is_session none session = false
is_session (some holder) session = text_eq holder session

module _ (R : RedisKeys) (max_lock_hold_ms heartbeat_ttl_ms : ℕ) where
  open R use {Db, list_at, string_at, l_push, l_rem, l_rem_one, set, set_nx, del}

  unfoldable pub join_queue : Db → Text → Text → Db
  unfolding get_queue_key
  join_queue d address session = l_push d (get_queue_key address) session

  unfoldable pub refresh_heartbeat : Db → Text → Db
  unfolding get_heartbeat_key
  refresh_heartbeat d session = set d (get_heartbeat_key session) (codes "1") heartbeat_ttl_ms

  unfoldable pub remove_from_queue : Db → Text → Text → Db
  unfolding get_queue_key
  remove_from_queue d address session = l_rem_one d (get_queue_key address) session

  -- The first in the queue tries to set the key of the lock.
  unfoldable pub try_lock : Db → Text → Text → Db × Round
  unfolding get_lock_key
  try_lock d address session =
      let r = set_nx d (get_lock_key address) session max_lock_hold_ms in
      (r.0, if r.1 then acquired else waits)

  -- A first in the queue that is another session is removed when it has no heartbeat.
  unfoldable pub drop_without : Option Text → Db → Text → Text → Db × Round
  unfolding get_queue_key
  drop_without none d address first = (l_rem d (get_queue_key address) first, removed)
  drop_without (some beat) d address first = (d, waits)

  unfoldable pub remove_zombie : Db → Text → Text → Db × Round
  unfolding get_heartbeat_key drop_without
  remove_zombie d address [] = (d, waits)
  remove_zombie d address (c ∷ first) =
      drop_without (string_at d (get_heartbeat_key (c ∷ first))) d address (c ∷ first)

  unfoldable pub after_look : Option Text → Db → Text → Text → Db × Round
  unfolding try_lock remove_zombie
  after_look none d address session = (d, waits)
  after_look (some first) d address session =
      if text_eq first session then try_lock d address session else remove_zombie d address first

  -- One round: the heartbeat, the look at the queue, and what follows from it. Others may act after
  -- the heartbeat (`before`) and after the look (`later`).
  unfoldable pub round : (Db → Db) → (Db → Db) → Db → Text → Text → Db × Round
  unfolding refresh_heartbeat get_queue_key after_look last_of
  round before later d address session =
      let beating = before (refresh_heartbeat d session) in
      after_look (last_of (list_at beating (get_queue_key address))) (later beating) address session

  -- The rounds while no other caller acts, at most as many as the fuel; `none` is no lock yet.
  unfoldable pub poll : ℕ → Db → Text → Text → Option Db
  unfolding round
  poll zero d address session = none
  poll (suc fuel) d address session =
      let r = round (λ e. e) (λ e. e) d address session in
      let rest = poll fuel r.0 address session in
      elim r.1 [ acquired ↦ some r.0 | removed ↦ rest | waits ↦ rest ]

  -- The session joins the queue, polls, and leaves the queue when it has the lock.
  unfoldable pub acquire_lock : ℕ → Db → Text → Text → Option Db
  unfolding poll join_queue remove_from_queue
  acquire_lock fuel d address session =
      elim (poll fuel (join_queue d address session) address session) [
        | none ↦ none
        | some d' ↦ some (remove_from_queue d' address session)
      ]

  -- The script of releaseLock, which Redis runs without another command in between: the key is deleted
  -- when its string is the session. It tells whether it deleted the key.
  unfoldable pub release_script : Db → Text → Text → Db × Bool
  unfolding is_session
  release_script d key session =
      if is_session (string_at d key) session then (del d key, true) else (d, false)

  unfoldable pub release_lock : Db → Text → Text → Db
  unfolding get_lock_key release_script
  release_lock d address session = (release_script d (get_lock_key address) session).0
