-- ===== src/Lock/Strategy.antt =====
-- `LocalLockStrategy`. Lock states are objects: the cache holds references to them, and so does a
-- caller that waits for the mutex, also when the cache has dropped the entry.
use mpcq_json_rpc_relay.Prelude.{
  ℕ, ◌+◌, ◌≡◌, Bool, true, false, Option, none, some, List, ◌∷◌, Text, text_eq, to_lower_case, ◌==◌,
  if◌then◌else◌, keep_if, not,
}
use mpcq_json_rpc_relay.Prelude.Lru.{LruCache}

-- What the code relies on of the package async-mutex. `acquire` is `none` while a caller waits.
pub record MutexPackage : Type 1 where
  pub Mutex : Type 0
  pub new : Mutex
  pub is_locked : Mutex → Bool
  pub acquire : Mutex → Option Mutex
  pub release : Mutex → Mutex
  pub new-free : is_locked new ≡ false
  pub acquire-locked : (m : Mutex) → is_locked m ≡ true → acquire m ≡ none
  pub acquire-free :
      (m : Mutex)
      → is_locked m ≡ false
      → (m' : Mutex) × (acquire m ≡ some m') × (is_locked m' ≡ true)
  pub release-free : (m : Mutex) → is_locked (release m) ≡ false

unfoldable pub normalize_address : Text → Text
normalize_address address = to_lower_case address

module _ (M : MutexPackage) (L : LruCache ℕ) where
  open M use {Mutex, new, acquire, release}
  open L use {Store, find, touch, set}

  pub record LockState : Type 0 where
    pub mutex : Mutex
    pub session_key : Option Text
    pub acquired_at : Option ℕ
    pub lock_timeout_id : Option ℕ

  -- A timer of `setTimeout`, with what its callback captures.
  pub record Timer : Type 0 where
    pub id : ℕ
    pub address : Text
    pub session : Text

  pub record LocalLockStrategy : Type 0 where
    pub local_lock_states : Store
    pub heap : ℕ → LockState
    pub next_ref : ℕ
    pub timers : List Timer
    pub next_timer : ℕ

  unfoldable pub fresh_state : LockState
  fresh_state = record {
    mutex = new;
    session_key = none;
    acquired_at = none;
    lock_timeout_id = none;
  }

  unfoldable pub write : (ℕ → LockState) → ℕ → LockState → ℕ → LockState
  write heap ref v r = if r == ref then v else heap r

  -- `getOrCreateState`: the strategy, and the reference to the state of the address. What `set`
  -- stores, the `get` after it finds.
  unfoldable pub get_or_create_state : LocalLockStrategy → Text → LocalLockStrategy × ℕ
  unfolding normalize_address write fresh_state
  get_or_create_state s address =
      let normalized_address = normalize_address address in
      elim (find s.local_lock_states normalized_address) [
        | some ref ↦
            (record s { local_lock_states = touch s.local_lock_states normalized_address }, ref)
        | none ↦ (
          record s {
            local_lock_states =
                touch (set s.local_lock_states normalized_address s.next_ref) normalized_address;
            heap = write s.heap s.next_ref fresh_state;
            next_ref = s.next_ref + 1;
          },
          s.next_ref,
        )
      ]

  -- The part of `acquireLock` after the wait: `none` while the mutex is held.
  unfoldable pub enter : LocalLockStrategy → ℕ → Text → Text → ℕ → Option LocalLockStrategy
  unfolding write
  enter s ref address session now = elim (acquire (s.heap ref).mutex) [
    | none ↦ none
    | some m ↦ some (record s {
      heap = write s.heap ref (record {
        mutex = m;
        session_key = some session;
        acquired_at = some now;
        lock_timeout_id = some s.next_timer;
      });
      timers = record { id = s.next_timer; address = address; session = session } ∷ s.timers;
      next_timer = s.next_timer + 1;
    })
  ]

  abbrev pub is_session : Option Text → Text → Bool
  is_session none session = false
  is_session (some k) session = text_eq k session

  -- `clearTimeout` of a timer that may be null.
  unfoldable pub clear_timeout : Option ℕ → List Timer → List Timer
  clear_timeout none timers = timers
  clear_timeout (some id) timers = keep_if (λ t. not (t.id == id)) timers

  unfoldable pub do_release : LocalLockStrategy → ℕ → LocalLockStrategy
  unfolding write clear_timeout
  do_release s ref = record s {
    timers = clear_timeout (s.heap ref).lock_timeout_id s.timers;
    heap = write s.heap ref (record {
      session_key = none;
      lock_timeout_id = none;
      acquired_at = none;
      mutex = release (s.heap ref).mutex;
    });
  }

  -- `releaseLock`; `forceReleaseExpiredLock` makes the same test.
  unfoldable pub release_lock : LocalLockStrategy → Text → Text → LocalLockStrategy
  unfolding normalize_address do_release
  release_lock s address session =
      let normalized_address = normalize_address address in
      let s' = record s { local_lock_states = touch s.local_lock_states normalized_address } in
      elim (find s.local_lock_states normalized_address) [
        | none ↦ s'
        | some ref ↦ if is_session (s.heap ref).session_key session then do_release s' ref else s'
      ]

  unfoldable pub force_release_expired_lock : LocalLockStrategy → Text → Text → LocalLockStrategy
  unfolding normalize_address do_release
  force_release_expired_lock s address session =
      let normalized_address = normalize_address address in
      let s' = record s { local_lock_states = touch s.local_lock_states normalized_address } in
      elim (find s.local_lock_states normalized_address) [
        | none ↦ s'
        | some ref ↦ if is_session (s.heap ref).session_key session then do_release s' ref else s'
      ]
