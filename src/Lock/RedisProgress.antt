-- ===== src/Lock/RedisProgress.antt =====
-- Waiters that crashed do not keep the lock in Redis from the session in front of them.
use mpcq_json_rpc_relay.Prelude.{
  ℕ, zero, suc, ◌<◌, ◌≤◌, ◌≡◌, ◌≢◌, inl, inr, refl, ◌∙◌, true, false, none, some, List, [], ◌∷◌,
  ◌++◌, Text, codes, text_eq, text_eq_refl, text_eq_iff, starts_with, if◌then◌else◌, Bool-cases,
  Option-cases, arith, ap, length,
}
use mpcq_json_rpc_relay.Prelude.Sets.{delete, has}
use mpcq_json_rpc_relay.Lock.Strategy.{normalize_address}
use mpcq_json_rpc_relay.Lock.Redis.{
  RedisKeys, get_lock_key, get_queue_key, get_heartbeat_key, Round, acquired, removed, waits,
  last_of, refresh_heartbeat, try_lock, drop_without, remove_zombie, after_look, round, poll,
}
use mpcq_json_rpc_relay.Lock.RedisSafety.{heartbeat-lock_key}
use mpcq_json_rpc_relay.Lock.RedisQueue.{
  last_of-end, last_of-has, after_look_first, after_look_other, round_queue,
}

last_of-behind :
    (front : List Text) (s : Text) (behind : List Text) (z : Text)
    → last_of behind ≡ some z
    → last_of (front ++ s ∷ behind) ≡ some z
unfolding last_of
last_of-behind [] s [] z h = absurd (ground arith)
last_of-behind [] s (y ∷ ys) z h = h
last_of-behind (x ∷ []) s behind z h = last_of-behind [] s behind z h
last_of-behind (x ∷ y ∷ xs) s behind z h = last_of-behind (y ∷ xs) s behind z h

last_of-none : (xs : List Text) → last_of xs ≡ none → xs ≡ []
unfolding last_of
last_of-none [] h = refl
last_of-none (x ∷ []) h = absurd (ground arith)
last_of-none (x ∷ y ∷ xs) h = absurd (ground (arith, last_of-none (y ∷ xs) h))

delete-behind :
    (front : List Text) (s : Text) (behind : List Text) (z : Text)
    → text_eq s z ≡ false
    → delete z (front ++ s ∷ behind) ≡ delete z front ++ s ∷ delete z behind
unfolding delete
delete-behind [] s behind z h = rw h refl
delete-behind (x ∷ front) s behind z h = elim (Bool-cases (text_eq x z)) [
  | inl e ↦ rw e (delete-behind front s behind z h)
  | inr e ↦ rw e (ap (λ ys. x ∷ ys) (delete-behind front s behind z h))
]

length-delete_le : (z : Text) (xs : List Text) → length (delete z xs) ≤ length xs
unfolding delete
length-delete_le z [] = ground arith
length-delete_le z (x ∷ xs) = ground (arith, length-delete_le z xs)

length-delete : (z : Text) (xs : List Text) → has z xs ≡ true → length (delete z xs) < length xs
unfolding delete has
length-delete z [] h = ground arith
length-delete z (x ∷ xs) h = ground (arith, length-delete z xs, length-delete_le z xs)

has-deleted : (y z : Text) (xs : List Text) → has y (delete z xs) ≡ true → has y xs ≡ true
unfolding delete has
has-deleted y z [] h = h
has-deleted y z (x ∷ xs) h = ground (arith, has-deleted y z xs)

text_eq_sym : (x y : Text) → text_eq x y ≡ false → text_eq y x ≡ false
text_eq_sym x y h = ground (arith, text_eq_iff x y, text_eq_iff y x)

module _ (R : RedisKeys) (max_lock_hold_ms heartbeat_ttl_ms : ℕ) where
  open R use {Db, list_at, string_at, l_rem}

  -- What holds of a session that crashed: it is another, with a name and without a heartbeat.
  unfoldable pub IsCrashed : Db → Text → Text → Type 0
  unfolding get_heartbeat_key
  IsCrashed d s z = (text_eq z s ≡ false) × (z ≢ []) × (string_at d (get_heartbeat_key z) ≡ none)

  beat_lock :
      (d : Db) (a s : Text)
      → starts_with (normalize_address a) (codes "heartbeat:") ≡ false
      → string_at (refresh_heartbeat R max_lock_hold_ms heartbeat_ttl_ms d s) (get_lock_key a)
        ≡ string_at d (get_lock_key a)
  unfolding refresh_heartbeat
  beat_lock d a s ok =
      R.string_at-set d (get_heartbeat_key s) (codes "1") (get_lock_key a) heartbeat_ttl_ms
      ∙ ap (λ e. if e then some (codes "1") else string_at d (get_lock_key a))
          (heartbeat-lock_key s a ok)

  beat_other :
      (d : Db) (s z : Text)
      → text_eq s z ≡ false
      → string_at (refresh_heartbeat R max_lock_hold_ms heartbeat_ttl_ms d s) (get_heartbeat_key z)
        ≡ string_at d (get_heartbeat_key z)
  unfolding refresh_heartbeat get_heartbeat_key text_eq
  beat_other d s z e =
      R.string_at-set d (get_heartbeat_key s) (codes "1") (get_heartbeat_key z) heartbeat_ttl_ms
      ∙ ap (λ e. if e then some (codes "1") else string_at d (get_heartbeat_key z)) e

  poll_by :
      (fuel : ℕ) (d : Db) (a s : Text) (r : Db × Round)
      → round R max_lock_hold_ms heartbeat_ttl_ms (λ e. e) (λ e. e) d a s ≡ r
      → poll R max_lock_hold_ms heartbeat_ttl_ms (suc fuel) d a s ≡ elim r.1 [
        | acquired ↦ some r.0
        | removed ↦ poll R max_lock_hold_ms heartbeat_ttl_ms fuel r.0 a s
        | waits ↦ poll R max_lock_hold_ms heartbeat_ttl_ms fuel r.0 a s
      ]
  unfolding poll
  poll_by fuel d a s r h =
      ap
        (λ q. elim q.1 [
          | acquired ↦ some q.0
          | removed ↦ poll R max_lock_hold_ms heartbeat_ttl_ms fuel q.0 a s
          | waits ↦ poll R max_lock_hold_ms heartbeat_ttl_ms fuel q.0 a s
        ])
        h

  zombie_removed :
      (d : Db) (a z : Text)
      → z ≢ []
      → string_at d (get_heartbeat_key z) ≡ none
      → remove_zombie R max_lock_hold_ms heartbeat_ttl_ms d a z
        ≡ (l_rem d (get_queue_key a) z, removed)
  unfolding remove_zombie drop_without
  zombie_removed d a [] named dead = absurd (named refl)
  zombie_removed d a (c ∷ z) named dead =
      ap (λ o. drop_without R max_lock_hold_ms heartbeat_ttl_ms o d a (c ∷ z)) dead

  lock_taken :
      (d : Db) (a s : Text)
      → string_at d (get_lock_key a) ≡ none
      → ((try_lock R max_lock_hold_ms heartbeat_ttl_ms d a s).1 ≡ acquired)
        × (string_at (try_lock R max_lock_hold_ms heartbeat_ttl_ms d a s).0 (get_lock_key a)
            ≡ some s)
  unfolding try_lock
  lock_taken d a s h =
      let r = R.set_nx-free d (get_lock_key a) s max_lock_hold_ms h in
      (ap (λ b. if b then acquired else waits) r.0, r.1)

  round_of :
      (d : Db) (a s f : Text)
      → last_of (list_at d (get_queue_key a)) ≡ some f
      → round R max_lock_hold_ms heartbeat_ttl_ms (λ e. e) (λ e. e) d a s
        ≡ after_look R max_lock_hold_ms heartbeat_ttl_ms
            (some f)
            (refresh_heartbeat R max_lock_hold_ms heartbeat_ttl_ms d s)
            a
            s
  unfolding round
  round_of d a s f h =
      ap
        (λ o.
          after_look R max_lock_hold_ms heartbeat_ttl_ms o
            (refresh_heartbeat R max_lock_hold_ms heartbeat_ttl_ms d s) a s)
        (ap last_of (round_queue R max_lock_hold_ms heartbeat_ttl_ms d a s) ∙ h)

  first_gets :
      (fuel : ℕ) (d : Db) (a s : Text)
      → starts_with (normalize_address a) (codes "heartbeat:") ≡ false
      → string_at d (get_lock_key a) ≡ none
      → last_of (list_at d (get_queue_key a)) ≡ some s
      → (d' : Db) × (poll R max_lock_hold_ms heartbeat_ttl_ms (suc fuel) d a s ≡ some d')
        × (string_at d' (get_lock_key a) ≡ some s)
  first_gets fuel d a s ok free h =
      let beating = refresh_heartbeat R max_lock_hold_ms heartbeat_ttl_ms d s in
      let t = try_lock R max_lock_hold_ms heartbeat_ttl_ms beating a s in
      let got = lock_taken beating a s (beat_lock d a s ok ∙ free) in
      (
        t.0,
        poll_by fuel d a s t (
              round_of d a s s h
              ∙ after_look_first R max_lock_hold_ms heartbeat_ttl_ms s s beating a (text_eq_refl s))
            ∙ ap
                (λ q. elim q [
                  | acquired ↦ some t.0
                  | removed ↦ poll R max_lock_hold_ms heartbeat_ttl_ms fuel t.0 a s
                  | waits ↦ poll R max_lock_hold_ms heartbeat_ttl_ms fuel t.0 a s
                ])
                got.0,
        got.1,
      )

  zombie_goes :
      (fuel : ℕ) (d : Db) (a s z : Text)
      → last_of (list_at d (get_queue_key a)) ≡ some z
      → IsCrashed d s z
      → poll R max_lock_hold_ms heartbeat_ttl_ms (suc fuel) d a s
        ≡ poll R max_lock_hold_ms heartbeat_ttl_ms fuel
            (l_rem (refresh_heartbeat R max_lock_hold_ms heartbeat_ttl_ms d s) (get_queue_key a) z)
            a
            s
  unfolding IsCrashed
  zombie_goes fuel d a s z h (other, named, dead) =
      let beating = refresh_heartbeat R max_lock_hold_ms heartbeat_ttl_ms d s in
      poll_by fuel d a s (l_rem beating (get_queue_key a) z, removed)
        (round_of d a s z h
          ∙ after_look_other R max_lock_hold_ms heartbeat_ttl_ms z s beating a other
          ∙ zombie_removed beating a z named (beat_other d s z (text_eq_sym z s other) ∙ dead))

  is_other : (d : Db) (s z : Text) → IsCrashed d s z → text_eq s z ≡ false
  unfolding IsCrashed
  is_other d s z crashed = text_eq_sym z s crashed.0

  l_rem-IsCrashed :
      (d : Db) (a s z y : Text)
      → IsCrashed d s y
      → IsCrashed
          (l_rem (refresh_heartbeat R max_lock_hold_ms heartbeat_ttl_ms d s) (get_queue_key a) z)
          s
          y
  unfolding IsCrashed
  l_rem-IsCrashed d a s z y (other, named, dead) = (
    other,
    named,
    R.string_at-l_rem (refresh_heartbeat R max_lock_hold_ms heartbeat_ttl_ms d s) (get_queue_key a)
          z (get_heartbeat_key y)
        ∙ beat_other d s y (text_eq_sym y s other)
        ∙ dead,
  )

  -- When nobody holds the lock, and every session that joined the queue before a waiter has crashed,
  -- so that its heartbeat has expired, the waiter gets the lock: it removes them one by one, and one
  -- round more than they are is enough. The sessions have names, the address does not begin with
  -- "heartbeat:", and no other session acts meanwhile.
  pub poll-past_crashed :
      (fuel : ℕ) (d : Db) (a s : Text) (front behind : List Text)
      → starts_with (normalize_address a) (codes "heartbeat:") ≡ false
      → string_at d (get_lock_key a) ≡ none
      → list_at d (get_queue_key a) ≡ front ++ s ∷ behind
      → ((z : Text) → has z behind ≡ true → IsCrashed d s z)
      → length behind < fuel
      → (d' : Db) × (poll R max_lock_hold_ms heartbeat_ttl_ms fuel d a s ≡ some d')
        × (string_at d' (get_lock_key a) ≡ some s)
  poll-past_crashed zero d a s front behind ok free queue dead enough = absurd (ground arith)
  poll-past_crashed (suc fuel) d a s front behind ok free queue dead enough =
      elim (Option-cases (last_of behind)) [
        | inl e ↦ first_gets fuel d a s ok free (
            ap last_of queue
            ∙ ap (λ zs. last_of (front ++ s ∷ zs)) (last_of-none behind e)
            ∙ last_of-end front s)
        | inr (z, e) ↦
            let beating = refresh_heartbeat R max_lock_hold_ms heartbeat_ttl_ms d s in
            let crashed = dead z (last_of-has behind z e) in
            let rest =
              poll-past_crashed fuel (l_rem beating (get_queue_key a) z) a s (delete z front)
                (delete z behind) ok
                (R.string_at-l_rem beating (get_queue_key a) z (get_lock_key a)
                  ∙ beat_lock d a s ok
                  ∙ free)
                (R.list_at-l_rem beating (get_queue_key a) z
                  ∙ ap (delete z) (round_queue R max_lock_hold_ms heartbeat_ttl_ms d a s ∙ queue)
                  ∙ delete-behind front s behind z (is_other d s z crashed))
                (λ y h. l_rem-IsCrashed d a s z y (dead y (has-deleted y z behind h)))
                (ground (arith, length-delete z behind (last_of-has behind z e))) in
            (
              rest.0,
              zombie_goes fuel d a s z (ap last_of queue ∙ last_of-behind front s behind z e)
                    crashed
                  ∙ rest.1,
              rest.2,
            )
      ]
