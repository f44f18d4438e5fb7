-- ===== src/Lock/RedisSafety.antt =====
-- Mutual exclusion of the lock in Redis: what the commands of any number of sessions do to the key of
-- a lock that is held.
use mpcq_json_rpc_relay.Prelude.{
  ℕ, ◌≡◌, ◌≢◌, inl, inr, refl, sym, ◌∙◌, false, Option, none, some, List, [], ◌∷◌, ◌++◌, Text,
  codes, text_eq, text_eq_iff, starts_with, if◌then◌else◌, Bool-cases, true, arith, ap,
}
use mpcq_json_rpc_relay.Lock.Strategy.{normalize_address}
use mpcq_json_rpc_relay.Lock.Redis.{
  RedisKeys, get_lock_key, get_queue_key, get_heartbeat_key, join_queue, refresh_heartbeat,
  remove_from_queue, try_lock, drop_without, remove_zombie, is_session, release_script,
  release_lock,
}

-- One command of a session: of an address, by a session. `removes` is the removal of a first in the
-- queue without a heartbeat.
pub data Command : Type 0 where
  joins : Text → Text → Command
  beats : Text → Command
  tries : Text → Text → Command
  removes : Text → Text → Command
  leaves : Text → Text → Command
  releases : Text → Text → Command

text_eq-prefix : (p s n : Text) → starts_with n p ≡ false → text_eq (p ++ s) n ≡ false
unfolding text_eq starts_with
text_eq-prefix [] s n h = ground arith
text_eq-prefix (c ∷ p) s [] h = refl
text_eq-prefix (c ∷ p) s (d ∷ n) h = ground (arith, text_eq-prefix p s n)

-- The key of a heartbeat is not the key of a lock.
pub heartbeat-lock_key :
    (s a : Text)
    → starts_with (normalize_address a) (codes "heartbeat:") ≡ false
    → text_eq (get_heartbeat_key s) (get_lock_key a) ≡ false
unfolding get_heartbeat_key get_lock_key text_eq
heartbeat-lock_key s a h = text_eq-prefix (codes "heartbeat:") s (normalize_address a) h

is_session-eq : (s h : Text) → is_session (some h) s ≡ true → s ≡ h
unfolding is_session
is_session-eq s h e = sym ((text_eq_iff h s).0 e)

module _ (R : RedisKeys) (max_lock_hold_ms heartbeat_ttl_ms : ℕ) where
  open R use {Db, string_at}

  unfoldable pub step : Command → Db → Db
  unfolding join_queue refresh_heartbeat remove_from_queue try_lock remove_zombie release_lock
  step (joins a s) d = join_queue R max_lock_hold_ms heartbeat_ttl_ms d a s
  step (beats s) d = refresh_heartbeat R max_lock_hold_ms heartbeat_ttl_ms d s
  step (tries a s) d = (try_lock R max_lock_hold_ms heartbeat_ttl_ms d a s).0
  step (removes a f) d = (remove_zombie R max_lock_hold_ms heartbeat_ttl_ms d a f).0
  step (leaves a s) d = remove_from_queue R max_lock_hold_ms heartbeat_ttl_ms d a s
  step (releases a s) d = release_lock R max_lock_hold_ms heartbeat_ttl_ms d a s

  unfoldable pub run : List Command → Db → Db
  unfolding step
  run [] d = d
  run (c ∷ cs) d = run cs (step c d)

  -- The command is no release by the session.
  unfoldable pub NotBy : Text → Command → Type 0
  NotBy h (joins a s) = Unit
  NotBy h (beats s) = Unit
  NotBy h (tries a s) = Unit
  NotBy h (removes a f) = Unit
  NotBy h (leaves a s) = Unit
  NotBy h (releases a s) = s ≢ h

  unfoldable pub NoneBy : Text → List Command → Type 0
  unfolding NotBy
  NoneBy h [] = Unit
  NoneBy h (c ∷ cs) = NotBy h c × NoneBy h cs

  set_nx-holder :
      (d : Db) (k j s h : Text)
      → string_at d j ≡ some h
      → string_at (R.set_nx d k s max_lock_hold_ms).0 j ≡ some h
  set_nx-holder d k j s h held = elim (Bool-cases (text_eq k j)) [
    | inl e ↦ rw (R.set_nx-taken d k s h max_lock_hold_ms (rw ((text_eq_iff k j).0 e) held)) held
    | inr e ↦ R.set_nx-elsewhere d k s j max_lock_hold_ms e ∙ held
  ]

  -- The script keeps the key of a holder: it deletes another key, or finds that the session differs.
  script-holder :
      (d : Db) (k j s h : Text)
      → string_at d j ≡ some h
      → s ≢ h
      → string_at (release_script R max_lock_hold_ms heartbeat_ttl_ms d k s).0 j ≡ some h
  unfolding release_script
  script-holder d k j s h held other = elim (Bool-cases (is_session (string_at d k) s)) [
    | inr e ↦ rw e held
    | inl mine ↦ rw mine (elim (Bool-cases (text_eq k j)) [
      | inl e ↦
          let found = ap (string_at d) ((text_eq_iff k j).0 e) ∙ held in
          absurd (other (is_session-eq s h (ap (λ o. is_session o s) (sym found) ∙ mine)))
      | inr e ↦ R.string_at-del d k j ∙ ap (λ b. if b then none else string_at d j) e ∙ held
    ])
  ]

  drop_without-holder :
      (d : Db) (b f a h : Text)
      → string_at d (get_lock_key a) ≡ some h
      → (beat : Option Text)
      → string_at (drop_without R max_lock_hold_ms heartbeat_ttl_ms beat d b f).0 (get_lock_key a)
        ≡ some h
  unfolding drop_without
  drop_without-holder d b f a h held none =
      R.string_at-l_rem d (get_queue_key b) f (get_lock_key a) ∙ held
  drop_without-holder d b f a h held (some x) = held

  step-holder :
      (d : Db) (c : Command) (a h : Text)
      → starts_with (normalize_address a) (codes "heartbeat:") ≡ false
      → string_at d (get_lock_key a) ≡ some h
      → NotBy h c
      → string_at (step c d) (get_lock_key a) ≡ some h
  unfolding step NotBy join_queue refresh_heartbeat remove_from_queue try_lock remove_zombie
      release_lock
  step-holder d (joins b s) a h ok held other =
      R.string_at-l_push d (get_queue_key b) s (get_lock_key a) ∙ held
  step-holder d (beats s) a h ok held other =
      R.string_at-set d (get_heartbeat_key s) (codes "1") (get_lock_key a) heartbeat_ttl_ms
      ∙ ap (λ e. if e then some (codes "1") else string_at d (get_lock_key a))
          (heartbeat-lock_key s a ok)
      ∙ held
  step-holder d (tries b s) a h ok held other =
      set_nx-holder d (get_lock_key b) (get_lock_key a) s h held
  step-holder d (removes b []) a h ok held other = held
  step-holder d (removes b (x ∷ f)) a h ok held other =
      drop_without-holder d b (x ∷ f) a h held (string_at d (get_heartbeat_key (x ∷ f)))
  step-holder d (leaves b s) a h ok held other =
      R.string_at-l_rem_one d (get_queue_key b) s (get_lock_key a) ∙ held
  step-holder d (releases b s) a h ok held other =
      script-holder d (get_lock_key b) (get_lock_key a) s h held other

  -- Mutual exclusion until the lock expires: while a session holds the lock of an address and no
  -- release of that session stands among the commands, whatever the sessions do in whatever order,
  -- releases of others included, leaves the session as the holder. The address does not begin with
  -- "heartbeat:". That the key of the lock expires is not among the commands.
  pub run-holder :
      (cs : List Command) (d : Db) (a h : Text)
      → starts_with (normalize_address a) (codes "heartbeat:") ≡ false
      → string_at d (get_lock_key a) ≡ some h
      → NoneBy h cs
      → string_at (run cs d) (get_lock_key a) ≡ some h
  unfolding run NoneBy
  run-holder [] d a h ok held others = held
  run-holder (c ∷ cs) d a h ok held others =
      run-holder cs (step c d) a h ok (step-holder d c a h ok held others.0) others.1
