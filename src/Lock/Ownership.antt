-- ===== src/Lock/Ownership.antt =====
-- The invariant of the locks, and who can end a hold.
use mpcq_json_rpc_relay.Prelude.{
  ℕ, ◌<◌, ◌≡◌, ◌≢◌, ◌⊎◌, inl, inr, Bool, true, false, Option, none, some, Text, text_eq, arith,
  text_eq_iff, Bool-cases, Option-cases,
}
use mpcq_json_rpc_relay.Prelude.Lru.{LruCache}
use mpcq_json_rpc_relay.Lock.Strategy.{
  MutexPackage, LocalLockStrategy, normalize_address, get_or_create_state, enter, release_lock,
  force_release_expired_lock, do_release, is_session,
}

abbrev pub is_held : Option Text → Bool
is_held none = false
is_held (some k) = true

module _ (M : MutexPackage) (L : LruCache ℕ) where
  open M use {is_locked, new-free, acquire-locked, acquire-free, release-free}
  open L use {find, find-touch, find-set_self, find-set_ne}

  -- A mutex is locked exactly while its state names a session; references are below `next_ref`,
  -- and no two addresses share one.
  pub record IsConsistent (s : LocalLockStrategy M L) : Type 0 where
    pub locked :
        (r : ℕ) → r < s.next_ref → is_locked (s.heap r).mutex ≡ is_held (s.heap r).session_key
    pub refs : (a : Text) (r : ℕ) → find s.local_lock_states a ≡ some r → r < s.next_ref
    pub apart :
        (a b : Text) (r : ℕ)
        → find s.local_lock_states a ≡ some r
        → find s.local_lock_states b ≡ some r
        → a ≡ b

  pub acquire-some :
      (m m' : M.Mutex) → M.acquire m ≡ some m' → (is_locked m ≡ false) × (is_locked m' ≡ true)
  acquire-some m m' e = elim (Bool-cases (is_locked m)) [
    | inl taken ↦ absurd (ground (arith, acquire-locked m taken))
    | inr free ↦ let (n, got, held) = acquire-free m free in (free, ground (arith, got, held))
  ]

  module _ (s : LocalLockStrategy M L) (v : IsConsistent s) where
    find-old :
        (k a : Text) (r : ℕ)
        → k ≢ a
        → find (L.touch (L.set s.local_lock_states k s.next_ref) k) a ≡ some r
        → find s.local_lock_states a ≡ some r
    find-old k a r ne h = ground (
      arith,
      find-touch (L.set s.local_lock_states k s.next_ref) k a,
      find-set_ne s.local_lock_states k a s.next_ref ne,
    )

    find-new :
        (k a : Text) (r : ℕ)
        → find (L.touch (L.set s.local_lock_states k s.next_ref) k) a ≡ some r
        → ((k ≡ a) × (r ≡ s.next_ref)) ⊎ (find s.local_lock_states a ≡ some r)
    find-new k a r h = elim (Bool-cases (text_eq k a)) [
      | inl same ↦ inl (
        (text_eq_iff k a).0 same,
        ground (
          arith,
          (text_eq_iff k a).0 same,
          find-touch (L.set s.local_lock_states k s.next_ref) k a,
          find-set_self s.local_lock_states k s.next_ref,
        ),
      )
      | inr other ↦ inr (find-old k a r (λ e. ground (arith, text_eq_iff k a)) h)
    ]

    pub get_or_create_state-IsConsistent : (a : Text) → IsConsistent (get_or_create_state M L s a).0
    unfolding get_or_create_state
    get_or_create_state-IsConsistent a =
        elim (Option-cases (find s.local_lock_states (normalize_address a))) [
          | inr (r, old) ↦
              rw (old, get_or_create_state)
                (record {
                  locked = v.locked;
                  refs = λ b q h.
                      ground
                        (arith, find-touch s.local_lock_states (normalize_address a) b, v.refs b q);
                  apart = λ b c q h g. ground (
                    arith,
                    find-touch s.local_lock_states (normalize_address a) b,
                    find-touch s.local_lock_states (normalize_address a) c,
                    v.apart b c q,
                  );
                })
          | inl new ↦
              rw (new, get_or_create_state)
                (record {
                  locked = λ q h. ground (arith, v.locked q, new-free);
                  refs = λ b q h. ground (arith, find-new (normalize_address a) b q h, v.refs b q);
                  apart = λ b c q h g. ground (
                    arith,
                    find-new (normalize_address a) b q h,
                    find-new (normalize_address a) c q g,
                    v.refs b q,
                    v.refs c q,
                    v.apart b c q,
                  );
                })
        ]

    pub do_release-IsConsistent : (r : ℕ) → IsConsistent (do_release M L s r)
    unfolding do_release
    do_release-IsConsistent r = record {
      locked = λ q h. ground (arith, v.locked q, release-free (s.heap q).mutex);
      refs = v.refs;
      apart = v.apart;
    }

    pub enter-IsConsistent :
        (r now : ℕ) (a k : Text) (s' : LocalLockStrategy M L)
        → r < s.next_ref
        → enter M L s r a k now ≡ some s'
        → IsConsistent s'
    unfolding enter
    enter-IsConsistent r now a k s' h e = elim (Option-cases (M.acquire (s.heap r).mutex)) [
      | inl none_ ↦ absurd (ground arith)
      | inr (m, got) ↦
          let free = acquire-some (s.heap r).mutex m got in
          record {
            locked = λ q lt. ground (arith, v.locked q, free);
            refs = λ b q f. ground (arith, v.refs b q);
            apart = λ b c q f g. ground (arith, v.apart b c q);
          }
    ]

  touch-IsConsistent :
      (s : LocalLockStrategy M L) (k : Text)
      → IsConsistent s
      → IsConsistent (record s { local_lock_states = L.touch s.local_lock_states k })
  touch-IsConsistent s k v = record {
    locked = v.locked;
    refs = λ a r h. ground (arith, find-touch s.local_lock_states k a, v.refs a r);
    apart = λ a b r h g. ground (
      arith,
      find-touch s.local_lock_states k a,
      find-touch s.local_lock_states k b,
      v.apart a b r,
    );
  }

  -- Both ways to end a hold are this: nothing, or the release of the address's state if it is
  -- the session's.
  pub release_lock-cases {ℓ} :
      (P : LocalLockStrategy M L → Type ℓ) (s : LocalLockStrategy M L) (a k : Text)
      → (let s' = record s {
        local_lock_states = L.touch s.local_lock_states (normalize_address a);
      } in
          P s'
          × ((r : ℕ)
              → find s.local_lock_states (normalize_address a) ≡ some r
              → is_session M L (s.heap r).session_key k ≡ true
              → P (do_release M L s' r)))
      → P (release_lock M L s a k) × P (force_release_expired_lock M L s a k)
  unfolding release_lock force_release_expired_lock
  release_lock-cases P s a k (kept, released) =
      elim (Option-cases (find s.local_lock_states (normalize_address a))) [
        | inl e ↦ rw (e, release_lock, force_release_expired_lock) (kept, kept)
        | inr (r, e) ↦ elim (Bool-cases (is_session M L (s.heap r).session_key k)) [
          | inl own ↦
              rw (e, own, release_lock, force_release_expired_lock)
                (released r e own, released r e own)
          | inr other ↦ rw (e, other, release_lock, force_release_expired_lock) (kept, kept)
        ]
      ]

  pub release_lock-IsConsistent :
      (s : LocalLockStrategy M L) (a k : Text)
      → IsConsistent s
      → IsConsistent (release_lock M L s a k) × IsConsistent (force_release_expired_lock M L s a k)
  release_lock-IsConsistent s a k v =
      release_lock-cases IsConsistent s a k
        (touch-IsConsistent s _ v, λ r _ _. do_release-IsConsistent _ (touch-IsConsistent s _ v) r)
