-- ===== src/RateLimit/Window.antt =====
-- One call of `increment_and_check` as an update of the entry of its address.
use mpcq_json_rpc_relay.Prelude.{
  ℕ, ◌+◌, ◌-◌, ◌≡◌, ◌∙◌, Bool, true, false, Option, none, some, List, [], ◌∷◌, Text, lookup, insert,
  ltb, if◌then◌else◌, ◌>>=◌, arith, insert-insert, insert_same, lookup-insert_self, Option-cases,
  inl, inr, Bool-cases,
}
use mpcq_json_rpc_relay.RateLimit.{
  MethodDatabase, DatabaseEntry, LruRateLimitStore, RateLimitKey, precheck, should_reset,
  check_remaining, decrease_remaining, refill, reset, increment_and_check,
}

-- The entry that a call works on: a fresh window for an address that is not known.
abbrev pub entry_or_new : ℕ → ℕ → Option DatabaseEntry → DatabaseEntry
entry_or_new now duration none = record { reset = now + duration; method_info = [] }
entry_or_new now duration (some e) = e

abbrev pub info_or_new : Text → ℕ → Option MethodDatabase → MethodDatabase
info_or_new method limit none = record { method_name = method; remaining = limit; total = limit }
info_or_new method limit (some i) = i

-- The methods of the entry with the called one among them.
abbrev pub with_method : Text → ℕ → List (Text × MethodDatabase) → List (Text × MethodDatabase)
with_method method limit info = insert method (info_or_new method limit (lookup method info)) info

-- The entry after the call, and whether the call is limited.
unfoldable pub next_entry : ℕ → ℕ → DatabaseEntry → Text → ℕ → DatabaseEntry × Bool
next_entry now duration e method limit =
    let i = info_or_new method limit (lookup method e.method_info) in
    let known = with_method method limit e.method_info in
    if ltb e.reset now
    then (
      record {
        reset = now + duration;
        method_info =
            insert method (record i { remaining = limit - 1; total = limit }) (refill known);
      },
      false,
    )
    else (if ltb 0 i.remaining
        then (
          record e { method_info = insert method (record i { remaining = i.remaining - 1 }) known },
          false,
        )
        else (record e { method_info = known }, true))

lookup-refill :
    (m : Text) (info : List (Text × MethodDatabase)) (i : MethodDatabase)
    → lookup m info ≡ some i
    → lookup m (refill info) ≡ some (record i { remaining = i.total })
unfolding lookup refill
lookup-refill m [] i h = ground arith
lookup-refill m ((k, j) ∷ info) i h = ground (arith, lookup-refill m info i)

-- `precheck` leaves the store with the entry of the address and the method in it.
precheck-known :
    (now : ℕ) (s : LruRateLimitStore) (ip m : Text) (limit : ℕ)
    → let e = entry_or_new now s.duration (lookup ip s.database) in
      precheck now s ip m limit
      ≡ some (record s {
        database =
            insert ip (record e { method_info = with_method m limit e.method_info }) s.database;
      })
unfolding precheck lookup
precheck-known now s ip m limit = elim (Option-cases (lookup ip s.database)) [
  | inl new ↦
      let e : DatabaseEntry = record { reset = now + s.duration; method_info = [] } in
      ground (
        arith,
        lookup-insert_self ip e s.database,
        insert-insert ip (record e { method_info = insert m (info_or_new m limit none) [] }) e
            s.database,
      )
  | inr (e, old) ↦ elim (Option-cases (lookup m e.method_info)) [
    | inl missing ↦ ground arith
    | inr (i, there) ↦ ground (arith, insert_same ip e s.database, insert_same m i e.method_info)
  ]
]

-- The reads and writes of a store whose entry `e` holds the method as `i`.
module _ (s : LruRateLimitStore) (ip m : Text) (e : DatabaseEntry) (i : MethodDatabase)
    (he : lookup ip s.database ≡ some e) (hi : lookup m e.method_info ≡ some i) where
  decrease_remaining-known :
      decrease_remaining s ip m
      ≡ some (record s {
        database =
            insert ip
              (record e {
                method_info = insert m (record i { remaining = i.remaining - 1 }) e.method_info;
              })
              s.database;
      })
  unfolding decrease_remaining
  decrease_remaining-known = ground arith

  reset-known :
      (now limit : ℕ)
      → reset now s ip m limit
        ≡ some (record s {
          database =
              insert ip
                (record {
                  reset = now + s.duration;
                  method_info =
                      insert m
                        (record i { remaining = limit; total = limit })
                        (refill e.method_info);
                })
                s.database;
        })
  unfolding reset
  reset-known now limit = ground (arith, lookup-refill m e.method_info i)

-- What `increment_and_check` does after `precheck`.
abbrev checked : ℕ → Text → Text → ℕ → LruRateLimitStore → Option (LruRateLimitStore × Bool)
checked now ip m limit s₁ = do
  expired ← should_reset now s₁ ip
  if expired
      then (do s₂ ← reset now s₁ ip m limit; s₃ ← decrease_remaining s₂ ip m; some (s₃, false))
      else (do
        left ← check_remaining s₁ ip m
        if left then (do s₂ ← decrease_remaining s₁ ip m; some (s₂, false)) else some (s₁, true))

checked-next_entry :
    (now : ℕ) (s : LruRateLimitStore) (ip m : Text) (limit : ℕ) (e : DatabaseEntry)
    (i : MethodDatabase)
    → lookup ip s.database ≡ some e
    → lookup m e.method_info ≡ some i
    → let r = next_entry now s.duration e m limit in
      checked now ip m limit s ≡ some (record s { database = insert ip r.0 s.database }, r.1)
unfolding should_reset check_remaining next_entry
checked-next_entry now s ip m limit e i he hi = elim (Bool-cases (ltb e.reset now)) [
  | inl old ↦
      let filled =
        insert m (record i { remaining = limit; total = limit }) (refill e.method_info) in
      let e' : DatabaseEntry = record { reset = now + s.duration; method_info = filled } in
      ground (
        arith,
        reset-known s ip m e i he hi now limit,
        decrease_remaining-known (record s { database = insert ip e' s.database }) ip m e'
            (record i { remaining = limit; total = limit }) (lookup-insert_self ip e' s.database)
            (lookup-insert_self m _ (refill e.method_info)),
        insert_same m i e.method_info hi,
        insert-insert m (record i { remaining = limit - 1; total = limit })
            (record i { remaining = limit; total = limit }) (refill e.method_info),
        insert-insert ip
            (record e' {
              method_info = insert m (record i { remaining = limit - 1; total = limit }) filled;
            })
            e' s.database,
      )
  | inr new ↦ ground (
    arith,
    decrease_remaining-known s ip m e i he hi,
    insert_same m i e.method_info hi,
    insert_same ip e s.database he,
  )
]

-- The method that `precheck` adds is the one that the entry would be given anyway.
next_entry-with_method :
    (now duration : ℕ) (e : DatabaseEntry) (m : Text) (limit : ℕ)
    → next_entry now duration (record e { method_info = with_method m limit e.method_info }) m limit
      ≡ next_entry now duration e m limit
unfolding next_entry
next_entry-with_method now duration e m limit =
    let i = info_or_new m limit (lookup m e.method_info) in
    rw (lookup-insert_self m i e.method_info, insert-insert)

-- A call never throws, and does no more than this update to the entry of its own address.
pub increment_and_check-next_entry :
    (now : ℕ) (s : LruRateLimitStore) (key : RateLimitKey) (limit : ℕ)
    → let e = entry_or_new now s.duration (lookup key.ip s.database) in
      let r = next_entry now s.duration e key.method limit in
      increment_and_check now s key limit
      ≡ some (record s { database = insert key.ip r.0 s.database }, r.1)
unfolding increment_and_check
increment_and_check-next_entry now s key limit =
    let e = entry_or_new now s.duration (lookup key.ip s.database) in
    let i = info_or_new key.method limit (lookup key.method e.method_info) in
    let e₁ = record e { method_info = with_method key.method limit e.method_info } in
    let s₁ = record s { database = insert key.ip e₁ s.database } in
    rw (precheck-known) (
      checked-next_entry now s₁ key.ip key.method limit e₁ i
        (lookup-insert_self key.ip e₁ s.database) (lookup-insert_self key.method i e.method_info)
      ∙ rw (next_entry-with_method now s.duration e key.method limit, insert-insert))
