-- ===== src/Caching/Local.antt =====
-- LocalLRUCache (packages/relay/src/lib/clients/cache/localLRUCache.ts): a shared cache, and one of
-- its own for the reserved keys. Each operation returns the caches after it. `keys` matches with a
-- regular expression and is not modelled, nor are logs and the gauge.
use mpcq_json_rpc_relay.Prelude.{
  ℕ, zero, suc, ◌-◌, ◌≡◌, Bool, false, Option, none, some, List, [], ◌∷◌, ◌++◌, Text, codes,
  if◌then◌else◌, ltb, length,
}
use mpcq_json_rpc_relay.Prelude.Int.{ℤ, pos, negsuc, ◌+ℤ◌}
use mpcq_json_rpc_relay.Prelude.Sets.{has}

-- What is cached: a number, a list, or anything else by its text.
pub data CacheValue : Type 0 where
  number : ℤ → CacheValue
  array : List Text → CacheValue
  other : Text → CacheValue

-- The package lru-cache with a time to live per entry, while no time passes: `none` is a time without
-- end.
pub record LruPackage : Type 1 where
  pub Store : Type 0
  pub empty : Store
  pub find : Store → Text → Option CacheValue
  pub touch : Store → Text → Store
  pub set : Store → Text → CacheValue → Option ℕ → Store
  pub delete : Store → Text → Store
  pub get_remaining_ttl : Store → Text → Option ℕ
  pub find-touch : (s : Store) (k j : Text) → find (touch s k) j ≡ find s j
  pub find-set :
      (s : Store) (k : Text) (v : CacheValue) (ttl : Option ℕ) → find (set s k v ttl) k ≡ some v
  pub find-delete : (s : Store) (k : Text) → find (delete s k) k ≡ none

-- `lRange` and `rPush` throw for a value that is no array: they return none.
-- The place that a number means in `slice`: a negative one counts from the end.
unfoldable pub place : ℕ → ℤ → ℕ
place n (pos i) = i
place n (negsuc i) = n - suc i

unfoldable pub take : ℕ → List Text → List Text
take zero xs = []
take (suc n) [] = []
take (suc n) (x ∷ xs) = x ∷ take n xs

unfoldable pub drop : ℕ → List Text → List Text
drop zero xs = xs
drop (suc n) [] = []
drop (suc n) (x ∷ xs) = drop n xs

-- `values.slice(start, end)`.
unfoldable pub slice : List Text → ℤ → ℤ → List Text
unfolding place take drop
slice values start end = let n = length values in drop (place n start) (take (place n end) values)

-- `prefixKey`.
unfoldable pub prefix_key : Text → Text
prefix_key key = codes "cache:" ++ key

-- `default_ttl` is the option CACHE_TTL; `concat` is `+` of a value that is no number.
module _ (P : LruPackage) (default_ttl : ℕ) (concat : CacheValue → ℤ → CacheValue) where
  pub record LocalLruCache : Type 0 where
    pub cache : P.Store
    pub reserved_keys : List Text
    pub reserved_cache : Option P.Store

  -- The constructor.
  unfoldable pub new : List Text → LocalLruCache
  new reserved_keys = record {
    cache = P.empty;
    reserved_keys = reserved_keys;
    reserved_cache = if ltb 0 (length reserved_keys) then some P.empty else none;
  }

  -- Whether `getCacheInstance` is the cache of the reserved keys.
  unfoldable pub is_reserved : LocalLruCache → Text → Bool
  is_reserved s key = elim s.reserved_cache [ none ↦ false | some r ↦ has key s.reserved_keys ]

  unfoldable pub get_cache_instance : LocalLruCache → Text → P.Store
  unfolding is_reserved
  get_cache_instance s key = elim s.reserved_cache [
    | none ↦ s.cache
    | some r ↦ if is_reserved s key then r else s.cache
  ]

  -- The caches after a change of the instance of a key.
  unfoldable pub with_instance : LocalLruCache → Text → P.Store → LocalLruCache
  unfolding is_reserved
  with_instance s key store =
      if is_reserved s key
      then record s { reserved_cache = some store }
      else record s { cache = store }

  unfoldable pub get : LocalLruCache → Text → LocalLruCache × Option CacheValue
  unfolding prefix_key get_cache_instance with_instance
  get s key =
      let store = get_cache_instance s key in
      (with_instance s key (P.touch store (prefix_key key)), P.find store (prefix_key key))

  unfoldable pub get_remaining_ttl : LocalLruCache → Text → Option ℕ
  unfolding prefix_key get_cache_instance
  get_remaining_ttl s key = P.get_remaining_ttl (get_cache_instance s key) (prefix_key key)

  -- The time to live that is passed on: 0 means indefinite time.
  abbrev pub resolved : Option ℕ → Option ℕ
  resolved (some zero) = none
  resolved ttl = ttl

  -- With a time to live; `set_default` is `set` without one.
  unfoldable pub set : LocalLruCache → Text → CacheValue → Option ℕ → LocalLruCache
  unfolding prefix_key get_cache_instance with_instance
  set s key value ttl =
      with_instance s key (P.set (get_cache_instance s key) (prefix_key key) value (resolved ttl))

  unfoldable pub set_default : LocalLruCache → Text → CacheValue → LocalLruCache
  unfolding set
  set_default s key value = set s key value (some default_ttl)

  unfoldable pub delete : LocalLruCache → Text → LocalLruCache
  unfolding prefix_key get_cache_instance with_instance
  delete s key = with_instance s key (P.delete (get_cache_instance s key) (prefix_key key))

  unfoldable pub clear : LocalLruCache → LocalLruCache
  clear s = record s {
    cache = P.empty;
    reserved_cache = elim s.reserved_cache [ none ↦ none | some r ↦ some P.empty ];
  }

  -- `value + amount`, where `null` counts as 0.
  abbrev pub plus : Option CacheValue → ℤ → CacheValue
  plus none amount = number amount
  plus (some (number n)) amount = number (n +ℤ amount)
  plus (some v) amount = concat v amount

  unfoldable pub incr_by : LocalLruCache → Text → ℤ → LocalLruCache × CacheValue
  unfolding get get_remaining_ttl set
  incr_by s key amount =
      let (s₁, value) = get s key in
      let new_value = plus value amount in
      (set s₁ key new_value (get_remaining_ttl s₁ key), new_value)

  -- `value ?? []`, when it is an array.
  abbrev pub values_of : Option CacheValue → Option (List Text)
  values_of none = some []
  values_of (some (array values)) = some values
  values_of (some v) = none

  unfoldable pub l_range : LocalLruCache → Text → ℤ → ℤ → LocalLruCache × Option (List Text)
  unfolding get slice
  l_range s key start end =
      let (s₁, value) = get s key in
      (
        s₁,
        elim (values_of value) [
          | none ↦ none
          | some values ↦ some (
              slice values start (elim end [
                | pos i ↦ pos i +ℤ pos 1
                | negsuc i ↦ pos (length values) +ℤ negsuc i +ℤ pos 1
              ]))
        ],
      )

  unfoldable pub r_push : LocalLruCache → Text → Text → LocalLruCache × Option ℕ
  unfolding get get_remaining_ttl set
  r_push s key value =
      let (s₁, found) = get s key in
      elim (values_of found) [
        | none ↦ (s₁, none)
        | some values ↦
            let pushed = values ++ value ∷ [] in
            (set s₁ key (array pushed) (get_remaining_ttl s₁ key), some (length pushed))
      ]
