-- ===== src/Caching/Reading.antt =====
-- What reads of the cache see after writes.
use mpcq_json_rpc_relay.Prelude.{
  ℕ, ◌+◌, ◌≡◌, ◌≢◌, ◌∙◌, inl, inr, refl, sym, ap, subst, Option, some, List, [], ◌∷◌, ◌++◌, Text,
  length, length-append, arith, Bool-cases, Option-cases,
}
use mpcq_json_rpc_relay.Prelude.Int.{ℤ, pos, negsuc, ◌+ℤ◌}
use mpcq_json_rpc_relay.Prelude.Sets.{has}
use mpcq_json_rpc_relay.Caching.Local.{
  CacheValue, array, LruPackage, place, take, drop, slice, prefix_key, LocalLruCache, is_reserved,
  get_cache_instance, with_instance, get, get_remaining_ttl, set, delete, resolved, plus, incr_by,
  values_of, l_range, r_push,
}

-- -1 is the place of the last element, and the end of the slice the place after it.
last_place : (n : ℕ) → place n (pos n +ℤ negsuc 0 +ℤ pos 1) ≡ n
unfolding place ◌+ℤ◌
last_place n = ground arith

module _ (P : LruPackage) (default_ttl : ℕ) (concat : CacheValue → ℤ → CacheValue) where
  -- The value that a read returns.
  abbrev pub value : LocalLruCache P default_ttl concat → Text → Option CacheValue
  value s key = P.find (get_cache_instance P default_ttl concat s key) (prefix_key key)

  with_instance-same :
      (s : LocalLruCache P default_ttl concat) (key : Text) (store : P.Store)
      → get_cache_instance P default_ttl concat (with_instance P default_ttl concat s key store) key
        ≡ store
  unfolding get_cache_instance with_instance is_reserved
  with_instance-same s key store = elim (Option-cases s.reserved_cache) [
    | inl e ↦ ground (arith, e)
    | inr (r, e) ↦ elim (Bool-cases (has key s.reserved_keys)) [
      | inl h ↦ ground (arith, e, h)
      | inr h ↦ ground (arith, e, h)
    ]
  ]

  -- A write to the instance of one key leaves the other instance alone.
  with_instance-apart :
      (s : LocalLruCache P default_ttl concat) (key other : Text) (store : P.Store)
      → is_reserved P default_ttl concat s key ≢ is_reserved P default_ttl concat s other
      → get_cache_instance P default_ttl concat
          (with_instance P default_ttl concat s key store)
          other
        ≡ get_cache_instance P default_ttl concat s other
  unfolding get_cache_instance with_instance is_reserved
  with_instance-apart s key other store ne = elim (Option-cases s.reserved_cache) [
    | inl e ↦ absurd (ne (ground (arith, e)))
    | inr (r, e) ↦ elim (Bool-cases (has key s.reserved_keys)) [
      | inl h ↦ elim (Bool-cases (has other s.reserved_keys)) [
        | inl g ↦ absurd (ne (ground (arith, e, h, g)))
        | inr g ↦ ground (arith, e, h, g)
      ]
      | inr h ↦ elim (Bool-cases (has other s.reserved_keys)) [
        | inl g ↦ ground (arith, e, h, g)
        | inr g ↦ absurd (ne (ground (arith, e, h, g)))
      ]
    ]
  ]

  get-value :
      (s : LocalLruCache P default_ttl concat) (key : Text)
      → (get P default_ttl concat s key).1 ≡ value s key
  unfolding get
  get-value s key = refl

  value-set :
      (s : LocalLruCache P default_ttl concat) (key : Text) (v : CacheValue) (ttl : Option ℕ)
      → value (set P default_ttl concat s key v ttl) key ≡ some v
  unfolding set
  value-set s key v ttl =
      let old = get_cache_instance P default_ttl concat s key in
      let t = resolved P default_ttl concat ttl in
      subst (λ x. P.find x (prefix_key key) ≡ some v)
        (sym (with_instance-same s key (P.set old (prefix_key key) v t)))
        (P.find-set old (prefix_key key) v t)

  -- To write or delete a key leaves the value of every key of the other instance as it was: whatever
  -- the shared cache evicts, it evicts no reserved key.
  pub value-set_apart :
      (s : LocalLruCache P default_ttl concat) (key other : Text) (v : CacheValue) (ttl : Option ℕ)
      → is_reserved P default_ttl concat s key ≢ is_reserved P default_ttl concat s other
      → (value (set P default_ttl concat s key v ttl) other ≡ value s other)
        × (value (delete P default_ttl concat s key) other ≡ value s other)
        × (value (set P default_ttl concat s key v ttl) key ≡ some v)
  unfolding set delete
  value-set_apart s key other v ttl ne =
      let old = get_cache_instance P default_ttl concat s key in
      let t = resolved P default_ttl concat ttl in
      (
        ap (λ x. P.find x (prefix_key other))
            (with_instance-apart s key other (P.set old (prefix_key key) v t) ne),
        ap (λ x. P.find x (prefix_key other))
            (with_instance-apart s key other (P.delete old (prefix_key key)) ne),
        value-set s key v ttl,
      )

  take_all : (xs : List Text) → take (length xs) xs ≡ xs
  unfolding take
  take_all [] = refl
  take_all (x ∷ xs) = ap (λ ys. x ∷ ys) (take_all xs)

  slice_all : (xs : List Text) → slice xs (pos 0) (pos (length xs) +ℤ negsuc 0 +ℤ pos 1) ≡ xs
  unfolding slice place drop
  slice_all xs = let e = last_place (length xs) in rw e (take_all xs)

  r_push_lem :
      (s : LocalLruCache P default_ttl concat) (key v : Text) (values : List Text)
      → values_of P default_ttl concat (value s key) ≡ some values
      → let s₁ = (get P default_ttl concat s key).0 in
        r_push P default_ttl concat s key v ≡ (
          set P default_ttl concat s₁ key
              (array (values ++ v ∷ []))
              (get_remaining_ttl P default_ttl concat s₁ key),
          some (length (values ++ v ∷ [])),
        )
  unfolding r_push get
  r_push_lem s key v values h = ground (arith, h)

  l_range_lem :
      (s : LocalLruCache P default_ttl concat) (key : Text) (values : List Text)
      → value s key ≡ some (array values)
      → (l_range P default_ttl concat s key (pos 0) (negsuc 0)).1 ≡ some values
  unfolding l_range get
  l_range_lem s key values h = let e = slice_all values in ground (arith, h, e)

  -- A pushed value is the last of the list: afterwards the whole range is the list that was there, or
  -- the empty one, followed by the value, and the push returns its length.
  pub r_push-l_range :
      (s : LocalLruCache P default_ttl concat) (key v : Text) (values : List Text)
      → values_of P default_ttl concat (value s key) ≡ some values
      → let s' = (r_push P default_ttl concat s key v).0 in
        ((r_push P default_ttl concat s key v).1 ≡ some (length values + 1))
        × ((l_range P default_ttl concat s' key (pos 0) (negsuc 0)).1 ≡ some (values ++ v ∷ []))
  r_push-l_range s key v values h =
      let s₁ = (get P default_ttl concat s key).0 in
      let all = values ++ v ∷ [] in
      let ttl = get_remaining_ttl P default_ttl concat s₁ key in
      let pushed : r_push P default_ttl concat s key v
          ≡ (set P default_ttl concat s₁ key (array all) ttl, some (length all)) =
        r_push_lem s key v values h in
      let n = length-append values (v ∷ []) in
      (
        ap (λ r. r.1) pushed ∙ ap some (omega (arith, n)),
        subst (λ r. (l_range P default_ttl concat r.0 key (pos 0) (negsuc 0)).1 ≡ some all)
            (sym pushed)
            (l_range_lem (set P default_ttl concat s₁ key (array all) ttl) key all
              (value-set s₁ key (array all) ttl)),
      )

  -- An increment returns the sum, counting a missing value as 0, and the sum is read afterwards.
  pub incr_by_lem :
      (s : LocalLruCache P default_ttl concat) (key : Text) (amount : ℤ)
      → ((incr_by P default_ttl concat s key amount).1
          ≡ plus P default_ttl concat (value s key) amount)
        × (value (incr_by P default_ttl concat s key amount).0 key
            ≡ some (plus P default_ttl concat (value s key) amount))
  unfolding incr_by get
  incr_by_lem s key amount =
      let s₁ = (get P default_ttl concat s key).0 in
      (
        refl,
        value-set s₁ key (plus P default_ttl concat (value s key) amount)
            (get_remaining_ttl P default_ttl concat s₁ key),
      )
