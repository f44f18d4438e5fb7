-- ===== src/Caching/Examples.antt =====
-- A cache over an association list with one reserved key, and the theorems at it.
use mpcq_json_rpc_relay.Prelude.{
  ℕ, ◌≡◌, ◌≢◌, refl, Option, none, some, List, [], ◌∷◌, Text, codes, lookup, insert, remove,
  lookup-insert_self, lookup-remove, text_eq_refl, arith, text_eq,
}
use mpcq_json_rpc_relay.Prelude.Int.{ℤ, pos}
use mpcq_json_rpc_relay.Prelude.Sets.{has}
use mpcq_json_rpc_relay.Caching.Local.{
  CacheValue, number, LruPackage, LocalLruCache, is_reserved, new, set, set_default, values_of,
  get_cache_instance, prefix_key, with_instance,
}
use mpcq_json_rpc_relay.Caching.Reading.{value}

abbrev Entries : Type 0
Entries = List (Text × (CacheValue × Option ℕ))

abbrev found : Option (CacheValue × Option ℕ) → Option CacheValue
found none = none
found (some (v, ttl)) = some v

abbrev ttl_of : Option (CacheValue × Option ℕ) → Option ℕ
ttl_of none = some 0
ttl_of (some (v, ttl)) = ttl

found-insert :
    (s : Entries) (k : Text) (v : CacheValue) (ttl : Option ℕ)
    → found (lookup k (insert k (v, ttl) s)) ≡ some v
found-insert s k v ttl = rw (lookup-insert_self k (v, ttl) s) refl

found-remove : (s : Entries) (k : Text) → found (lookup k (remove k s)) ≡ none
found-remove s k = ground (arith, lookup-remove k k s, text_eq_refl k)

abbrev map_package : LruPackage
map_package = record {
  Store = Entries;
  empty = [];
  find = λ s k. found (lookup k s);
  touch = λ s k. s;
  set = λ s k v ttl. insert k (v, ttl) s;
  delete = λ s k. remove k s;
  get_remaining_ttl = λ s k. ttl_of (lookup k s);
  find-touch = λ s k j. refl;
  find-set = found-insert;
  find-delete = found-remove;
}

abbrev concat : CacheValue → ℤ → CacheValue
concat v amount = v

abbrev plan : Text
plan = codes "plan"

abbrev block : Text
block = codes "block"

cache : LocalLruCache map_package 1000 concat
unfolding new set_default
cache =
    set_default map_package 1000 concat (new map_package 1000 concat (plan ∷ [])) block
      (number (pos 7))

plan-apart :
    is_reserved map_package 1000 concat cache block ≢ is_reserved map_package 1000 concat cache plan
unfolding cache is_reserved new set_default set with_instance has text_eq
plan-apart h = ground arith

nothing_pushed :
    values_of map_package 1000 concat (value map_package 1000 concat cache plan) ≡ some []
unfolding cache new set_default set with_instance is_reserved get_cache_instance prefix_key has
    text_eq lookup insert
nothing_pushed = refl
