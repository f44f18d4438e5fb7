-- ===== src/Prelude/Lru.antt =====
-- What the relay relies on of the package lru-cache: a bounded map that may evict entries when one
-- is set, and never returns what was not set. `find` is what `get` and `has` see; `get` also marks
-- the entry as used.
use mpcq_json_rpc_relay.Prelude.Strings.{Text, text_eq_iff}
use mpcq_json_rpc_relay.Prelude.Assoc.{lookup, insert, remove, lookup-insert, lookup-remove}
use mathlib.Core.Path.{◌≡◌, refl}
use mathlib.Core.Logic.{◌≢◌, ◌⊎◌, inl}
use mathlib.Core.List.{List, []}
use mathlib.Core.Option.{Option, none, some}
use native.Mathlib.Omega.{arith}

pub record LruCache (V : Type 0) : Type 1 where
  pub Store : Type 0
  pub empty : Store
  pub find : Store → Text → Option V
  pub touch : Store → Text → Store
  pub set : Store → Text → V → Store
  pub delete : Store → Text → Store
  pub find-empty : (k : Text) → find empty k ≡ none
  pub find-touch : (s : Store) (k j : Text) → find (touch s k) j ≡ find s j
  pub find-set_self : (s : Store) (k : Text) (v : V) → find (set s k v) k ≡ some v
  pub find-set_ne :
      (s : Store) (k j : Text) (v : V)
      → k ≢ j
      → (find (set s k v) j ≡ find s j) ⊎ (find (set s k v) j ≡ none)
  pub find-delete_self : (s : Store) (k : Text) → find (delete s k) k ≡ none
  pub find-delete_ne : (s : Store) (k j : Text) → k ≢ j → find (delete s k) j ≡ find s j

pub find_empty_lem : (V : Type 0) (k : Text) → lookup {V = V} k [] ≡ none
unfolding lookup
find_empty_lem V k = refl

module _ {V : Type 0} where
  pub find_set_self_lem :
      (s : List (Text × V)) (k : Text) (v : V) → lookup k (insert k v s) ≡ some v
  find_set_self_lem s k v = ground (arith, lookup-insert k k v s, text_eq_iff k k)

  pub find_set_ne_lem :
      (s : List (Text × V)) (k j : Text) (v : V)
      → k ≢ j
      → (lookup j (insert k v s) ≡ lookup j s) ⊎ (lookup j (insert k v s) ≡ none)
  find_set_ne_lem s k j v h = inl (ground (arith, lookup-insert k j v s, text_eq_iff k j))

  pub find_delete_self_lem : (s : List (Text × V)) (k : Text) → lookup k (remove k s) ≡ none
  find_delete_self_lem s k = ground (arith, lookup-remove k k s, text_eq_iff k k)

  pub find_delete_ne_lem :
      (s : List (Text × V)) (k j : Text) → k ≢ j → lookup j (remove k s) ≡ lookup j s
  find_delete_ne_lem s k j h = ground (arith, lookup-remove k j s, text_eq_iff k j)

-- A cache that never evicts.
abbrev pub unbounded : (V : Type 0) → LruCache V
unbounded V = record {
  Store = List (Text × V);
  empty = [];
  find = λ s k. lookup k s;
  touch = λ s k. s;
  set = λ s k v. insert k v s;
  delete = λ s k. remove k s;
  find-empty = find_empty_lem V;
  find-touch = λ s k j. refl;
  find-set_self = find_set_self_lem;
  find-set_ne = find_set_ne_lem;
  find-delete_self = find_delete_self_lem;
  find-delete_ne = find_delete_ne_lem;
}
