-- ===== src/Lock/KeyMaps.antt =====
-- Keys that have the laws of Lock/Redis: of each key its list, and its string.
use mpcq_json_rpc_relay.Prelude.{
  ◌≡◌, refl, Bool, true, false, Option, none, some, List, ◌∷◌, Text, text_eq, text_eq_refl,
  if◌then◌else◌, ap,
}
use mpcq_json_rpc_relay.Prelude.Sets.{delete}
use mpcq_json_rpc_relay.Lock.Redis.{RedisKeys, remove_first}

abbrev pub KeyMaps : Type 0
KeyMaps = (Text → List Text) × (Text → Option Text)

abbrev pub put {ℓ} : {A : Type ℓ} → (Text → A) → Text → A → Text → A
put f k x j = if text_eq k j then x else f j

abbrev pub set_free : KeyMaps → Text → Text → Option Text → KeyMaps × Bool
set_free d k x none = ((d.0, put d.1 k (some x)), true)
set_free d k x (some holder) = (d, false)

pub put_same {ℓ} : {A : Type ℓ} → (f : Text → A) (k : Text) (x : A) → put f k x k ≡ x
put_same f k x = ap (λ b. if b then x else f k) (text_eq_refl k)

pub put_other {ℓ} :
    {A : Type ℓ} → (f : Text → A) (k j : Text) (x : A) → text_eq k j ≡ false → put f k x j ≡ f j
put_other f k j x e = ap (λ b. if b then x else f j) e

pub set_free_taken :
    (d : KeyMaps) (k x holder : Text) (o : Option Text)
    → o ≡ some holder
    → set_free d k x o ≡ (d, false)
set_free_taken d k x holder o e = rw e refl

pub set_free_empty :
    (d : KeyMaps) (k x : Text) (o : Option Text)
    → o ≡ none
    → ((set_free d k x o).1 ≡ true) × ((set_free d k x o).0.1 k ≡ some x)
set_free_empty d k x o e = rw e (refl, put_same d.1 k (some x))

pub set_free_elsewhere :
    (d : KeyMaps) (k x j : Text) (o : Option Text)
    → text_eq k j ≡ false
    → (set_free d k x o).0.1 j ≡ d.1 j
set_free_elsewhere d k x j none e = put_other d.1 k j (some x) e
set_free_elsewhere d k x j (some y) e = refl

abbrev pub key_maps : RedisKeys
key_maps = record {
  Db = KeyMaps;
  list_at = λ d k. d.0 k;
  string_at = λ d k. d.1 k;
  l_push = λ d k x. (put d.0 k (x ∷ d.0 k), d.1);
  l_rem = λ d k x. (put d.0 k (delete x (d.0 k)), d.1);
  l_rem_one = λ d k x. (put d.0 k (remove_first x (d.0 k)), d.1);
  set = λ d k x ttl. (d.0, put d.1 k (some x));
  set_nx = λ d k x ttl. set_free d k x (d.1 k);
  del = λ d k. (d.0, put d.1 k none);
  list_at-l_push = λ d k x. put_same d.0 k (x ∷ d.0 k);
  list_at-l_rem = λ d k x. put_same d.0 k (delete x (d.0 k));
  list_at-l_rem_one = λ d k x. put_same d.0 k (remove_first x (d.0 k));
  list_at-set = λ d k x j ttl. refl;
  string_at-set = λ d k x j ttl. refl;
  string_at-l_push = λ d k x j. refl;
  string_at-l_rem = λ d k x j. refl;
  string_at-l_rem_one = λ d k x j. refl;
  set_nx-free = λ d k x ttl h. set_free_empty d k x (d.1 k) h;
  set_nx-taken = λ d k x holder ttl h. set_free_taken d k x holder (d.1 k) h;
  set_nx-elsewhere = λ d k x j ttl e. set_free_elsewhere d k x j (d.1 k) e;
  string_at-del = λ d k j. refl;
}
