-- ===== src/TxPool/PairSets.antt =====
-- The sets of TxPool/Redis as pairs of a key and an element; TxPool/TimedSets adds when keys expire.
use mpcq_json_rpc_relay.Prelude.{
  ◌≡◌, refl, true, false, List, [], ◌∷◌, Text, text_eq, text_eq_iff, if◌then◌else◌, starts_with,
  ◌&&◌, arith, Bool-cases, inl, inr,
}
use mpcq_json_rpc_relay.Prelude.Sets.{has, add, has-add, Distinct, Distinct-add}

abbrev pub Pairs : Type 0
Pairs = List (Text × Text)

unfoldable pub members : Pairs → Text → List Text
unfolding add
members [] k = []
members ((j, x) ∷ d) k = let rest = members d k in if text_eq j k then add x rest else rest

unfoldable pub without : Pairs → Text → Text → Pairs
without [] k x = []
without ((j, y) ∷ d) k x =
    let rest = without d k x in if text_eq j k && text_eq y x then rest else (j, y) ∷ rest

unfoldable pub keys_with : Pairs → Text → List Text
keys_with [] p = []
keys_with ((j, y) ∷ d) p = let rest = keys_with d p in if starts_with j p then j ∷ rest else rest

unfoldable pub without_keys : Pairs → List Text → Pairs
without_keys [] ks = []
without_keys ((j, y) ∷ d) ks =
    let rest = without_keys d ks in if has j ks then rest else (j, y) ∷ rest

pub members-Distinct : (d : Pairs) (k : Text) → Distinct (members d k)
unfolding members
members-Distinct [] k = tt
members-Distinct ((j, x) ∷ d) k = elim (Bool-cases (text_eq j k)) [
  | inl e ↦ rw e (Distinct-add x _ (members-Distinct d k))
  | inr e ↦ rw e (members-Distinct d k)
]

pub has-added :
    (d : Pairs) (k x j y : Text)
    → has y (members ((k, x) ∷ d) j) ≡ (
        if text_eq k j
        then (if text_eq x y then true else has y (members d j))
        else has y (members d j))
unfolding members
has-added d k x j y = ground (arith, has-add x y (members d j))

pub has-without :
    (d : Pairs) (k x j y : Text)
    → has y (members (without d k x) j) ≡ (
        if text_eq k j
        then (if text_eq x y then false else has y (members d j))
        else has y (members d j))
unfolding without members has
has-without [] k x j y = ground arith
has-without ((i, z) ∷ d) k x j y = ground (
  arith,
  has-without d k x j y,
  has-add z y (members (without d k x) j),
  has-add z y (members d j),
  text_eq_iff i k,
  text_eq_iff i j,
  text_eq_iff k j,
  text_eq_iff z x,
  text_eq_iff z y,
  text_eq_iff x y,
)

pub has-keys_with :
    (d : Pairs) (p k y : Text)
    → has y (members d k) ≡ true
    → starts_with k p ≡ true
    → has k (keys_with d p) ≡ true
unfolding members keys_with has
has-keys_with [] p k y h s = ground arith
has-keys_with ((i, z) ∷ d) p k y h s =
    ground (arith, has-keys_with d p k y, has-add z y (members d k), text_eq_iff i k)

pub has-without_keys :
    (d : Pairs) (ks : List Text) (k y : Text)
    → has y (members (without_keys d ks) k) ≡ (if has k ks then false else has y (members d k))
unfolding members without_keys has
has-without_keys [] ks k y = elim (Bool-cases (has k ks)) [ inl e ↦ rw e refl | inr e ↦ rw e refl ]
has-without_keys ((i, z) ∷ d) ks k y = ground (
  arith,
  has-without_keys d ks k y,
  has-add z y (members (without_keys d ks) k),
  has-add z y (members d k),
  text_eq_iff i k,
)
