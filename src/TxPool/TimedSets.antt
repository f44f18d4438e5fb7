-- ===== src/TxPool/TimedSets.antt =====
-- Sets that have the laws of TxPool/Redis: pairs of a key and an element, and until when each key
-- lives.
use mpcq_json_rpc_relay.Prelude.{
  ℕ, ◌+◌, ◌≤◌, ◌<◌, ltb, Option, none, some, Bool, ap, ◌∙◌, ◌⊎◌, ◌≡◌, refl, true, false, List, [],
  ◌∷◌, Text, text_eq, text_eq_iff, text_eq_refl, subst, sym, if◌then◌else◌, length, ◌&&◌, arith,
  Bool-cases, inl, inr,
}
use mpcq_json_rpc_relay.Prelude.Sets.{has, Distinct}
use mpcq_json_rpc_relay.TxPool.Redis.{RedisSets, is_alive}
use mpcq_json_rpc_relay.TxPool.PairSets.{
  Pairs, members, without, keys_with, without_keys, members-Distinct, has-added, has-without,
  has-keys_with, has-without_keys,
}

-- What is left of a key that expired is not answered, and goes when the key is written again.
abbrev pub TimedPairs : Type 0
TimedPairs = Pairs × (Text → Option ℕ)

abbrev pub members_if : Bool → Pairs → Text → List Text
members_if true d k = members d k
members_if false d k = []

abbrev pub kept_if : Bool → Pairs → Text → Pairs
kept_if true d k = d
kept_if false d k = without_keys d (k ∷ [])

abbrev pub put : (Text → Option ℕ) → Text → Option ℕ → Text → Option ℕ
put f k o j = if text_eq k j then o else f j

abbrev pub alive_members : ℕ → TimedPairs → Text → List Text
alive_members now d k = members_if (is_alive now (d.1 k)) d.0 k

abbrev pub end_if : Bool → Option ℕ → Option ℕ
end_if true o = o
end_if false o = none

abbrev pub add_pair : ℕ → TimedPairs → Text → Text → TimedPairs
add_pair now d k x =
    let alive = is_alive now (d.1 k) in
    ((k, x) ∷ kept_if alive d.0 k, put d.1 k (end_if alive (d.1 k)))

abbrev pub end_set : Bool → ℕ → (Text → Option ℕ) → Text → Text → Option ℕ
end_set true t f k = put f k (some t)
end_set false t f k = f

abbrev pub expire_key : ℕ → TimedPairs → Text → ℕ → TimedPairs
expire_key now d k ttl = (d.0, end_set (is_alive now (d.1 k)) (now + ttl) d.1 k)

members_if-has :
    (b : Bool) (d : Pairs) (k y : Text) → has y (members_if b d k) ≡ (b && has y (members d k))
unfolding has
members_if-has true d k y = ground arith
members_if-has false d k y = ground arith

-- What the key that is written answers, by whether it was there.
added_at_key-has :
    (b : Bool) (now : ℕ) (d : TimedPairs) (k x y : Text)
    → is_alive now (d.1 k) ≡ b
    → (is_alive now (end_if b (d.1 k)) && has y (members ((k, x) ∷ kept_if b d.0 k) k))
      ≡ (if text_eq x y then true else (b && has y (members d.0 k)))
unfolding has
added_at_key-has true now d k x y e = ground (arith, e, has-added d.0 k x k y, text_eq_refl k)
added_at_key-has false now d k x y e = ground (
  arith,
  has-added (without_keys d.0 (k ∷ [])) k x k y,
  text_eq_refl k,
  has-without_keys d.0 (k ∷ []) k y,
)

added_elsewhere-has :
    (b : Bool) (d : TimedPairs) (k x j y : Text)
    → text_eq k j ≡ false
    → has y (members ((k, x) ∷ kept_if b d.0 k) j) ≡ has y (members d.0 j)
unfolding has
added_elsewhere-has true d k x j y e = ground (arith, e, has-added d.0 k x j y)
added_elsewhere-has false d k x j y e = ground (
  arith,
  e,
  has-added (without_keys d.0 (k ∷ [])) k x j y,
  has-without_keys d.0 (k ∷ []) j y,
  text_eq_iff j k,
  text_eq_iff k j,
)

pub added-has :
    (now : ℕ) (d : TimedPairs) (k x j y : Text)
    → has y (alive_members now (add_pair now d k x) j) ≡ (
        if text_eq k j
        then (if text_eq x y then true else has y (alive_members now d j))
        else has y (alive_members now d j))
added-has now d k x j y =
    let b : Bool = is_alive now (d.1 k) in
    members_if-has (is_alive now (put d.1 k (end_if b (d.1 k)) j)) ((k, x) ∷ kept_if b d.0 k) j y
    ∙ elim (Bool-cases (text_eq k j)) [
      | inl e ↦ rw e (
          subst
            (λ i.
              (is_alive now (end_if b (d.1 k)) && has y (members ((k, x) ∷ kept_if b d.0 k) i))
              ≡ (if text_eq x y then true else has y (alive_members now d i)))
            ((text_eq_iff k j).0 e)
            (added_at_key-has b now d k x y refl
              ∙ ap (λ h. if text_eq x y then true else h) (sym (members_if-has b d.0 k y))))
      | inr e ↦
          rw (e, added_elsewhere-has b d k x j y e, members_if-has (is_alive now (d.1 j)) d.0 j y)
            refl
    ]

pub removed-has :
    (now : ℕ) (d : TimedPairs) (k x j y : Text)
    → has y (alive_members now (without d.0 k x, d.1) j) ≡ (
        if text_eq k j
        then (if text_eq x y then false else has y (alive_members now d j))
        else has y (alive_members now d j))
removed-has now d k x j y =
    let b : Bool = is_alive now (d.1 j) in
    ground (
      arith,
      members_if-has b (without d.0 k x) j y,
      members_if-has b d.0 j y,
      has-without d.0 k x j y,
    )

pub unlinked-has :
    (now : ℕ) (d : TimedPairs) (ks : List Text) (k y : Text)
    → has y (alive_members now (without_keys d.0 ks, d.1) k)
      ≡ (if has k ks then false else has y (alive_members now d k))
unlinked-has now d ks k y =
    let b : Bool = is_alive now (d.1 k) in
    ground (
      arith,
      members_if-has b (without_keys d.0 ks) k y,
      members_if-has b d.0 k y,
      has-without_keys d.0 ks k y,
    )

-- EXPIRE for more than no time leaves the key that it gives an end alive.
pub expired-has :
    (now : ℕ) (d : TimedPairs) (k j : Text) (ttl : ℕ)
    → 0 < ttl
    → alive_members now (expire_key now d k ttl) j ≡ alive_members now d j
expired-has now d k j ttl positive = elim (Bool-cases (is_alive now (d.1 k))) [
  | inl e ↦ elim (Bool-cases (text_eq k j)) [
    | inl same ↦
        (let later : ltb now (now + ttl) ≡ true = ground (arith, positive) in
          rw (e, same, later)
            (sym (
              ap (λ b. members_if b d.0 j)
                (ap (λ i. is_alive now (d.1 i)) (sym ((text_eq_iff k j).0 same)) ∙ e))))
    | inr other ↦ rw (e, other) refl
  ]
  | inr e ↦ rw e refl
]

pub members_if-Distinct : (b : Bool) (d : Pairs) (k : Text) → Distinct (members_if b d k)
members_if-Distinct true d k = members-Distinct d k
members_if-Distinct false d k = tt

pub has-members_if :
    (b : Bool) (d : Pairs) (k y : Text)
    → has y (members_if b d k) ≡ true
    → has y (members d k) ≡ true
unfolding has
has-members_if true d k y h = h
has-members_if false d k y h = ground (arith, h)

earlier_alive :
    (now later : ℕ) (o : Option ℕ) → now ≤ later → is_alive later o ≡ true → is_alive now o ≡ true
earlier_alive now later none h e = refl
earlier_alive now later (some t) h e = ground (arith, h, e)

pub later-members :
    (now later : ℕ) (d : TimedPairs) (k : Text)
    → now ≤ later
    → is_alive later (d.1 k) ≡ true
    → alive_members later d k ≡ alive_members now d k
later-members now later d k h e =
    ap (λ b. members_if b d.0 k) (e ∙ sym (earlier_alive now later (d.1 k) h e))

put-cases :
    (b : Bool) (f : Text → Option ℕ) (k j : Text)
    → (put f k (end_if b (f k)) j ≡ f j) ⊎ (put f k (end_if b (f k)) j ≡ none)
put-cases b f k j = elim (Bool-cases (text_eq k j)) [
  | inl e ↦ elim (Bool-cases b) [
    | inl live ↦ inl (rw (e, live) (ap f ((text_eq_iff k j).0 e)))
    | inr dead ↦ inr (rw (e, dead) refl)
  ]
  | inr e ↦ inl (rw e refl)
]

pub added-until :
    (now : ℕ) (d : TimedPairs) (k x j : Text)
    → ((add_pair now d k x).1 j ≡ d.1 j) ⊎ ((add_pair now d k x).1 j ≡ none)
added-until now d k x j = put-cases (is_alive now (d.1 k)) d.1 k j

pub expire_key-until :
    (now : ℕ) (d : TimedPairs) (k j y : Text) (ttl : ℕ)
    → has y (alive_members now d k) ≡ true
    → (expire_key now d k ttl).1 j ≡ (if text_eq k j then some (now + ttl) else d.1 j)
unfolding has
expire_key-until now d k j y ttl h = elim (Bool-cases (is_alive now (d.1 k))) [
  | inl e ↦ rw e refl
  | inr e ↦ ground (arith, h, e, members_if-has (is_alive now (d.1 k)) d.0 k y)
]

unfoldable pub pair_sets : RedisSets
unfolding has members
pair_sets = record {
  Db = TimedPairs;
  s_add = add_pair;
  s_rem = λ now d k x. (without d.0 k x, d.1);
  expire = expire_key;
  s_members = alive_members;
  s_card = λ now d k. length (alive_members now d k);
  keys = λ now d p. keys_with d.0 p;
  unlink = λ now d ks. (without_keys d.0 ks, d.1);
  until = λ d k. d.1 k;
  has-s_add = added-has;
  has-s_rem = removed-has;
  s_members-expire = expired-has;
  s_card-s_members = λ now d k. refl;
  s_members-Distinct = λ now d k. members_if-Distinct (is_alive now (d.1 k)) d.0 k;
  has-keys = λ now d p k y h s.
      has-keys_with d.0 p k y (has-members_if (is_alive now (d.1 k)) d.0 k y h) s;
  has-unlink = unlinked-has;
  s_members-later = later-members;
  s_members-expired = λ now d k e. ap (λ b. members_if b d.0 k) e;
  until-s_add = added-until;
  until-s_rem = λ now d k x j. inl refl;
  until-unlink = λ now d ks j. inl refl;
  until-expire = expire_key-until;
}
