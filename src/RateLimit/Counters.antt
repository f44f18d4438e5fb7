-- ===== src/RateLimit/Counters.antt =====
-- Counters that have the laws of RateLimit/Redis: of each key its count, and until when it lives.
use mpcq_json_rpc_relay.Prelude.{
  ℕ, ◌+◌, ◌*◌, ◌≤◌, ◌<◌, ◌≡◌, refl, false, Option, none, some, Text, text_eq, text_eq_refl,
  if◌then◌else◌, ◌==◌, ltb, arith, ap, ◌∙◌,
}
use mpcq_json_rpc_relay.RateLimit.Redis.{RedisCounters}

abbrev pub Counters : Type 0
Counters = Text → ℕ × Option ℕ

abbrev pub alive : ℕ → ℕ × Option ℕ → ℕ
alive now (n, none) = n
alive now (n, some until) = if ltb now until then n else 0

-- A key that is not there, or not any more, is created without an end.
abbrev pub bump : ℕ → ℕ × Option ℕ → ℕ × Option ℕ
bump now c = (alive now c + 1, if alive now c == 0 then none else c.1)

abbrev pub write : Counters → Text → ℕ × Option ℕ → Counters
write d k c = λ j. if text_eq k j then c else d j

pub alive_bumped_now : (now : ℕ) (c : ℕ × Option ℕ) → alive now (bump now c) ≡ alive now c + 1
alive_bumped_now now (n, none) = ground arith
alive_bumped_now now (n, some until) = ground arith

pub alive_bumped :
    (now later : ℕ) (c : ℕ × Option ℕ)
    → now ≤ later
    → 0 < alive now c
    → 0 < alive later c
    → alive later (bump now c) ≡ alive later c + 1
alive_bumped now later (n, none) after here there = ground arith
alive_bumped now later (n, some until) after here there = ground arith

pub other_lem :
    (now : ℕ) (d : Counters) (k j : Text) (c : ℕ × Option ℕ)
    → text_eq k j ≡ false
    → alive now (write d k c j) ≡ alive now (d j)
other_lem now d k j c other = ap (λ b. alive now (if b then c else d j)) other

pub same_lem :
    (now : ℕ) (d : Counters) (k : Text) (c : ℕ × Option ℕ) → alive now (write d k c k) ≡ alive now c
same_lem now d k c = ap (λ b. alive now (if b then c else d k)) (text_eq_refl k)

pub not_yet : (later n until : ℕ) → later < until → alive later (n, some until) ≡ n
not_yet later n until h = ground arith

abbrev pub counters : RedisCounters
counters = record {
  Db = Counters;
  incr = λ now d k. (write d k (bump now (d k)), alive now (d k) + 1);
  expire = λ now d k seconds. write d k (alive now (d k), some (now + seconds * 1000));
  count = λ now d k. alive now (d k);
  incr-result = λ now d k. refl;
  incr-now = λ now d k. same_lem now d k (bump now (d k)) ∙ alive_bumped_now now (d k);
  incr-later = λ now later d k after here there.
      same_lem later d k (bump now (d k)) ∙ alive_bumped now later (d k) after here there;
  incr-other = λ now later d k j other. other_lem later d k j (bump now (d k)) other;
  expire-later = λ now later d k seconds after before.
      same_lem later d k (alive now (d k), some (now + seconds * 1000))
      ∙ not_yet later (alive now (d k)) (now + seconds * 1000) before;
  expire-other = λ now later d k j seconds other.
      other_lem later d k j (alive now (d k), some (now + seconds * 1000)) other;
}
