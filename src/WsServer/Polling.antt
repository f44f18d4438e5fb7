-- ===== src/WsServer/Polling.antt =====
-- What the poller keeps true: one poll for a tag, gauges that count the polls, an interval as long as
-- there are polls.
use mpcq_json_rpc_relay.Prelude.{
  ℕ, ◌+◌, ◌-◌, ◌≤◌, ◌≡◌, refl, ap, Bool, true, none, List, [], ◌∷◌, ◌++◌, Text, text_eq,
  text_eq_iff, text_eq_refl, not, if◌then◌else◌, arith, length, length-append, length-keep_if-le,
  ◌<◌, ltb, keep_if, count_if, Bool-cases, inl, inr,
}
use mpcq_json_rpc_relay.Prelude.Int.{pos, ◌+ℤ◌, ◌-ℤ◌}
use mpcq_json_rpc_relay.WsServer.Poller.{
  Poll, PollerService, init, has_poll, is_polling, start, stop, push_poll, add, drop_poll, remove,
}

module _ (is_new_heads : Text → Bool) where
  abbrev pub new_heads : Poll → Bool
  new_heads p = is_new_heads p.tag

  abbrev pub others : Poll → Bool
  others p = not (is_new_heads p.tag)

  -- The number of polls for a tag.
  abbrev pub polls_for : Text → List Poll → ℕ
  polls_for tag polls = count_if (λ p. text_eq p.tag tag) polls

  pub record IsConsistent (s : PollerService) : Type 0 where
    pub new_heads_counted : s.active_new_heads_polls_gauge ≡ pos (count_if new_heads s.polls)
    pub others_counted : s.active_polls_gauge ≡ pos (count_if others s.polls)
    pub polled : s.interval ≡ ltb 0 (length s.polls)
    pub once : (tag : Text) → polls_for tag s.polls ≤ 1

  count_if-append :
      (f : Poll → Bool) (xs ys : List Poll) → count_if f (xs ++ ys) ≡ count_if f xs + count_if f ys
  count_if-append f [] ys = omega arith
  count_if-append f (x ∷ xs) ys = omega (arith, count_if-append f xs ys)

  has_poll_lem : (xs : List Poll) (tag : Text) → has_poll xs tag ≡ ltb 0 (polls_for tag xs)
  unfolding has_poll
  has_poll_lem [] tag = refl
  has_poll_lem (x ∷ xs) tag = ground (arith, has_poll_lem xs tag)

  has_poll-length : (xs : List Poll) (tag : Text) → has_poll xs tag ≡ true → 0 < length xs
  unfolding has_poll
  has_poll-length xs tag h = ground (arith, length-keep_if-le (λ p. text_eq p.tag tag) xs)

  drop_counts :
      (xs : List Poll) (tag : Text)
      → let kept = keep_if (λ p. not (text_eq p.tag tag)) xs in
        (length kept + polls_for tag xs ≡ length xs)
        × (count_if new_heads kept + (if is_new_heads tag then polls_for tag xs else 0)
            ≡ count_if new_heads xs)
        × (count_if others kept + (if is_new_heads tag then 0 else polls_for tag xs)
            ≡ count_if others xs)
  drop_counts [] tag = (refl, ground arith, ground arith)
  drop_counts (x ∷ xs) tag =
      let (a, b, c) = drop_counts xs tag in
      elim (Bool-cases (text_eq x.tag tag)) [
        | inl e ↦
            let same = ap is_new_heads ((text_eq_iff x.tag tag).0 e) in
            (ground (arith, a, e), ground (arith, b, e, same), ground (arith, c, e, same))
        | inr e ↦ (ground (arith, a, e), ground (arith, b, e), ground (arith, c, e))
      ]

  drop_polls_for :
      (xs : List Poll) (tag t : Text)
      → polls_for t (keep_if (λ p. not (text_eq p.tag tag)) xs)
        ≡ (if text_eq tag t then 0 else polls_for t xs)
  drop_polls_for [] tag t = ground arith
  drop_polls_for (x ∷ xs) tag t = ground (
    arith,
    drop_polls_for xs tag t,
    text_eq_iff x.tag tag,
    text_eq_iff x.tag t,
    text_eq_iff tag t,
  )

  -- No poll, no interval and gauges at 0 are consistent.
  pub init-IsConsistent : IsConsistent init
  unfolding init
  init-IsConsistent = record {
    new_heads_counted = refl;
    others_counted = refl;
    polled = refl;
    once = λ tag. omega arith;
  }

  one_more : (n : ℕ) → pos n +ℤ pos 1 ≡ pos (n + 1)
  unfolding ◌+ℤ◌
  one_more n = ground arith

  less : (n m k : ℕ) → k + m ≡ n → pos n -ℤ pos m ≡ pos k
  unfolding ◌-ℤ◌
  less n m k h = ground arith

  abbrev new_poll : Text → List Poll
  new_poll tag = record { tag = tag; last_polled = none } ∷ []

  -- To add a poll keeps the poller consistent; then the tag has one poll, and every other tag the
  -- polls that it had.
  pub add-IsConsistent :
      (s : PollerService) (tag : Text)
      → IsConsistent s
      → IsConsistent (add is_new_heads s tag)
        × ((t : Text)
            → polls_for t (add is_new_heads s tag).polls
              ≡ (if text_eq tag t then 1 else polls_for t s.polls))
  unfolding add push_poll is_polling start
  add-IsConsistent s tag c =
      let known = has_poll_lem s.polls tag in
      let self = text_eq_refl tag in
      elim (Bool-cases (has_poll s.polls tag)) [
        | inl there ↦
            let nonempty = has_poll-length s.polls tag there in
            (
              record {
                new_heads_counted = ground (arith, there, c.new_heads_counted);
                others_counted = ground (arith, there, c.others_counted);
                polled = ground (arith, there, c.polled, nonempty);
                once = λ t. ground (arith, there, c.once t);
              },
              λ t. ground (arith, there, known, c.once tag, text_eq_iff tag t),
            )
        | inr absent ↦
            let n = length-append s.polls (new_poll tag) in
            let a = count_if-append new_heads s.polls (new_poll tag) in
            let b = count_if-append others s.polls (new_poll tag) in
            let m = one_more (count_if new_heads s.polls) in
            let k = one_more (count_if others s.polls) in
            let f : (t : Text)
                → polls_for t (add is_new_heads s tag).polls
                  ≡ (if text_eq tag t then 1 else polls_for t s.polls) =
              λ t.
                let p = count_if-append (λ q. text_eq q.tag t) s.polls (new_poll tag) in
                ground (arith, absent, known, p, text_eq_iff tag t) in
            (
              record {
                new_heads_counted = ground (arith, absent, c.new_heads_counted, a, m);
                others_counted = ground (arith, absent, c.others_counted, b, k);
                polled = ground (arith, absent, n);
                once = λ t. ground (arith, f t, c.once t);
              },
              f,
            )
      ]

  -- To remove a tag keeps the poller consistent; then the tag has no poll, and every other tag the
  -- polls that it had.
  pub remove-IsConsistent :
      (s : PollerService) (tag : Text)
      → IsConsistent s
      → IsConsistent (remove is_new_heads s tag)
        × ((t : Text)
            → polls_for t (remove is_new_heads s tag).polls
              ≡ (if text_eq tag t then 0 else polls_for t s.polls))
  unfolding remove drop_poll stop is_polling
  remove-IsConsistent s tag c =
      let (a, b, d) = drop_counts s.polls tag in
      let kept = keep_if (λ p. not (text_eq p.tag tag)) s.polls in
      let f : (t : Text)
          → polls_for t (remove is_new_heads s tag).polls
            ≡ (if text_eq tag t then 0 else polls_for t s.polls) =
        λ t. let e = drop_polls_for s.polls tag t in ground (arith, e) in
      let m =
        less (count_if new_heads s.polls) (length s.polls - length kept)
          (count_if new_heads kept) in
      let k =
        less (count_if others s.polls) (length s.polls - length kept) (count_if others kept) in
      (
        record {
          new_heads_counted = ground (arith, c.new_heads_counted, a, b, m);
          others_counted = ground (arith, c.others_counted, a, d, k);
          polled = ground (arith, c.polled, a);
          once = λ t. ground (arith, f t, c.once t);
        },
        f,
      )
