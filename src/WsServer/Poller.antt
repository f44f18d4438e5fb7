-- ===== src/WsServer/Poller.antt =====
-- PollerService (packages/ws-server/src/service/pollerService.ts): the list of polls, the interval
-- and the two gauges. `is_new_heads` stands for `JSON.parse(tag).event === 'newHeads'`; the callback
-- of a poll is known by its tag.
use mpcq_json_rpc_relay.Prelude.{
  ◌-◌, Bool, true, false, Option, none, List, [], ◌∷◌, ◌++◌, Text, text_eq, not, if◌then◌else◌,
  length, ltb, keep_if,
}
use mpcq_json_rpc_relay.Prelude.Int.{ℤ, pos, ◌+ℤ◌, ◌-ℤ◌}

pub record Poll : Type 0 where
  pub tag : Text
  pub last_polled : Option Text

pub record PollerService : Type 0 where
  pub polls : List Poll
  -- Whether there is an interval.
  pub interval : Bool
  pub latest_block : Option Text
  pub active_polls_gauge : ℤ
  pub active_new_heads_polls_gauge : ℤ

unfoldable pub init : PollerService
init = record {
  polls = [];
  interval = false;
  latest_block = none;
  active_polls_gauge = pos 0;
  active_new_heads_polls_gauge = pos 0;
}

-- `hasPoll`.
unfoldable pub has_poll : List Poll → Text → Bool
has_poll polls tag = ltb 0 (length (keep_if (λ p. text_eq p.tag tag) polls))

unfoldable pub is_polling : PollerService → Bool
is_polling s = s.interval

unfoldable pub start : PollerService → PollerService
start s = record s { interval = true }

unfoldable pub stop : PollerService → PollerService
unfolding is_polling
stop s = if is_polling s then record s { interval = false } else s

module _ (is_new_heads : Text → Bool) where
  -- The part of `add` under `if (!this.hasPoll(tag))`.
  unfoldable pub push_poll : PollerService → Text → PollerService
  push_poll s tag =
      let polls : List Poll = s.polls ++ record { tag = tag; last_polled = none } ∷ [] in
      if is_new_heads tag
      then record s {
        polls = polls;
        active_new_heads_polls_gauge = s.active_new_heads_polls_gauge +ℤ pos 1;
      }
      else record s { polls = polls; active_polls_gauge = s.active_polls_gauge +ℤ pos 1 }

  unfoldable pub add : PollerService → Text → PollerService
  unfolding has_poll push_poll is_polling start
  add s tag =
      let s₁ = if has_poll s.polls tag then s else push_poll s tag in
      if is_polling s₁ then s₁ else start s₁

  -- The part of `remove` before the check for no polls.
  unfoldable pub drop_poll : PollerService → Text → PollerService
  drop_poll s tag =
      let polls = keep_if (λ p. not (text_eq p.tag tag)) s.polls in
      let polls_removed = length s.polls - length polls in
      if ltb 0 polls_removed
      then (if is_new_heads tag
          then record s {
            polls = polls;
            active_new_heads_polls_gauge = s.active_new_heads_polls_gauge -ℤ pos polls_removed;
          }
          else record s {
            polls = polls;
            active_polls_gauge = s.active_polls_gauge -ℤ pos polls_removed;
          })
      else record s { polls = polls }

  unfoldable pub remove : PollerService → Text → PollerService
  unfolding drop_poll stop
  remove s tag = let s₁ = drop_poll s tag in if ltb 0 (length s₁.polls) then s₁ else stop s₁
