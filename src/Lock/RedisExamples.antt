-- ===== src/Lock/RedisExamples.antt =====
-- The lock in Redis at keys that are maps, with two sessions and one that crashed.
use mpcq_json_rpc_relay.Prelude.{
  ◌≡◌, refl, true, false, none, some, List, [], ◌∷◌, Text, codes, text_eq, text_eq_iff, arith,
  starts_with, to_lower_case, subst,
}
use mpcq_json_rpc_relay.Prelude.Strings.{to_lower}
use mpcq_json_rpc_relay.Prelude.Sets.{has}
use mpcq_json_rpc_relay.Lock.Strategy.{normalize_address}
use mpcq_json_rpc_relay.Lock.Redis.{
  get_lock_key, get_queue_key, get_heartbeat_key, acquired, last_of, refresh_heartbeat, try_lock,
  after_look, round, poll,
}
use mpcq_json_rpc_relay.Lock.KeyMaps.{KeyMaps, key_maps, put}
use mpcq_json_rpc_relay.Lock.RedisSafety.{
  Command, joins, beats, tries, removes, releases, run, NotBy, NoneBy, run-holder,
}
use mpcq_json_rpc_relay.Lock.RedisQueue.{Takes, round-Takes, poll-absent}
use mpcq_json_rpc_relay.Lock.RedisProgress.{IsCrashed, poll-past_crashed}

abbrev sender : Text
sender = codes "0xA"

abbrev alice : Text
alice = codes "s1"

abbrev bob : Text
bob = codes "s2"

abbrev crashed : Text
crashed = codes "s0"

-- In the queue are bob, alice and, the oldest, the one that crashed.
abbrev waiting : KeyMaps
waiting = (put (λ k. []) (codes "lock:queue:0xa") (bob ∷ alice ∷ crashed ∷ []), λ k. none)

abbrev alone : KeyMaps
alone = (put (λ k. []) (codes "lock:queue:0xa") (bob ∷ alice ∷ []), λ k. none)

abbrev held : KeyMaps
held = (λ k. [], put (λ k. none) (codes "lock:0xa") (some alice))

abbrev by_bob : List Command
by_bob =
    joins sender bob
    ∷ beats bob
    ∷ removes sender crashed
    ∷ tries sender bob
    ∷ releases sender bob
    ∷ []

free_key : key_maps.string_at waiting (get_lock_key sender) ≡ none
unfolding get_lock_key normalize_address to_lower_case to_lower text_eq
free_key = refl

named : starts_with (normalize_address sender) (codes "heartbeat:") ≡ false
unfolding normalize_address to_lower_case to_lower starts_with
named = refl

held_key : key_maps.string_at held (get_lock_key sender) ≡ some alice
unfolding get_lock_key normalize_address to_lower_case to_lower text_eq
held_key = refl

bobs : NoneBy key_maps 1000 500 alice by_bob
unfolding NoneBy NotBy
bobs = (tt, (tt, (tt, (tt, ((λ e. ground arith), tt)))))

run-holder_example :
    key_maps.string_at (run key_maps 1000 500 by_bob held) (get_lock_key sender) ≡ some alice
run-holder_example = run-holder key_maps 1000 500 by_bob held sender alice named held_key bobs

alice_first : (round key_maps 1000 500 (λ d. d) (λ d. d) alone sender alice).1 ≡ acquired
unfolding round refresh_heartbeat after_look try_lock last_of get_queue_key get_lock_key
    get_heartbeat_key normalize_address to_lower_case to_lower text_eq
alice_first = refl

round-Takes_example :
    Takes key_maps 1000 500
      (last_of
        (key_maps.list_at (refresh_heartbeat key_maps 1000 500 alone alice) (get_queue_key sender)))
      (refresh_heartbeat key_maps 1000 500 alone alice)
      (round key_maps 1000 500 (λ d. d) (λ d. d) alone sender alice).0
      sender
      alice
round-Takes_example = round-Takes key_maps 1000 500 (λ d. d) (λ d. d) alone sender alice alice_first

gone : has crashed (key_maps.list_at alone (get_queue_key sender)) ≡ false
unfolding has get_queue_key normalize_address to_lower_case to_lower text_eq
gone = refl

poll-absent_example : poll key_maps 1000 500 9 alone sender crashed ≡ none
poll-absent_example = poll-absent key_maps 1000 500 9 alone sender crashed gone

queue_key : key_maps.list_at waiting (get_queue_key sender) ≡ bob ∷ alice ∷ crashed ∷ []
unfolding get_queue_key normalize_address to_lower_case to_lower text_eq
queue_key = refl

only_crashed : (z : Text) → has z (crashed ∷ []) ≡ true → crashed ≡ z
unfolding has
only_crashed z h = ground (arith, text_eq_iff crashed z)

is_crashed : IsCrashed key_maps 1000 500 waiting alice crashed
unfolding IsCrashed get_heartbeat_key text_eq
is_crashed = (refl, λ e. ground arith, refl)

dead : (z : Text) → has z (crashed ∷ []) ≡ true → IsCrashed key_maps 1000 500 waiting alice z
dead z h = subst (λ y. IsCrashed key_maps 1000 500 waiting alice y) (only_crashed z h) is_crashed

poll-past_crashed_example :
    (d' : KeyMaps) × (poll key_maps 1000 500 2 waiting sender alice ≡ some d')
    × (key_maps.string_at d' (get_lock_key sender) ≡ some alice)
poll-past_crashed_example =
    poll-past_crashed key_maps 1000 500 2 waiting sender alice (bob ∷ []) (crashed ∷ []) named
      free_key queue_key dead (ground arith)
