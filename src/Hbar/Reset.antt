-- ===== src/Hbar/Reset.antt =====
-- `getResetTimestamp` and `shouldResetLimiter` of the HBAR limiter. Times are in milliseconds, and
-- the clock is read anew in each test and in each body of the loop.
-- The reset time before the call is an argument; midnight stands in for it when the relay starts.
use mpcq_json_rpc_relay.Prelude.{
  ℕ, zero, suc, ◌+◌, ◌-◌, ◌*◌, ◌/◌, ◌≤◌, ◌<◌, ◌≡◌, ap, ◌∙◌, refl, Bool, Option, none, some, ltb,
  leb, if◌then◌else◌, arith, Bool-cases, inl, inr, ◌⊎◌,
}

-- `Math.ceil((now - reset) / limitDuration)`.
abbrev pub intervals_passed : ℕ → ℕ → ℕ → ℕ
intervals_passed now duration reset = (now - reset + duration - 1) / duration

-- The `while` loop, with fuel: `none` means that it has not ended. A round reads the clock twice, in
-- its test and in its body; `clock` is what the readings give, one after the other.
unfoldable pub advance : ℕ → (ℕ → ℕ) → ℕ → ℕ → Option ℕ
advance zero clock duration reset = none
advance (suc fuel) clock duration reset =
    let rest =
      advance fuel (λ i. clock (i + 2)) duration
        (reset + intervals_passed (clock 1) duration reset * duration) in
    if ltb reset (clock 0) then rest else some reset

-- Three tests are enough while the clock does not move by a duration (`advance_lem`).
unfoldable pub get_reset_timestamp : (ℕ → ℕ) → ℕ → ℕ → ℕ
unfolding advance
get_reset_timestamp clock duration reset = elim (advance 3 clock duration reset) [
  | none ↦ reset
  | some r ↦ r
]

unfoldable pub should_reset_limiter : ℕ → ℕ → Bool
should_reset_limiter now reset = leb reset now

ceil_bounds : (n d : ℕ) → 0 < n → 0 < d → (n ≤ (n + d - 1) / d * d) × ((n + d - 1) / d * d < n + d)
ceil_bounds n d hn hd = grind arith

-- What the loop ends with: a time of the grid from the reset time that was at or after a reading of
-- the clock, and the reset time itself when that was not past.
pub record IsNext (clock : ℕ → ℕ) (duration reset r : ℕ) : Type 0 where
  pub rounds : ℕ
  pub on_grid : r ≡ reset + rounds * duration
  pub not_past : clock 0 ≤ r
  pub soon : ((clock 0 ≤ reset) × (r ≡ reset)) ⊎ ((reset < clock 0) × (r < clock 0 + 2 * duration))

first_round :
    (clock : ℕ → ℕ) (fuel d reset : ℕ)
    → clock 0 ≤ reset
    → advance (suc fuel) clock d reset ≡ some reset
unfolding advance
first_round clock fuel d reset h = ground (arith, h)

next_round :
    (clock : ℕ → ℕ) (fuel d reset : ℕ)
    → reset < clock 0
    → advance (suc fuel) clock d reset
      ≡ advance fuel (λ i. clock (i + 2)) d (reset + intervals_passed (clock 1) d reset * d)
unfolding advance
next_round clock fuel d reset h = ground (arith, h)

-- A round ends at or after the second reading, and less than a duration after it.
step_bounds :
    (now d reset : ℕ)
    → 0 < d
    → reset < now
    → (now ≤ reset + intervals_passed now d reset * d)
      × (reset + intervals_passed now d reset * d < now + d)
step_bounds now d reset h past =
    let b = ceil_bounds (now - reset) d (omega (arith, past)) h in
    (omega (arith, b, past), omega (arith, b, past))

late_cases : (a b : ℕ) → (a ≤ b) ⊎ (b < a)
late_cases a b = elim (Bool-cases (leb a b)) [
  | inl e ↦ inl (ground (arith, e))
  | inr e ↦ inr (ground (arith, e))
]

two_parts : (a k m d : ℕ) → a + k * d + m * d ≡ a + (k + m) * d
two_parts a k m d = grind arith

at_least : (m d : ℕ) → 0 < m * d → d ≤ m * d
at_least zero d h = omega (arith, h)
at_least (suc m) d h = grind arith

got :
    (clock : ℕ → ℕ) (d reset r : ℕ)
    → advance 3 clock d reset ≡ some r
    → get_reset_timestamp clock d reset ≡ r
unfolding get_reset_timestamp
got clock d reset r e = ap (λ o. elim o [ none ↦ reset | some t ↦ t ]) e

-- When the duration is not 0, and the clock does not go back and moves by at most a duration in its
-- first five readings, the loop ends at the third test at the latest, with a time that is a whole
-- number of durations after the reset time: the reset time itself when it was not past at the first
-- test, and else a time at or after the first reading and less than two durations after it.
pub advance_lem :
    (clock : ℕ → ℕ) (duration reset : ℕ)
    → 0 < duration
    → ((i : ℕ) → clock i ≤ clock (suc i))
    → clock 4 ≤ clock 0 + duration
    → (r : ℕ) × (advance 3 clock duration reset ≡ some r)
      × (get_reset_timestamp clock duration reset ≡ r)
      × IsNext clock duration reset r
advance_lem clock d reset h forward near = elim (late_cases (clock 0) reset) [
  | inl later ↦
      let ends = first_round clock 2 d reset later in
      (
        reset,
        ends,
        got clock d reset reset ends,
        record { rounds = 0; on_grid = omega arith; not_past = later; soon = inl (later, refl) },
      )
  | inr past ↦
      let k = intervals_passed (clock 1) d reset in
      let b = step_bounds (clock 1) d reset h (omega (arith, past, forward 0)) in
      elim (late_cases (clock 2) (reset + k * d)) [
        | inl later ↦
            let ends =
              next_round clock 2 d reset past
              ∙ first_round (λ i. clock (i + 2)) 1 d (reset + k * d) later in
            (
              reset + k * d,
              ends,
              got clock d reset (reset + k * d) ends,
              record {
                rounds = k;
                on_grid = refl;
                not_past = omega (arith, b, forward 0);
                soon = inr (past, omega (arith, b, near, forward 1, forward 2, forward 3));
              },
            )
        | inr again ↦
            let first = reset + k * d in
            let m = intervals_passed (clock 3) d first in
            let c = step_bounds (clock 3) d first h (omega (arith, again, forward 2)) in
            let ends =
              next_round clock 2 d reset past
              ∙ next_round (λ i. clock (i + 2)) 1 d first again
              ∙ first_round (λ i. clock (i + 2 + 2)) 0 d (first + m * d)
                  (omega (
                    arith,
                    b,
                    c,
                    again,
                    near,
                    forward 0,
                    forward 1,
                    forward 2,
                    forward 3,
                    at_least m d (omega (arith, c, again, forward 2)),
                  )) in
            (
              first + m * d,
              ends,
              got clock d reset (first + m * d) ends,
              record {
                rounds = k + m;
                on_grid = two_parts reset k m d;
                not_past = omega (arith, c, forward 0, forward 1, forward 2);
                soon = inr (past, omega (arith, c, near, forward 3));
              },
            )
      ]
]
