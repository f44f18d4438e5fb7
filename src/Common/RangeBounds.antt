-- ===== src/Common/RangeBounds.antt =====
-- What a range of blocks satisfies when a request for logs is sent for it.
use mpcq_json_rpc_relay.Prelude.{
  ℕ, ◌+◌, ◌*◌, ◌≤◌, ◌≡◌, ◌≢◌, length, text_eq, ◌⊎◌, inl, inr, refl, true, some, List, [], ◌∷◌,
  arith, Bool-cases, Option-cases,
}
use mpcq_json_rpc_relay.Prelude.Results.{ok, >>-eq-ok, >>=-eq-ok}
use mpcq_json_rpc_relay.Common.{
  Tag, MirrorNodeBlock, TimestampParam, gte, lte, MirrorNode, Config, max_timestamp_param_range,
}
use mpcq_json_rpc_relay.Common.Blocks.{get_historical_block_response}
use mpcq_json_rpc_relay.Common.Ranges.{
  Address, no_address, address, addresses, is_single_address, nanoseconds, or_latest, same_tag,
  check_range, bound_range, check_from_block, validate_block_range_and_add_timestamp_to_params,
}

-- One address is asked for: as a text that is not empty, or as a list of one.
abbrev pub IsOne : Address → Type 0
IsOne no_address = ⊥
IsOne (address s) = s ≢ []
IsOne (addresses xs) = length xs ≡ 1

is_single_address-IsOne : (addr : Address) → is_single_address addr ≡ true → IsOne addr
unfolding is_single_address text_eq
is_single_address-IsOne no_address h = ground arith
is_single_address-IsOne (address []) h = absurd (ground arith)
is_single_address-IsOne (address (c ∷ s)) h = λ e. ground arith
is_single_address-IsOne (addresses xs) h = ground arith

-- The blocks are in order, at most 7 days apart, and at most the limit apart unless one address is
-- asked for.
pub record IsWithin (C : Config) (addr : Address) (b c : MirrorNodeBlock) : Type 0 where
  pub ordered : b.number ≤ c.number
  pub week :
      nanoseconds c.timestamp_to
      ≤ nanoseconds b.timestamp_from + max_timestamp_param_range * 1000000000
  pub limited : IsOne addr ⊎ (c.number ≤ b.number + C.logs_block_range_limit)

module _ (M : MirrorNode) (C : Config) where
  check_range-IsWithin :
      (b c : MirrorNodeBlock) (addr : Address)
      → check_range M C b c addr ≡ ok tt
      → IsWithin C addr b c
  unfolding check_range
  check_range-IsWithin b c addr h = record {
    ordered = ground arith;
    week = ground arith;
    limited = elim (Bool-cases (is_single_address addr)) [
      | inl e ↦ inl (is_single_address-IsOne addr e)
      | inr e ↦ inr (ground (arith, e))
    ];
  }

  -- What the parameters of the request are when the range is accepted.
  abbrev pub Accepted : ℕ → Tag → Tag → Address → List TimestampParam → Type 0
  Accepted t from_block to_block addr ps =
      (b : MirrorNodeBlock) × (c : MirrorNodeBlock) × (get_historical_block_response M C (t + 1)
          (or_latest from_block) true
        ≡ ok (some b))
      × (ps ≡ gte b.timestamp_from ∷ lte c.timestamp_to ∷ [])
      × (((same_tag (or_latest from_block) (or_latest to_block) ≡ true) × (c ≡ b))
          ⊎ ((get_historical_block_response M C (t + 3) (or_latest to_block) true ≡ ok (some c))
              × IsWithin C addr b c))

  bound_range-Accepted :
      (t : ℕ) (b : MirrorNodeBlock) (from_block to_block : Tag) (addr : Address)
      (ps : List TimestampParam)
      → get_historical_block_response M C (t + 1) (or_latest from_block) true ≡ ok (some b)
      → bound_range M C (t + 3) b (or_latest from_block) (or_latest to_block) addr ≡ ok (some ps)
      → Accepted t from_block to_block addr ps
  unfolding bound_range
  bound_range-Accepted t b from_block to_block addr ps hb h =
      elim (Bool-cases (same_tag (or_latest from_block) (or_latest to_block))) [
        | inl same ↦ (b, b, hb, ground (arith, h, same), inl (same, refl))
        | inr differ ↦
            let (response, found, rest) =
              >>=-eq-ok (get_historical_block_response M C (t + 3) (or_latest to_block) true) _
                (rw differ at h) in
            elim (Option-cases response) [
              | inl e ↦ absurd (ground (arith, rest, e))
              | inr (c, e) ↦
                  let (checked, answer) = >>-eq-ok (check_range M C b c addr) _ (rw e at rest) in
                  (
                    b,
                    c,
                    hb,
                    ground (arith, answer),
                    inr (cc (found, e), check_range-IsWithin b c addr checked),
                  )
            ]
      ]

  -- When a range of blocks is accepted, the request asks from the start of the block of `fromBlock`
  -- to the end of the block of `toBlock`. The two are the same block, or they are in order, at most 7
  -- days apart, and no more than the limit apart unless a single address is asked for.
  pub validate_block_range_and_add_timestamp_to_params-Accepted :
      (t : ℕ) (from_block to_block : Tag) (addr : Address) (ps : List TimestampParam)
      → validate_block_range_and_add_timestamp_to_params M C t from_block to_block addr
        ≡ ok (some ps)
      → Accepted t from_block to_block addr ps
  unfolding validate_block_range_and_add_timestamp_to_params
  validate_block_range_and_add_timestamp_to_params-Accepted t from_block to_block addr ps h =
      let (checked, later) = >>-eq-ok (check_from_block M C t from_block to_block) _ h in
      let (response, found, rest) =
        >>=-eq-ok (get_historical_block_response M C (t + 1) (or_latest from_block) true) _ later in
      elim (Option-cases response) [
        | inl e ↦ absurd (ground (arith, rest, e))
        | inr (b, e) ↦
            bound_range-Accepted t b from_block to_block addr ps (cc (found, e)) (rw e at rest)
      ]
