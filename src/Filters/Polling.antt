-- ===== src/Filters/Polling.antt =====
-- A filter of blocks that is polled: what the answers are together.
use mpcq_json_rpc_relay.Prelude.{
  ℕ, zero, suc, ◌+◌, ◌≤◌, ◌≡◌, ◌∙◌, refl, ap, true, Option, none, some, List, [], ◌∷◌, ◌++◌, Text,
  text_eq_refl, ltb, length, map, arith, Bool-cases, inl, inr, All,
}
use mpcq_json_rpc_relay.Prelude.Results.{Result, ok, ◌>>=◌}
use mpcq_json_rpc_relay.Common.{Thrown, text, MirrorNode, Config, number_of}
use mpcq_json_rpc_relay.Common.Blocks.{get_latest_block_number}
use mpcq_json_rpc_relay.Common.Logs.{or_empty}
use mpcq_json_rpc_relay.Common.RangeErrors.{number_of_text-number_to_0x}
use mpcq_json_rpc_relay.Filters.{
  new_block, Filter, Filters, Changes, hashes, logs, queried_or, latest_of_blocks,
  get_filter_from_cache, update_filter_cache, handle_new_block_filter_changes, changes_of,
  get_filter_changes,
}
use mpcq_json_rpc_relay.Filters.Chain.{
  blocks_from, Chain, hash_of, last_of-blocks_from, seen, hashes-append_after,
}
use mpcq_json_rpc_relay.Filters.Lifetime.{get-update_filter_cache, enabled_lem}

-- The number from which the next poll asks.
abbrev Position : Option ℕ → Text → ℕ → Type 0
Position last_queried start n = number_of (queried_or last_queried (text start)) ≡ some n

Position-next :
    (last_queried : Option ℕ) (start : Text) (n k : ℕ)
    → Position last_queried start n
    → Position (some (n + k)) start (n + k)
unfolding queried_or number_of
Position-next none start zero zero h = h
Position-next (some zero) start zero zero h = h
Position-next (some (suc j)) start zero zero h = ground arith
Position-next last_queried start (suc n) zero h = ground arith
Position-next last_queried start n (suc k) h = ground arith

-- The filter is in the cache and asks from the position.
abbrev pub IsAt : Filters → ℕ → Text → ℕ → Type 0
IsAt s now filter_id n =
    (last_queried : Option ℕ) × (start : Text) × (get_filter_from_cache s now filter_id
      ≡ some (record { kind = new_block start; last_queried = last_queried }))
    × Position last_queried start n

module _ (M : MirrorNode) (C : Config) (enabled : C.filter_api_enabled ≡ true)
    (chain : Chain M) where
  latest_of_blocks_lem :
      (t' n k : ℕ)
      → (k ≡ 0 → chain.head t' ≡ n)
      → latest_of_blocks M C t' (blocks_from chain.block_at (suc n) k) ≡ ok (some (n + k))
  unfolding latest_of_blocks get_latest_block_number
  latest_of_blocks_lem t' n zero quiet =
      rw (chain.latest t', number_of_text-number_to_0x, chain.numbered) (ground (arith, quiet))
  latest_of_blocks_lem t' n (suc k) quiet =
      rw (last_of-blocks_from chain.block_at (suc n) k, chain.numbered) (ground arith)

  -- One poll: the blocks after the position, and the position after them.
  handle_lem :
      (t t' n : ℕ) (last_queried : Option ℕ) (start : Text)
      → Position last_queried start n
      → (seen M chain t n ≡ 0 → chain.head t' ≡ n)
      → handle_new_block_filter_changes M C t t' last_queried start
        ≡ ok (
          map hash_of (blocks_from chain.block_at (suc n) (seen M chain t n)),
          some (n + seen M chain t n),
        )
  unfolding handle_new_block_filter_changes or_empty
  handle_lem t t' n last_queried start at quiet =
      rw (chain.after t (queried_or last_queried (text start)) n at)
        (rw (latest_of_blocks_lem t' n (seen M chain t n) quiet) refl)

  poll_lem :
      (s : Filters) (now t t' n : ℕ) (filter_id : Text)
      → IsAt s now filter_id n
      → (seen M chain t n ≡ 0 → chain.head t' ≡ n)
      → (s' : Filters) × (get_filter_changes M C s now t t' filter_id
          ≡ ok (s', hashes (map hash_of (blocks_from chain.block_at (suc n) (seen M chain t n)))))
        × ((later : ℕ)
            → later ≤ now + C.filter_ttl
            → IsAt s' later filter_id (n + seen M chain t n))
  unfolding get_filter_changes changes_of
  poll_lem s now t t' n filter_id (last_queried, start, there, at) quiet =
      let filter : Filter = record {
        kind = new_block start;
        last_queried = some (n + seen M chain t n);
      } in
      (
        update_filter_cache C s now filter_id filter,
        rw (enabled_lem M C enabled, there, handle_lem t t' n last_queried start at quiet) refl,
        (λ later soon. (
          some (n + seen M chain t n),
          start,
          rw
              (
                get-update_filter_cache C s now later filter_id filter_id filter,
                text_eq_refl filter_id,
              )
              (ground (arith, soon)),
          Position-next last_queried start n (seen M chain t n) at,
        )),
      )

-- A poll: its time, and the numbers of its requests.
pub record Poll : Type 0 where
  pub now : ℕ
  pub t : ℕ
  pub t' : ℕ

abbrev hashes_in : Changes → List Text
hashes_in (hashes hs) = hs
hashes_in (logs ls) = []

-- The answers of several polls, one after the other.
unfoldable pub poll_all :
    MirrorNode → Config → Filters → Text → List Poll → Result Thrown (Filters × List Text)
poll_all M C s filter_id [] = ok (s, [])
poll_all M C s filter_id (p ∷ ps) = do
  first ← get_filter_changes M C s p.now p.t p.t' filter_id
  rest ← poll_all M C first.0 filter_id ps
  ok (rest.0, hashes_in first.1 ++ rest.1)

module _ (M : MirrorNode) (chain : Chain M) where
  -- How many blocks the polls answer together.
  abbrev pub seen_in : ℕ → List Poll → ℕ
  seen_in n [] = 0
  seen_in n (p ∷ ps) = seen M chain p.t n + seen_in (n + seen M chain p.t n) ps

  -- Each poll comes within the time that the filter is kept after the poll before, no block comes
  -- between the two requests of a poll, and the chain does not get shorter.
  abbrev pub AreInTime : Config → ℕ → ℕ → List Poll → Type 0
  AreInTime C until h [] = Unit
  AreInTime C until h (p ∷ ps) =
      (p.now ≤ until)
      × (h ≤ chain.head p.t)
      × (chain.head p.t' ≡ chain.head p.t)
      × (AreInTime C (p.now + C.filter_ttl) (chain.head p.t) ps)

poll_all_cons :
    (M : MirrorNode) (C : Config) (s s₁ s₂ : Filters) (filter_id : Text) (p : Poll) (ps : List Poll)
    (found more : List Text)
    → get_filter_changes M C s p.now p.t p.t' filter_id ≡ ok (s₁, hashes found)
    → poll_all M C s₁ filter_id ps ≡ ok (s₂, more)
    → poll_all M C s filter_id (p ∷ ps) ≡ ok (s₂, found ++ more)
unfolding poll_all
poll_all_cons M C s s₁ s₂ filter_id p ps found more first rest = rw (first, rest) refl

-- A filter of blocks stays, and its answers together are the hashes of the blocks after its creation,
-- each once, in order, and none left out, when each poll comes within the time that the filter is
-- kept after the poll before, the chain does not get shorter, and no block comes between the two
-- requests of one poll.
pub poll_all_lem :
    (M : MirrorNode) (C : Config) (enabled : C.filter_api_enabled ≡ true) (chain : Chain M)
    (s : Filters) (until h n : ℕ) (filter_id : Text) (ps : List Poll)
    → ((later : ℕ) → later ≤ until → IsAt s later filter_id n)
    → n ≤ h
    → AreInTime M chain C until h ps
    → (s' : Filters) × (poll_all M C s filter_id ps
        ≡ ok (s', map hash_of (blocks_from chain.block_at (suc n) (seen_in M chain n ps))))
unfolding poll_all
poll_all_lem M C enabled chain s until h n filter_id [] at low ok_ps = (s, refl)
poll_all_lem M C enabled chain s until h n filter_id (p ∷ ps) at low
      (soon, grows, still, later_ok) =
    let (s₁, polled, kept) =
      poll_lem M C enabled chain s p.now p.t p.t' n filter_id (at p.now soon)
        (λ nothing. ground (arith, chain.page_positive, low, grows, still, nothing)) in
    let (s₂, rest) =
      poll_all_lem M C enabled chain s₁ (p.now + C.filter_ttl) (chain.head p.t)
        (n + seen M chain p.t n) filter_id ps kept (ground (arith, low, grows)) later_ok in
    (
      s₂,
      poll_all_cons M C s s₁ s₂ filter_id p ps _ _ polled rest
          ∙ ap (λ hs. ok (s₂, hs))
              (hashes-append_after chain.block_at n (seen M chain p.t n)
                (seen_in M chain (n + seen M chain p.t n) ps)),
    )

-- A poll answers one block at least when there is one.
seen_in_bound :
    (M : MirrorNode) (chain : Chain M) (n goal : ℕ) (ps : List Poll)
    → All (λ (p : Poll). goal ≤ chain.head p.t) ps
    → goal ≤ n + length ps
    → goal ≤ n + seen_in M chain n ps
seen_in_bound M chain n goal [] h enough = omega arith
seen_in_bound M chain n goal (p ∷ ps) h enough =
    let step = seen_in_bound M chain (n + seen M chain p.t n) goal ps h.1 in
    elim (Bool-cases (ltb n goal)) [
      | inl before ↦ ground (arith, chain.page_positive, step, before, h.0, enough)
      | inr reached ↦ ground (arith, reached)
    ]

-- When each poll sees the chain up to a block at least, that block has been answered once there were
-- as many polls as there are blocks after the filter's position up to it. Each poll comes within the
-- time that the filter is kept after the poll before, the chain does not get shorter, and no block
-- comes between the two requests of one poll.
pub poll_all_complete :
    (M : MirrorNode) (C : Config) (enabled : C.filter_api_enabled ≡ true) (chain : Chain M)
    (s : Filters) (until h n goal : ℕ) (filter_id : Text) (ps : List Poll)
    → ((later : ℕ) → later ≤ until → IsAt s later filter_id n)
    → n ≤ h
    → AreInTime M chain C until h ps
    → All (λ (p : Poll). goal ≤ chain.head p.t) ps
    → goal ≤ n + length ps
    → (s' : Filters) × (k : ℕ) × (goal ≤ n + k)
      × (poll_all M C s filter_id ps ≡ ok (s', map hash_of (blocks_from chain.block_at (suc n) k)))
poll_all_complete M C enabled chain s until h n goal filter_id ps at low in_time seen_far enough =
    let (s', answered) = poll_all_lem M C enabled chain s until h n filter_id ps at low in_time in
    (s', seen_in M chain n ps, seen_in_bound M chain n goal ps seen_far enough, answered)
