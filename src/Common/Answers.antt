-- ===== src/Common/Answers.antt =====
-- What a request for logs answers, from the checks of its range to the logs.
use mpcq_json_rpc_relay.Prelude.{
  ℕ, ◌+◌, ◌≤◌, ◌≡◌, ◌⊎◌, inl, inr, refl, true, false, Option, none, some, List, [], ◌∷◌, Text,
  arith, text_eq, map, Bool-cases, Option-cases, if◌then◌else◌, ◌==◌,
}
use mpcq_json_rpc_relay.Prelude.Results.{ok, err, >>=-eq-ok}
use mpcq_json_rpc_relay.Common.{
  mirror_node, Tag, by_hash, TimestampParam, LogParams, MirrorNode, Config, MirrorNodeLog, text,
  number_of, number_of_text, tag_is, block_tag_is_latest_or_pending, max_safe_integer,
  block_earliest,
}
use mpcq_json_rpc_relay.Common.Blocks.{translate_block_tag, is_block_num_valid}
use mpcq_json_rpc_relay.Common.Ranges.{Address, validate_block_hash_and_add_timestamp_to_params}
use mpcq_json_rpc_relay.Common.Logs.{
  Topic, Log, to_log, add_topics_to_params, log_results, get_logs_with_params, timestamps, get_logs,
}

-- A valid block number is the text of a number that JavaScript holds exactly, and is no tag.
is_block_num_valid_lem :
    (s : Text)
    → is_block_num_valid s ≡ true
    → (n : ℕ) × (number_of_text s ≡ some n)
      × (n ≤ max_safe_integer)
      × (block_tag_is_latest_or_pending (text s) ≡ false)
      × (tag_is (text s) block_earliest ≡ false)
unfolding is_block_num_valid block_tag_is_latest_or_pending tag_is text_eq
is_block_num_valid_lem [] h = ground arith
is_block_num_valid_lem (a ∷ []) h = ground arith
is_block_num_valid_lem (a ∷ b ∷ s) h = elim (Option-cases (number_of_text (a ∷ b ∷ s))) [
  | inl e ↦ absurd (ground (arith, h, e))
  | inr (n, e) ↦ (n, e, ground (arith, h, e), ground (arith, h), ground (arith, h))
]

module _ (M : MirrorNode) (C : Config) where
  -- A request that returns answers either nothing, when there is no block for it, or the logs that
  -- the mirror node has for the accepted timestamps and topics.
  pub get_logs_lem :
      (t : ℕ) (block_hash : Option Text) (from_block to_block : Tag) (addr : Address)
      (topics : Option (List Topic)) (logs : List Log)
      → get_logs M C t block_hash from_block to_block addr topics ≡ ok logs
      → ((timestamps M C t block_hash from_block to_block addr ≡ ok none) × (logs ≡ []))
        ⊎ ((ts : List TimestampParam) × (params : LogParams) × (found : List MirrorNodeLog)
            × (timestamps M C t block_hash from_block to_block addr ≡ ok (some ts))
            × (add_topics_to_params (record { timestamp = ts; topics = [] }) topics ≡ ok params)
            × (log_results M C (t + 5) addr params ≡ ok found)
            × (logs ≡ map to_log found))
  unfolding get_logs get_logs_with_params
  get_logs_lem t block_hash from_block to_block addr topics logs h =
      let (range, checked, later) =
        >>=-eq-ok (timestamps M C t block_hash from_block to_block addr) _ h in
      elim (Option-cases range) [
        | inl e ↦ inl (ground (arith, checked, e), ground (arith, later, e))
        | inr (ts, e) ↦
            let (params, added, rest) =
              >>=-eq-ok (add_topics_to_params (record { timestamp = ts; topics = [] }) topics) _
                (rw e at later) in
            let (found, fetched, answer) = >>=-eq-ok (log_results M C (t + 5) addr params) _ rest in
            inr (ts, params, found, cc (checked, e), added, fetched, ground (arith, answer))
      ]

  -- A block hash that the mirror node answers with status 404 or with nothing has no logs, and any
  -- other error of the mirror node is thrown on.
  pub get_logs-error :
      (t : ℕ) (block_hash : Text) (from_block to_block : Tag) (addr : Address)
      (topics : Option (List Topic)) (status : ℕ)
      → text_eq block_hash [] ≡ false
      → M.get_block t (by_hash block_hash) ≡ err (mirror_node status)
      → get_logs M C t (some block_hash) from_block to_block addr topics
        ≡ (if status == 404 then ok [] else err (mirror_node status))
  unfolding get_logs timestamps validate_block_hash_and_add_timestamp_to_params
  get_logs-error t block_hash from_block to_block addr topics status given failed =
      rw (given, validate_block_hash_and_add_timestamp_to_params, failed)
        (elim (Bool-cases (status == 404)) [ inl e ↦ rw e refl | inr e ↦ rw e refl ])

  -- A valid block number is translated to a number that JavaScript holds exactly, and no request is
  -- made for it.
  pub translate_block_tag-valid :
      (t : ℕ) (s : Text)
      → is_block_num_valid s ≡ true
      → (n : ℕ) × (translate_block_tag M C t (text s) ≡ ok (some n)) × (n ≤ max_safe_integer)
  unfolding translate_block_tag number_of
  translate_block_tag-valid t s h =
      let (n, reads, safe, not_latest, not_earliest) = is_block_num_valid_lem s h in
      (n, rw (not_latest, not_earliest, reads) refl, safe)
