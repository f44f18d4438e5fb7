-- ===== src/Filters/Chain.antt =====
-- The chain of blocks as the mirror node answers for it.
use mpcq_json_rpc_relay.Prelude.{
  ℕ, zero, suc, ◌+◌, ◌-◌, ◌<◌, ◌≡◌, ◌∙◌, refl, ap, some, List, [], ◌∷◌, ◌++◌, Text, if◌then◌else◌,
  ltb, map, arith,
}
use mpcq_json_rpc_relay.Prelude.Results.{ok}
use mpcq_json_rpc_relay.Formatters.Prefix.{to_hash32}
use mpcq_json_rpc_relay.Common.{Tag, MirrorNodeBlock, MirrorNode, number_of}
use mpcq_json_rpc_relay.Filters.{last_of}

abbrev smaller : ℕ → ℕ → ℕ
smaller a b = if ltb a b then a else b

-- The blocks from a number on.
abbrev pub blocks_from : (ℕ → MirrorNodeBlock) → ℕ → ℕ → List MirrorNodeBlock
blocks_from block_at n zero = []
blocks_from block_at n (suc k) = block_at n ∷ blocks_from block_at (suc n) k

-- What the mirror node documents: one chain of blocks, of which a request sees those up to the head
-- at its time, and a list of blocks after a number begins with the next and has at most a page.
pub record Chain (M : MirrorNode) : Type 0 where
  pub block_at : ℕ → MirrorNodeBlock
  pub head : ℕ → ℕ
  pub page : ℕ
  pub page_positive : 0 < page
  pub numbered : (n : ℕ) → (block_at n).number ≡ n
  pub latest : (t : ℕ) → M.get_latest_block t ≡ ok (some (block_at (head t) ∷ []))
  pub after :
      (t : ℕ) (tag : Tag) (n : ℕ)
      → number_of tag ≡ some n
      → M.get_blocks_after t tag
        ≡ ok (some (blocks_from block_at (suc n) (smaller page (head t - n))))

abbrev pub hash_of : MirrorNodeBlock → Text
hash_of b = to_hash32 b.hash

pub last_of-blocks_from :
    (block_at : ℕ → MirrorNodeBlock) (n k : ℕ)
    → last_of (blocks_from block_at n (suc k)) ≡ some (block_at (n + k))
unfolding last_of
last_of-blocks_from block_at n zero = ap (λ m. some (block_at m)) (omega arith)
last_of-blocks_from block_at n (suc k) =
    last_of-blocks_from block_at (suc n) k ∙ ap (λ m. some (block_at m)) (omega arith)

module _ (M : MirrorNode) (chain : Chain M) where
  -- How many blocks a poll answers from a number on.
  abbrev pub seen : ℕ → ℕ → ℕ
  seen t n = smaller chain.page (chain.head t - n)

same_blocks :
    (block_at : ℕ → MirrorNodeBlock) (m n a b : ℕ)
    → m ≡ n
    → a ≡ b
    → map hash_of (blocks_from block_at m a) ≡ map hash_of (blocks_from block_at n b)
same_blocks block_at m n a b e f = cc (e, f)

-- A part of the chain and the part after it, as hashes.
pub hashes-append :
    (block_at : ℕ → MirrorNodeBlock) (n a b : ℕ)
    → map hash_of (blocks_from block_at n a) ++ map hash_of (blocks_from block_at (n + a) b)
      ≡ map hash_of (blocks_from block_at n (a + b))
hashes-append block_at n zero b =
    same_blocks block_at (n + 0) n b (0 + b) (omega arith) (omega arith)
hashes-append block_at n (suc a) b =
    ap (λ hs. hash_of (block_at n) ∷ hs)
      (ap (λ hs. map hash_of (blocks_from block_at (suc n) a) ++ hs)
          (same_blocks block_at (n + suc a) (suc n + a) b b (omega arith) refl)
        ∙ hashes-append block_at (suc n) a b)
    ∙ same_blocks block_at n n (suc (a + b)) (suc a + b) refl (omega arith)

pub hashes-append_after :
    (block_at : ℕ → MirrorNodeBlock) (n a b : ℕ)
    → map hash_of (blocks_from block_at (suc n) a)
        ++ map hash_of (blocks_from block_at (suc (n + a)) b)
      ≡ map hash_of (blocks_from block_at (suc n) (a + b))
hashes-append_after block_at n a b =
    ap (λ hs. map hash_of (blocks_from block_at (suc n) a) ++ hs)
      (same_blocks block_at (suc (n + a)) (suc n + a) b b (omega arith) refl)
    ∙ hashes-append block_at (suc n) a b
