-- ===== src/Common/Topics.antt =====
-- The topics of a request for logs.
use mpcq_json_rpc_relay.Prelude.{
  ℕ, suc, ◌≤◌, ◌≡◌, ◌∙◌, inl, inr, Option, none, some, List, [], ◌∷◌, Text, arith, length, ltb, ◌<◌,
  ◌==◌, if◌then◌else◌, subst, sym, Bool-cases, Option-cases,
}
use mpcq_json_rpc_relay.Prelude.Results.{ok, >>=-eq-ok}
use mpcq_json_rpc_relay.Formatters.Prefix.{trim_preceding_zeros}
use mpcq_json_rpc_relay.Common.{TopicParam, one, any_of, LogParams}
use mpcq_json_rpc_relay.Common.Logs.{
  Topic, nil, value, nested, trim_all, topic_param, topics_from, add_topics_to_params,
}

-- What a list of values of a topic stands for, when all of them are hexadecimal.
abbrev pub Trimmed : List (Option Text) → List Text → Type 0
Trimmed [] [] = Unit
Trimmed (v ∷ vs) (t ∷ ts) = (trim_preceding_zeros v ≡ some t) × Trimmed vs ts
Trimmed _ _ = ⊥

-- The parameter for a topic: none for null, one trimmed value, or at most 100 of them.
abbrev pub Stands : Topic → Option TopicParam → Type 0
Stands nil p = p ≡ none
Stands (value v) p = (t : Text) × (trim_preceding_zeros v ≡ some t) × (p ≡ some (one t))
Stands (nested vs) p =
    (ts : List Text) × (p ≡ some (any_of ts)) × (length vs ≤ 100) × (Trimmed vs ts)

-- The parameter of a topic with a number.
unfoldable pub param_at : ℕ → List (ℕ × TopicParam) → Option TopicParam
param_at i [] = none
param_at i ((j, p) ∷ ps) = let rest = param_at i ps in if j == i then some p else rest

-- The topics from a number on each stand for the parameter with their number.
abbrev pub AllStand : ℕ → List Topic → List (ℕ × TopicParam) → Type 0
AllStand i [] ps = Unit
AllStand i (t ∷ ts) ps = Stands t (param_at i ps) × (AllStand (suc i) ts ps)

trim_all-Trimmed :
    (i : ℕ) (vs : List (Option Text)) (ts : List Text) → trim_all i vs ≡ ok ts → Trimmed vs ts
unfolding trim_all
trim_all-Trimmed i [] [] h = tt
trim_all-Trimmed i [] (t ∷ ts) h = ground arith
trim_all-Trimmed i (v ∷ vs) ts h = elim (Option-cases (trim_preceding_zeros v)) [
  | inl e ↦ absurd (ground (arith, h, e))
  | inr (trimmed, e) ↦
      let (rest, found, same) = >>=-eq-ok (trim_all i vs) _ (rw (e, trim_all) at h) in
      let shape : ts ≡ trimmed ∷ rest = ground (arith, same) in
      subst (Trimmed (v ∷ vs)) (sym shape) (e, trim_all-Trimmed i vs rest found)
]

topic_param-Stands :
    (i : ℕ) (t : Topic) (p : Option TopicParam) → topic_param i t ≡ ok p → Stands t p
unfolding topic_param
topic_param-Stands i nil p h = ground arith
topic_param-Stands i (value v) p h = elim (Option-cases (trim_preceding_zeros v)) [
  | inl e ↦ absurd (ground (arith, h, e))
  | inr (trimmed, e) ↦ (trimmed, e, ground (arith, h, e))
]
topic_param-Stands i (nested vs) p h = elim (Bool-cases (ltb 100 (length vs))) [
  | inl e ↦ absurd (ground (arith, h, e))
  | inr e ↦
      let (ts, found, same) = >>=-eq-ok (trim_all i vs) _ (rw e at h) in
      (ts, ground (arith, same), ground (arith, e), trim_all-Trimmed i vs ts found)
]

-- The loop step in either case: what comes first, the rest, and how they are put together.
abbrev join : ℕ → Option TopicParam → List (ℕ × TopicParam) → List (ℕ × TopicParam)
join i none rest = rest
join i (some p) rest = (i, p) ∷ rest

topics_from_cons :
    (i : ℕ) (t : Topic) (ts : List Topic) (ps : List (ℕ × TopicParam))
    → topics_from i (t ∷ ts) ≡ ok ps
    → (p : Option TopicParam) × (rest : List (ℕ × TopicParam)) × (topic_param i t ≡ ok p)
      × (topics_from (suc i) ts ≡ ok rest)
      × (ps ≡ join i p rest)
unfolding topics_from
topics_from_cons i t ts ps h =
    let (p, first, h₁) = >>=-eq-ok (topic_param i t) _ h in
    let (rest, later, h₂) = >>=-eq-ok (topics_from (suc i) ts) _ h₁ in
    elim (Option-cases p) [
      | inl e ↦ (p, rest, first, later, ground (arith, h₂, e))
      | inr (q, e) ↦ (p, rest, first, later, ground (arith, h₂, e))
    ]

param_at_below :
    (i j : ℕ) (ts : List Topic) (ps : List (ℕ × TopicParam))
    → topics_from j ts ≡ ok ps
    → i < j
    → param_at i ps ≡ none
unfolding topics_from param_at
param_at_below i j [] ps h low = ground arith
param_at_below i j (t ∷ ts) ps h low =
    let (p, rest, first, later, same) = topics_from_cons j t ts ps h in
    let below = param_at_below i (suc j) ts rest later (omega arith) in
    elim (Option-cases p) [
      | inl e ↦ ground (arith, same, e, below)
      | inr (q, e) ↦ ground (arith, same, e, below)
    ]

param_at_later :
    (i j : ℕ) (p : TopicParam) (ps : List (ℕ × TopicParam))
    → i < j
    → param_at j ((i, p) ∷ ps) ≡ param_at j ps
unfolding param_at
param_at_later i j p ps low = ground arith

param_at_first :
    (i : ℕ) (p : TopicParam) (ps : List (ℕ × TopicParam)) → param_at i ((i, p) ∷ ps) ≡ some p
unfolding param_at
param_at_first i p ps = ground arith

AllStand-cons :
    (i j : ℕ) (p : TopicParam) (ts : List Topic) (ps : List (ℕ × TopicParam))
    → i < j
    → AllStand j ts ps
    → AllStand j ts ((i, p) ∷ ps)
AllStand-cons i j p [] ps low h = tt
AllStand-cons i j p (t ∷ ts) ps low h = (
  subst (Stands t) (sym (param_at_later i j p ps low)) h.0,
  AllStand-cons i (suc j) p ts ps (omega arith) h.1,
)

topics_from-AllStand :
    (i : ℕ) (ts : List Topic) (ps : List (ℕ × TopicParam))
    → topics_from i ts ≡ ok ps
    → AllStand i ts ps
topics_from-AllStand i [] ps h = tt
topics_from-AllStand i (t ∷ ts) ps h =
    let (p, rest, first, later, same) = topics_from_cons i t ts ps h in
    let stands = topic_param-Stands i t p first in
    let others = topics_from-AllStand (suc i) ts rest later in
    elim (Option-cases p) [
      | inl e ↦
          let shape : ps ≡ rest = ground (arith, same, e) in
          subst (AllStand i (t ∷ ts)) (sym shape) (
            subst (Stands t) (e ∙ sym (param_at_below i (suc i) ts rest later (omega arith)))
                stands,
            others,
          )
      | inr (q, e) ↦
          let shape : ps ≡ (i, q) ∷ rest = ground (arith, same, e) in
          subst (AllStand i (t ∷ ts)) (sym shape) (
            subst (Stands t) (e ∙ sym (param_at_first i q rest)) stands,
            AllStand-cons i (suc i) q ts rest (omega arith) others,
          )
    ]

-- When the topics are accepted, the parameter `topic<i>` stands for the topic `i`: there is none for
-- null, and else it has the topic's value, or all of its at most 100 values, with the prefix and the
-- leading zeros removed. The other parameters are as they were.
pub add_topics_to_params-AllStand :
    (params params' : LogParams) (topics : List Topic)
    → params.topics ≡ []
    → add_topics_to_params params (some topics) ≡ ok params'
    → AllStand 0 topics params'.topics × (params'.timestamp ≡ params.timestamp)
unfolding add_topics_to_params
add_topics_to_params-AllStand params params' topics fresh h =
    let (added, found, same) = >>=-eq-ok (topics_from 0 topics) _ h in
    let topics_same : params'.topics ≡ added = ground (arith, same, fresh) in
    (
      subst (AllStand 0 topics) (sym topics_same) (topics_from-AllStand 0 topics added found),
      ground (arith, same),
    )
