-- ===== src/Common/Sorting.antt =====
-- The order of the logs of several addresses.
use mathlib.Core.List.{Perm}
use mathlib.Core.List.Perm as Permutations
use mpcq_json_rpc_relay.Prelude.{
  ℕ, suc, ◌++◌, ap, ◌∙◌, Option, none, some, ◌≡◌, refl, sym, subst, true, false, List, [], ◌∷◌,
  Text, arith, All, All-mono, Bool-cases, inl, inr,
}
use mpcq_json_rpc_relay.Prelude.Results.{Result, ok, >>=-eq-ok}
use mpcq_json_rpc_relay.Common.{Thrown, MirrorNodeLog, LogParams, MirrorNode, Config}
use mpcq_json_rpc_relay.Common.Logs.{
  text_geb, or_empty, insert_log, sort_logs, logs_of_addresses, get_logs_by_address,
}

text_geb_refl : (a : Text) → text_geb a a ≡ true
unfolding text_geb
text_geb_refl [] = refl
text_geb_refl (c ∷ a) = ground (arith, text_geb_refl a)

text_geb_total : (a b : Text) → text_geb a b ≡ false → text_geb b a ≡ true
unfolding text_geb
text_geb_total a [] h = ground arith
text_geb_total [] (d ∷ b) h = refl
text_geb_total (c ∷ a) (d ∷ b) h = ground (arith, text_geb_total a b)

text_geb_trans : (a b c : Text) → text_geb a b ≡ true → text_geb b c ≡ true → text_geb a c ≡ true
unfolding text_geb
text_geb_trans a b [] h k = refl
text_geb_trans a [] (z ∷ c) h k = ground arith
text_geb_trans [] (y ∷ b) (z ∷ c) h k = ground arith
text_geb_trans (x ∷ a) (y ∷ b) (z ∷ c) h k = ground (arith, text_geb_trans a b c)

-- Every log is at or after those before it.
abbrev NotBefore : MirrorNodeLog → MirrorNodeLog → Type 0
NotBefore l m = text_geb m.timestamp l.timestamp ≡ true

abbrev pub IsSorted : List MirrorNodeLog → Type 0
IsSorted [] = Unit
IsSorted (l ∷ ls) = All (NotBefore l) ls × IsSorted ls

All-insert_log :
    (P : MirrorNodeLog → Type 0) (l : MirrorNodeLog) (ms : List MirrorNodeLog)
    → P l
    → All P ms
    → All P (insert_log l ms)
unfolding insert_log
All-insert_log P l [] p h = (p, tt)
All-insert_log P l (m ∷ ms) p h = elim (Bool-cases (text_geb m.timestamp l.timestamp)) [
  | inl e ↦ rw e (p, h)
  | inr e ↦ rw e (h.0, All-insert_log P l ms p h.1)
]

insert_log-IsSorted :
    (l : MirrorNodeLog) (ms : List MirrorNodeLog) → IsSorted ms → IsSorted (insert_log l ms)
unfolding insert_log
insert_log-IsSorted l [] h = (tt, tt)
insert_log-IsSorted l (m ∷ ms) h = elim (Bool-cases (text_geb m.timestamp l.timestamp)) [
  | inl e ↦ rw e (
    (
      e,
      All-mono (NotBefore m) (NotBefore l)
          (λ n k. text_geb_trans n.timestamp m.timestamp l.timestamp k e) ms h.0,
    ),
    h,
  )
  | inr e ↦ rw e (
    All-insert_log (NotBefore m) l ms (text_geb_total m.timestamp l.timestamp e) h.0,
    insert_log-IsSorted l ms h.1,
  )
]

sort_logs-IsSorted : (ls : List MirrorNodeLog) → IsSorted (sort_logs ls)
unfolding sort_logs
sort_logs-IsSorted [] = tt
sort_logs-IsSorted (l ∷ ls) = insert_log-IsSorted l (sort_logs ls) (sort_logs-IsSorted ls)

insert_log-perm : (l : MirrorNodeLog) (ms : List MirrorNodeLog) → Perm (insert_log l ms) (l ∷ ms)
unfolding insert_log
insert_log-perm l [] = Permutations.rfl
insert_log-perm l (m ∷ ms) = elim (Bool-cases (text_geb m.timestamp l.timestamp)) [
  | inl e ↦ rw e Permutations.rfl
  | inr e ↦
      rw e
        (Permutations.trans (Permutations.cons m (insert_log-perm l ms)) (Permutations.swap l m ms))
]

sort_logs-perm : (ls : List MirrorNodeLog) → Perm (sort_logs ls) ls
unfolding sort_logs
sort_logs-perm [] = Permutations.rfl
sort_logs-perm (l ∷ ls) =
    Permutations.trans (insert_log-perm l (sort_logs ls)) (Permutations.cons l (sort_logs-perm ls))

-- The logs of an answer; there are none when it has no list.
abbrev pub found_logs : Option (List MirrorNodeLog) → List MirrorNodeLog
found_logs none = []
found_logs (some ls) = ls

found_logs-or_empty : (found : Option (List MirrorNodeLog)) → or_empty found ≡ found_logs found
unfolding or_empty
found_logs-or_empty none = refl
found_logs-or_empty (some ls) = refl

same_logs :
    (r : Result Thrown (List MirrorNodeLog)) (ls ms : List MirrorNodeLog)
    → r ≡ ok ls
    → r ≡ ok ms
    → ms ≡ ls
same_logs r ls ms h k = cc (h, k)

module _ (M : MirrorNode) (C : Config) where
  -- The lists that the mirror node answers for the addresses, one request for each, in one list.
  abbrev pub AreAnswers : ℕ → List Text → LogParams → List MirrorNodeLog → Type 0
  AreAnswers t [] params answers = answers ≡ []
  AreAnswers t (a ∷ more) params answers =
      (found : Option (List MirrorNodeLog)) × (rest : List MirrorNodeLog) × (M.get_logs_by_address t
          a params
        ≡ ok found)
      × AreAnswers (suc t) more params rest
      × (answers ≡ found_logs found ++ rest)

  logs_of_addresses-AreAnswers :
      (t : ℕ) (xs : List Text) (params : LogParams) (answers : List MirrorNodeLog)
      → logs_of_addresses M C t xs params ≡ ok answers
      → AreAnswers t xs params answers
  unfolding logs_of_addresses or_empty
  logs_of_addresses-AreAnswers t [] params answers h = ground (arith, h)
  logs_of_addresses-AreAnswers t (a ∷ more) params answers h =
      let (found, asked, h₁) = >>=-eq-ok (M.get_logs_by_address t a params) _ h in
      let (rest, others, h₂) = >>=-eq-ok (logs_of_addresses M C (suc t) more params) _ h₁ in
      (
        found,
        rest,
        asked,
        logs_of_addresses-AreAnswers (suc t) more params rest others,
        same_logs (ok (or_empty found ++ rest)) (or_empty found ++ rest) answers refl h₂
            ∙ ap (λ ls. ls ++ rest) (found_logs-or_empty found),
      )

  -- The logs of several addresses are those that the mirror node answers for each address, every one
  -- of them as often as it is answered, in the order of their timestamps.
  pub get_logs_by_address-IsSorted :
      (t : ℕ) (xs : List Text) (params : LogParams) (logs : List MirrorNodeLog)
      → get_logs_by_address M C t xs params ≡ ok logs
      → (answers : List MirrorNodeLog) × AreAnswers t xs params answers
        × Perm logs answers
        × IsSorted logs
  unfolding get_logs_by_address
  get_logs_by_address-IsSorted t xs params logs h =
      let (answers, found, sorted) = >>=-eq-ok (logs_of_addresses M C t xs params) _ h in
      let same : logs ≡ sort_logs answers = ground (arith, sorted) in
      (
        answers,
        logs_of_addresses-AreAnswers t xs params answers found,
        subst (λ z. Perm z answers) (sym same) (sort_logs-perm answers),
        subst IsSorted (sym same) (sort_logs-IsSorted answers),
      )
