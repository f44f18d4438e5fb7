-- ===== src/Hbar/MapCache.antt =====
-- A cache that forgets nothing, as an association list: it keeps the laws of `CacheClient`.
use mpcq_json_rpc_relay.Prelude.{
  ℕ, zero, suc, ◌+◌, ◌-◌, ◌≡◌, ◌≢◌, refl, sym, Bool, true, Option, none, some, List, [], ◌∷◌, ◌++◌,
  Text, codes, lookup, insert, remove, lookup-insert, lookup-remove, lookup-insert_self, text_eq,
  text_eq_iff, text_eq_refl, arith, length, length-append, keep_if, Bool-cases, inl, inr, ◌∙◌, ap,
  subst,
}
use mpcq_json_rpc_relay.Prelude.Sets.{has}
use mpcq_json_rpc_relay.Hbar.Keys.{amount_spent_key}
use mpcq_json_rpc_relay.Hbar.Cache.{Value, amount, CacheClient}

abbrev Entries : Type 0
Entries = List (Text × Value)

-- `INCRBY`: a value that is no number stays.
abbrev plus : ℕ → Option Value → Option Value
plus m (some (amount n)) = some (amount (n + m))
plus m v = v

abbrev put : Text → Option Value → Entries → Entries
put k none s = s
put k (some v) s = insert k v s

unfoldable pub incr_by : Entries → Text → ℕ → Entries
incr_by s k m = put k (plus m (lookup k s)) s

abbrev drop : ℕ → Text → Text
drop zero s = s
drop (suc n) [] = []
drop (suc n) (c ∷ s) = drop n s

abbrev take : ℕ → Text → Text
take zero s = []
take (suc n) [] = []
take (suc n) (c ∷ s) = c ∷ take n s

-- The id in an amount key.
abbrev id_of : Text → Text
id_of k = let body = drop 17 k in take (length body - 12) body

unfoldable pub is_amount_key : Text → Bool
unfolding amount_spent_key
is_amount_key k = text_eq (amount_spent_key (id_of k)) k

take-append : (a b : Text) → take (length a) (a ++ b) ≡ a
take-append [] b = refl
take-append (c ∷ a) b = ap (λ x. c ∷ x) (take-append a b)

take_all_but :
    (a : Text) → take (length (a ++ codes ":amountSpent") - 12) (a ++ codes ":amountSpent") ≡ a
take_all_but a =
    let n : length (a ++ codes ":amountSpent") - 12 ≡ length a =
      omega (arith, length-append a (codes ":amountSpent")) in
    ap (λ m. take m (a ++ codes ":amountSpent")) n ∙ take-append a (codes ":amountSpent")

is_amount_key-amount_spent_key : (id : Text) → is_amount_key (amount_spent_key id) ≡ true
unfolding is_amount_key amount_spent_key
is_amount_key-amount_spent_key id =
    subst (λ y. text_eq (amount_spent_key y) (amount_spent_key id) ≡ true) (sym (take_all_but id))
      (text_eq_refl (amount_spent_key id))

abbrev names : Entries → List Text
names [] = []
names ((k, v) ∷ s) = k ∷ names s

-- The keys under the pattern of the amounts.
unfoldable pub keys : Entries → Text → List Text
unfolding is_amount_key
keys s pattern = keep_if is_amount_key (names s)

has-names :
    (s : Entries) (k : Text)
    → lookup k s ≢ none
    → is_amount_key k ≡ true
    → has k (keep_if is_amount_key (names s)) ≡ true
unfolding has lookup
has-names [] k h a = absurd (h refl)
has-names ((j, v) ∷ s) k h a = elim (Bool-cases (text_eq j k)) [
  | inl e ↦
      let same = (text_eq_iff j k).0 e in
      let aj = subst (λ x. is_amount_key x ≡ true) (sym same) a in ground (arith, aj, e)
  | inr e ↦
      let h' : lookup k s ≢ none = λ n. h (ground (arith, e, n)) in
      let rest = has-names s k h' a in ground (arith, e, rest)
]

has-keep_if :
    (p : Text → Bool) (ks : List Text) (k : Text) → has k (keep_if p ks) ≡ true → p k ≡ true
unfolding has
has-keep_if p [] k h = ground arith
has-keep_if p (j ∷ ks) k h =
    let rest = has-keep_if p ks k in
    elim (Bool-cases (text_eq j k)) [
      | inl e ↦
          let same = (text_eq_iff j k).0 e in
          subst (λ x. p x ≡ true) same (ground (arith, rest, h, same))
      | inr e ↦ rest (ground (arith, h, e))
    ]

pub map_cache-get-incr_by_self :
    (s : Entries) (k : Text) (n m : ℕ)
    → lookup k s ≡ some (amount n)
    → lookup k (incr_by s k m) ≡ some (amount (n + m))
unfolding incr_by
map_cache-get-incr_by_self s k n m h = rw h (lookup-insert_self k (amount (n + m)) s)

put_ne : (s : Entries) (k j : Text) (v : Option Value) → k ≢ j → lookup j (put k v s) ≡ lookup j s
put_ne s k j none ne = refl
put_ne s k j (some v) ne = ground (arith, lookup-insert k j v s, text_eq_iff k j)

pub map_cache-get-incr_by_ne :
    (s : Entries) (k j : Text) (m : ℕ) → k ≢ j → lookup j (incr_by s k m) ≡ lookup j s
unfolding incr_by
map_cache-get-incr_by_ne s k j m ne = put_ne s k j (plus m (lookup k s)) ne

pub lookup-insert_ne :
    (s : Entries) (k j : Text) (v : Value) (ttl : ℕ) → k ≢ j → lookup j (insert k v s) ≡ lookup j s
lookup-insert_ne s k j v ttl ne = ground (arith, lookup-insert k j v s, text_eq_iff k j)

pub lookup-remove_self : (s : Entries) (k : Text) → lookup k (remove k s) ≡ none
lookup-remove_self s k = ground (arith, lookup-remove k k s, text_eq_refl k)

pub lookup-remove_ne : (s : Entries) (k j : Text) → k ≢ j → lookup j (remove k s) ≡ lookup j s
lookup-remove_ne s k j ne = ground (arith, lookup-remove k j s, text_eq_iff k j)

pub has-keys :
    (s : Entries) (id : Text)
    → lookup (amount_spent_key id) s ≢ none
    → has (amount_spent_key id) (keys s (amount_spent_key (codes "*"))) ≡ true
unfolding keys
has-keys s id h = has-names s (amount_spent_key id) h (is_amount_key-amount_spent_key id)

pub keys-only :
    (s : Entries) (k : Text)
    → has k (keys s (amount_spent_key (codes "*"))) ≡ true
    → (id : Text) × (k ≡ amount_spent_key id)
unfolding keys is_amount_key
keys-only s k h = (
  id_of k,
  sym ((text_eq_iff (amount_spent_key (id_of k)) k).0 (has-keep_if is_amount_key (names s) k h)),
)

abbrev pub map_cache : CacheClient
map_cache = record {
  Store = Entries;
  get = λ s k. lookup k s;
  set = λ s k v ttl. insert k v s;
  delete = λ s k. remove k s;
  incr_by = incr_by;
  keys = keys;
  get-set_self = λ s k v ttl. lookup-insert_self k v s;
  get-set_ne = lookup-insert_ne;
  get-delete_self = lookup-remove_self;
  get-delete_ne = lookup-remove_ne;
  get-incr_by_self = map_cache-get-incr_by_self;
  get-incr_by_ne = map_cache-get-incr_by_ne;
  keys-amount_spent = has-keys;
  keys-amount_spent_only = keys-only;
}
