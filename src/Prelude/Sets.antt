-- ===== src/Prelude/Sets.antt =====
-- JavaScript Sets of strings, in insertion order.
use mathlib.Core.Path.{◌≡◌, refl}
use mathlib.Core.List.{List, [], ◌∷◌}
use mathlib.Core.Bool.{Bool, true, false, ◌||◌}
use native.Mathlib.Omega.{arith}
use Prim.Native.Nat.{◌+◌}
use mpcq_json_rpc_relay.Prelude.Tests.{if◌then◌else◌}
use mpcq_json_rpc_relay.Prelude.Lists.{length}
use mpcq_json_rpc_relay.Prelude.Strings.{Text, text_eq, text_eq_iff}

-- `s.has(x)`.
unfoldable pub has : Text → List Text → Bool
has x [] = false
has x (y ∷ s) = text_eq y x || has x s

-- `s.add(x)`.
unfoldable pub push_end : Text → List Text → List Text
push_end x [] = x ∷ []
push_end x (y ∷ s) = y ∷ push_end x s

unfoldable pub add : Text → List Text → List Text
add x s = if has x s then s else push_end x s

-- `s.delete(x)`.
unfoldable pub delete : Text → List Text → List Text
delete x [] = []
delete x (y ∷ s) = if text_eq y x then delete x s else y ∷ delete x s

-- No element stands twice.
abbrev pub Distinct : List Text → Type 0
Distinct [] = Unit
Distinct (x ∷ s) = (has x s ≡ false) × Distinct s

has-push_end : (x y : Text) (s : List Text) → has y (push_end x s) ≡ (has y s || text_eq x y)
unfolding has push_end
has-push_end x y [] = ground arith
has-push_end x y (z ∷ s) = ground (arith, has-push_end x y s)

pub has-add :
    (x y : Text) (s : List Text) → has y (add x s) ≡ (if text_eq x y then true else has y s)
unfolding add
has-add x y s = ground (arith, has-push_end x y s, text_eq_iff x y)

pub has-delete :
    (x y : Text) (s : List Text) → has y (delete x s) ≡ (if text_eq x y then false else has y s)
unfolding has delete
has-delete x y [] = ground arith
has-delete x y (z ∷ s) =
    ground (arith, has-delete x y s, text_eq_iff z x, text_eq_iff z y, text_eq_iff x y)

delete_absent : (x : Text) (s : List Text) → has x s ≡ false → delete x s ≡ s
unfolding has delete
delete_absent x [] h = refl
delete_absent x (z ∷ s) h = ground (arith, delete_absent x s)

length-push_end : (x : Text) (s : List Text) → length (push_end x s) ≡ length s + 1
unfolding push_end
length-push_end x [] = omega arith
length-push_end x (y ∷ s) = omega (arith, length-push_end x s)

pub length-add :
    (x : Text) (s : List Text) → length (add x s) ≡ length s + (if has x s then 0 else 1)
unfolding add
length-add x s = ground (arith, length-push_end x s)

pub length-delete :
    (x : Text) (s : List Text)
    → Distinct s
    → length (delete x s) + (if has x s then 1 else 0) ≡ length s
unfolding has delete
length-delete x [] d = omega arith
length-delete x (y ∷ s) d =
    ground (arith, length-delete x s d.1, delete_absent x s, text_eq_iff y x)

Distinct-push_end :
    (x : Text) (s : List Text) → Distinct s → has x s ≡ false → Distinct (push_end x s)
unfolding has push_end
Distinct-push_end x [] d h = (refl, tt)
Distinct-push_end x (y ∷ s) d h =
    ground (arith, has-push_end x y s, Distinct-push_end x s d.1, text_eq_iff x y, text_eq_iff y x)

pub Distinct-add : (x : Text) (s : List Text) → Distinct s → Distinct (add x s)
unfolding add
Distinct-add x s d = ground (arith, Distinct-push_end x s d)

pub Distinct-delete : (x : Text) (s : List Text) → Distinct s → Distinct (delete x s)
unfolding delete
Distinct-delete x [] d = tt
Distinct-delete x (y ∷ s) d = ground (arith, has-delete x y s, Distinct-delete x s d.1)
