-- ===== src/Vm/Keys.antt =====
-- The comparison of keys (`valueKeyEquals` of include/niki/l0_core/vm/object.hpp).
use niki.Prelude.{
  ℕ, ◌<◌, ◌^◌, ◌≡◌, refl, sym, ap, ◌⊎◌, ◌∙◌, inl, inr, Bool, true, false, List, Option, some, arith,
  if◌then◌else◌, bytes_eq_sound, bytes_eq_refl,
}
use niki.Object.Value.{Value, nil, bool, int, float, object, Obj, ObjMap, Heap, deref}
use niki.Object.Map.{map_set, map_get}
use niki.Object.MapLaws.{IsMap, IsKeyTest, map_get-map_set}
use niki.Vm.Numbers.{Host}
use niki.Vm.Objects.{objects_equal, value_key_equals}

-- Patterns of floats that are equal compare alike with any third one.
pub record ComparesFloats (host : Host) : Type 0 where
  pub left : (a b c : ℕ) → host.float_eq a b ≡ true → host.float_eq a c ≡ host.float_eq b c
  pub right : (a b c : ℕ) → host.float_eq a b ≡ true → host.float_eq c a ≡ host.float_eq c b

-- What the comparison of two objects sees: the bytes of a string, the address of another object.
seen : ℕ → Option Obj → List ℕ ⊎ ℕ
seen a (some (Obj.string s)) = inl s
seen a _ = inr a

both_true : (x y : Bool) → (x ≡ true → y ≡ true) → (y ≡ true → x ≡ true) → x ≡ y
both_true true y f g = sym (f refl)
both_true false true f g = g refl
both_true false false f g = refl

seen-same :
    (a b : ℕ) (o p : Option Obj)
    → objects_equal a b o p ≡ true
    → (a ≡ b → o ≡ p)
    → seen a o ≡ seen b p
unfolding objects_equal seen
seen-same a b (some (Obj.string s)) (some (Obj.string t)) h same = ap inl (bytes_eq_sound s t h)
seen-same a b (some (Obj.string s)) _ h same =
    let e : a ≡ b = ground (arith, h) in let w = same e in cc
seen-same a b _ (some (Obj.string t)) h same =
    let e : a ≡ b = ground (arith, h) in let w = same e in cc
seen-same a b _ _ h same = let e : a ≡ b = ground (arith, h) in ap inr e

same-seen : (a b : ℕ) (o p : Option Obj) → seen a o ≡ seen b p → objects_equal a b o p ≡ true
unfolding objects_equal seen
same-seen a b (some (Obj.string s)) (some (Obj.string t)) h =
    let e : s ≡ t = cc in rw e (bytes_eq_refl t)
same-seen a b (some (Obj.string s)) _ h = cc
same-seen a b _ (some (Obj.string t)) h = cc
same-seen a b _ _ h = let e : a ≡ b = cc in ground (arith, e)

objects_alike :
    (heap : Heap) (a b c d : ℕ)
    → (seen a (deref heap a) ≡ seen b (deref heap b)
        → seen c (deref heap c) ≡ seen d (deref heap d))
    → objects_equal a b (deref heap a) (deref heap b) ≡ true
    → objects_equal c d (deref heap c) (deref heap d) ≡ true
objects_alike heap a b c d f h =
    same-seen c d _ _ (f (seen-same a b _ _ h (λ e. ap (deref heap) e)))

module _ (host : Host) (floats : ComparesFloats host) (heap : Heap) where
  keys-left :
      (a b c : Value)
      → value_key_equals host heap a b ≡ true
      → value_key_equals host heap a c ≡ value_key_equals host heap b c
  unfolding value_key_equals
  keys-left nil nil c h = refl
  keys-left (bool x) (bool y) (bool z) h = ground (arith, h)
  keys-left (int x) (int y) (int z) h = ground (arith, h)
  keys-left (float x) (float y) (float z) h = floats.left x y z h
  keys-left (object x) (object y) (object z) h =
      let e = seen-same x y _ _ h (λ w. ap (deref heap) w) in
      both_true _ _ (objects_alike heap x z y z (λ w. sym e ∙ w))
        (objects_alike heap y z x z (λ w. e ∙ w))
  keys-left _ _ _ h = ground (arith, h)

  keys-right :
      (a b c : Value)
      → value_key_equals host heap a b ≡ true
      → value_key_equals host heap c a ≡ value_key_equals host heap c b
  unfolding value_key_equals
  keys-right nil nil c h = refl
  keys-right (bool x) (bool y) (bool z) h = ground (arith, h)
  keys-right (int x) (int y) (int z) h = ground (arith, h)
  keys-right (float x) (float y) (float z) h = floats.right x y z h
  keys-right (object x) (object y) (object z) h =
      let e = seen-same x y _ _ h (λ w. ap (deref heap) w) in
      both_true _ _ (objects_alike heap z x z y (λ w. w ∙ e))
        (objects_alike heap z y z x (λ w. w ∙ sym e))
  keys-right _ _ _ h = ground (arith, h)

  value_key_equals-IsKeyTest : IsKeyTest (value_key_equals host heap)
  value_key_equals-IsKeyTest = record { left = keys-left; right = keys-right }

-- On a map below 2 ^ 31 slots, with the comparison that the instructions use: a read of any key after a
-- write gives the value that was written where the keys are equal and what it gave before otherwise,
-- and the map stays well formed. Patterns of floats that are equal are taken to compare alike.
pub map_get-map_set_keys :
    (host : Host) (heap : Heap) (k key value : Value) (m : ObjMap)
    → ComparesFloats host
    → IsMap m
    → m.capacity < 2 ^ 31
    → (map_get (value_key_equals host heap) k (map_set (value_key_equals host heap) key value m) ≡ (
        if value_key_equals host heap key k
        then some value
        else map_get (value_key_equals host heap) k m))
      × IsMap (map_set (value_key_equals host heap) key value m)
map_get-map_set_keys host heap k key value m floats h small =
    map_get-map_set (value_key_equals host heap) (value_key_equals-IsKeyTest host floats heap) k key
      value m h small
