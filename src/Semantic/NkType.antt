-- ===== src/Semantic/NkType.antt =====
-- The 4-byte type handle (include/niki/l0_core/semantic/nktype.hpp): 8 bits of base type and 24 bits
-- of type id.
use niki.Prelude.{
  ℕ, ◌+◌, ◌*◌, ◌/◌, ◌%◌, ◌^◌, ◌-◌, ◌≤◌, ◌<◌, ◌≡◌, ◌↔◌, ◌⊎◌, refl, Bool, true, false, ◌&&◌, List, [],
  ◌∷◌, inl, inr, arith, ◌==◌, if◌then◌else◌, length,
}

-- `enum class NKBaseType`.
pub data NkBaseType : Type 0 where
  void bool integer float string array map object entity function unknown : NkBaseType

-- The underlying value of the enumeration.
unfoldable pub base_code : NkBaseType → ℕ
base_code void = 0
base_code bool = 1
base_code integer = 2
base_code float = 3
base_code string = 4
base_code array = 5
base_code map = 6
base_code object = 7
base_code entity = 8
base_code function = 9
base_code unknown = 10

-- `struct NKType`.
pub record NkType : Type 0 where
  pub handle : ℕ

-- An `int32_t` type id is its bit pattern; this one is -1.
abbrev pub minus_one : ℕ
minus_one = 2 ^ 32 - 1

-- What the constructor asserts: `type_id >= -1 && type_id <= 0x7FFFFF`.
abbrev pub IsTypeId : ℕ → Type 0
IsTypeId type_id = (type_id ≡ minus_one) ⊎ (type_id ≤ 0x7f_ffff)

-- The constructor. The two parts share no bit, so `|` is `+`.
unfoldable pub make : NkBaseType → ℕ → NkType
make base type_id = record { handle = base_code base * 2 ^ 24 + type_id % 2 ^ 24 }

-- `getBase`, as its underlying value.
unfoldable pub get_base : NkType → ℕ
get_base t = t.handle / 2 ^ 24

-- `getTypeId`.
unfoldable pub get_type_id : NkType → ℕ
get_type_id t = let id = t.handle % 2 ^ 24 in if id == 0xff_ffff then minus_one else id

-- `makeUnknown`, `makeInt`, `makeFloat`, `makeBool` and `makeObject`.
abbrev pub make_unknown : NkType
unfolding make
make_unknown = make unknown minus_one

abbrev pub make_int : NkType
unfolding make
make_int = make integer minus_one

abbrev pub make_float : NkType
unfolding make
make_float = make float minus_one

abbrev pub make_bool : NkType
unfolding make
make_bool = make bool minus_one

abbrev pub make_object : ℕ → NkType
unfolding make
make_object struct_id = make object struct_id

-- `operator==`.
unfoldable pub nk_eq : NkType → NkType → Bool
nk_eq a b = a.handle == b.handle

-- `FunctionSignature`.
pub record FunctionSignature : Type 0 where
  pub param_types : List NkType
  pub return_type : NkType

-- The comparison of the parameters by `operator==`, sizes first.
unfoldable pub params_eq : List NkType → List NkType → Bool
unfolding nk_eq
params_eq [] [] = true
params_eq [] (_ ∷ _) = false
params_eq (_ ∷ _) [] = false
params_eq (a ∷ xs) (b ∷ ys) = nk_eq a b && params_eq xs ys

-- `FunctionSignature::operator==`.
unfoldable pub signature_eq : FunctionSignature → FunctionSignature → Bool
unfolding nk_eq params_eq
signature_eq a b =
    nk_eq a.return_type b.return_type
    && (length a.param_types == length b.param_types && params_eq a.param_types b.param_types)

base_code-lt : (b : NkBaseType) → base_code b < 11
unfolding base_code
base_code-lt void = omega arith
base_code-lt _ = omega arith

-- Below the asserted bounds a handle fits 32 bits and gives back the base type and the type id that
-- it was made of, -1 included.
pub make_parts :
    (base : NkBaseType) (type_id : ℕ)
    → IsTypeId type_id
    → ((make base type_id).handle < 2 ^ 32)
      × (get_base (make base type_id) ≡ base_code base)
      × (get_type_id (make base type_id) ≡ type_id)
unfolding make get_base get_type_id
make_parts base type_id (inl h) = ground (arith, base_code-lt base)
make_parts base type_id (inr h) = ground (arith, base_code-lt base)

pub params_eq_sound : (a b : List NkType) → params_eq a b ≡ true → a ≡ b
unfolding params_eq
params_eq_sound [] [] h = refl
params_eq_sound [] (y ∷ b) h = cc
params_eq_sound (x ∷ a) [] h = cc
params_eq_sound (x ∷ a) (y ∷ b) h = ground (arith, params_eq_sound a b)

pub params_eq_refl : (a : List NkType) → params_eq a a ≡ true
unfolding params_eq
params_eq_refl [] = refl
params_eq_refl (x ∷ a) = ground (arith, params_eq_refl a)

-- The comparison of signatures decides equality.
pub signature_eq_iff : (a b : FunctionSignature) → (signature_eq a b ≡ true) ↔ (a ≡ b)
unfolding signature_eq
signature_eq_iff a b = (
  λ h. ground (arith, params_eq_sound a.param_types b.param_types),
  λ e. rw e (ground (arith, params_eq_refl b.param_types)),
)
