-- ===== src/Semantic/Tests.antt =====
-- Runs of the type arena, and the theorems of the semantic types at them.
use niki.Prelude.{refl, List, ℕ, ◌≡◌, ◌↔◌, ◌<◌, ◌^◌, true, [], ◌∷◌, some, inr, arith}
use niki.Semantic.NkType.{
  integer, object, base_code, minus_one, make, get_base, get_type_id, FunctionSignature,
  signature_eq, make_parts, signature_eq_iff,
}
use niki.Pool.Mapped.{lookup}
use niki.Semantic.Namespace
use niki.Semantic.Namespace.{
  Kind, function, struct, Symbol, Key, push_key, insert, insert_all, find, collect,
  find_module_symbols,
}
use niki.Semantic.Namespace.Log.{find_in, of_module, accept, insert_all_lem}
use niki.Semantic.Arena.{
  TypeArena, IsCanonical, intern_func_sig, find_func_sig, intern_func_sig_lem,
}

make_parts_example :
    ((make object 5).handle < 2 ^ 32)
    × (get_base (make object 5) ≡ base_code object)
    × (get_type_id (make object 5) ≡ 5)
make_parts_example = make_parts object 5 (inr (omega arith))

abbrev unary : FunctionSignature
unfolding make
unary = record { param_types = make integer minus_one ∷ []; return_type = make object 5 }

abbrev constant : FunctionSignature
constant = record { param_types = []; return_type = make integer minus_one }

signature_eq_iff_example : (signature_eq unary constant ≡ true) ↔ (unary ≡ constant)
signature_eq_iff_example = signature_eq_iff unary constant

abbrev empty : TypeArena
empty = record { structs = []; func_sigs = [] }

empty-IsCanonical : IsCanonical empty
empty-IsCanonical = record { structs = λ i j a p q. cc; func_sigs = λ i j a p q. cc }

intern_func_sig_lem_example :
    (find_func_sig (intern_func_sig unary empty).1 (intern_func_sig unary empty).0 ≡ some unary)
    × ((id : ℕ) (old : FunctionSignature)
        → find_func_sig id empty ≡ some old
        → find_func_sig id (intern_func_sig unary empty).0 ≡ some old)
    × ((intern_func_sig unary empty).0.structs ≡ [])
    × IsCanonical (intern_func_sig unary empty).0
intern_func_sig_lem_example = intern_func_sig_lem unary empty (omega arith) empty-IsCanonical

abbrev symbol : ℕ → ℕ → Kind → Symbol
symbol owner name kind = record {
  name_id = name;
  owner_module_id = owner;
  kind = kind;
  type = record { handle = 50331647 };
}

-- The third symbol has the module and the name of the first.
abbrev session : List Symbol
session = symbol 1 7 function ∷ symbol 2 7 struct ∷ symbol 1 7 struct ∷ symbol 1 8 function ∷ []

session_run :
    find_module_symbols 1 (insert_all session Namespace.empty)
    ≡ symbol 1 7 function ∷ symbol 1 8 function ∷ []
unfolding find_module_symbols insert_all insert push_key collect lookup
session_run = refl

insert_all_lem_example :
    (find 1 7 (insert_all session Namespace.empty)
      ≡ find_in (record { module_id = 1; name_id = 7 }) (accept [] session))
    × (find_module_symbols 1 (insert_all session Namespace.empty) ≡ of_module 1 (accept [] session))
insert_all_lem_example = insert_all_lem session 1 7
