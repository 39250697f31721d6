-- ===== src/Semantic/Namespace/Log.antt =====
-- The log that a namespace stands for: symbols in the order of their insertion, where a second symbol
-- of one module and name is dropped (src/l0_core/semantic/module_namespace.cpp).
use niki.Prelude.{
  ℕ, ◌≡◌, refl, sym, ap, ◌∙◌, Bool, true, false, List, [], ◌∷◌, ◌++◌, map, Option, none, some, inl,
  inr, arith, ◌==◌, Bool-cases, Option-cases, if◌then◌else◌,
}
use niki.Pool.Mapped.{lookup, lookup-cons}
use niki.Semantic.Namespace.{
  empty, Symbol, Key, same_key, same_key_iff, namespace_keys, module_ids, ModuleNamespace, key_of,
  push_key, insert, find, collect, find_module_symbols, insert_all,
}

-- The symbol of a key.
unfoldable pub find_in : Key → List Symbol → Option Symbol
find_in key [] = none
find_in key (s ∷ log) = if same_key (key_of s) key then some s else find_in key log

-- The symbols of a module, in order.
unfoldable pub of_module : ℕ → List Symbol → List Symbol
of_module id [] = []
of_module id (s ∷ log) = if s.owner_module_id == id then s ∷ of_module id log else of_module id log

-- The log after more symbols.
unfoldable pub accept : List Symbol → List Symbol → List Symbol
accept log [] = log
accept log (s ∷ ss) = elim (find_in (key_of s) log) [
  | some _ ↦ accept log ss
  | none ↦ accept (log ++ s ∷ []) ss
]

-- The keys that the index has for a module.
abbrev module_keys : ℕ → List (ℕ × List Key) → List Key
module_keys id index = elim (lookup id index) [ none ↦ [] | some ks ↦ ks ]

-- Every symbol is found under its key.
unfoldable AllFound : List (Key × Symbol) → List Symbol → Type 0
AllFound symbols [] = Unit
AllFound symbols (s ∷ log) = (lookup (key_of s) symbols ≡ some s) × AllFound symbols log

-- The maps hold the log.
record Holds (ns : ModuleNamespace) (log : List Symbol) : Type 0 where
  pub found : (key : Key) → lookup key ns.symbols ≡ find_in key log
  pub index : (id : ℕ) → module_keys id ns.module_symbols ≡ map key_of (of_module id log)
  pub all : AllFound ns.symbols log

find_in-append :
    (key : Key) (log : List Symbol) (s : Symbol)
    → find_in (key_of s) log ≡ none
    → find_in key (log ++ s ∷ []) ≡ (if same_key (key_of s) key then some s else find_in key log)
unfolding find_in
find_in-append key [] s h = refl
find_in-append key (x ∷ log) s h =
    let miss : (same_key (key_of x) (key_of s) ≡ false) × (find_in (key_of s) log ≡ none) =
      ground arith in
    elim (Bool-cases (same_key (key_of x) key)) [
      | inl e ↦ elim (Bool-cases (same_key (key_of s) key)) [
        | inl f ↦ absurd (ground (arith, miss.0))
        | inr f ↦ rw (e, f) refl
      ]
      | inr e ↦ rw e (find_in-append key log s miss.1)
    ]

of_module-append :
    (id : ℕ) (log : List Symbol) (s : Symbol)
    → map key_of (of_module id (log ++ s ∷ [])) ≡ (
        if s.owner_module_id == id
        then map key_of (of_module id log) ++ key_of s ∷ []
        else map key_of (of_module id log))
unfolding of_module
of_module-append id [] s = elim (Bool-cases (s.owner_module_id == id)) [
  | inl e ↦ rw e refl
  | inr e ↦ rw e refl
]
of_module-append id (x ∷ log) s =
    let rest = of_module-append id log s in
    elim (Bool-cases (x.owner_module_id == id)) [
      | inl e ↦ elim (Bool-cases (s.owner_module_id == id)) [
        | inl f ↦ rw (e, f) (ap (λ (l : List Key). key_of x ∷ l) (rw f at rest))
        | inr f ↦ rw (e, f) (ap (λ (l : List Key). key_of x ∷ l) (rw f at rest))
      ]
      | inr e ↦ rw e rest
    ]

keys_if :
    (test : Bool) (key : Key)
    → (elim (if test then some (key ∷ []) else none) [ none ↦ [] | some ks ↦ ks ])
      ≡ (if test then key ∷ [] else [])
keys_if true key = refl
keys_if false key = refl

keys_hit :
    (x other : ℕ) (ks : List Key) (index : List (ℕ × List Key))
    → (x == other) ≡ true
    → module_keys other ((x, ks) ∷ index) ≡ ks
unfolding lookup
keys_hit x other ks index f = rw (module_keys, f) refl

keys_miss :
    (x other : ℕ) (ks : List Key) (index : List (ℕ × List Key))
    → (x == other) ≡ false
    → module_keys other ((x, ks) ∷ index) ≡ module_keys other index
unfolding lookup
keys_miss x other ks index f = rw (module_keys, f) refl

push_key-keys :
    (id other : ℕ) (key : Key) (index : List (ℕ × List Key))
    → module_keys other (push_key id key index)
      ≡ (if id == other then module_keys other index ++ key ∷ [] else module_keys other index)
unfolding push_key lookup
push_key-keys id other key [] = keys_if (id == other) key
push_key-keys id other key ((x, ks) ∷ index) = elim (Bool-cases (x == id)) [
  | inl e ↦
      let same : x ≡ id = ground arith in
      elim (Bool-cases (x == other)) [
        | inl f ↦
            let g : (id == other) ≡ true = ground arith in
            rw (e, g)
              (keys_hit x other (ks ++ key ∷ []) index f
                ∙ sym (ap (λ (l : List Key). l ++ key ∷ []) (keys_hit x other ks index f)))
        | inr f ↦
            let g : (id == other) ≡ false = ground arith in
            rw (e, g)
              (keys_miss x other (ks ++ key ∷ []) index f ∙ sym (keys_miss x other ks index f))
      ]
  | inr e ↦ elim (Bool-cases (x == other)) [
    | inl f ↦
        let g : (id == other) ≡ false = ground arith in
        rw (e, g)
          (keys_hit x other ks (push_key id key index) f ∙ sym (keys_hit x other ks index f))
    | inr f ↦ rw e (
        keys_miss x other ks (push_key id key index) f
        ∙ push_key-keys id other key index
        ∙ ap (λ (l : List Key). if id == other then l ++ key ∷ [] else l)
            (sym (keys_miss x other ks index f)))
  ]
]

AllFound-cons :
    (key : Key) (x : Symbol) (symbols : List (Key × Symbol)) (log : List Symbol)
    → lookup key symbols ≡ none
    → AllFound symbols log
    → AllFound ((key, x) ∷ symbols) log
unfolding AllFound
AllFound-cons key x symbols [] h a = a
AllFound-cons key x symbols (s ∷ log) h (e, a) = (
  elim (Bool-cases (same_key key (key_of s))) [
    | inl f ↦
        let same : key ≡ key_of s = (same_key_iff key (key_of s)).0 f in
        let none_there : lookup (key_of s) symbols ≡ none = rw (sym same) h in cc
    | inr f ↦ rw (lookup-cons key (key_of s) x symbols, f) e
  ],
  AllFound-cons key x symbols log h a,
)

AllFound-append :
    (symbols : List (Key × Symbol)) (log : List Symbol) (s : Symbol)
    → AllFound symbols log
    → lookup (key_of s) symbols ≡ some s
    → AllFound symbols (log ++ s ∷ [])
unfolding AllFound
AllFound-append symbols [] s a h = (h, record {})
AllFound-append symbols (x ∷ log) s (e, a) h = (e, AllFound-append symbols log s a h)

collect-AllFound :
    (id : ℕ) (symbols : List (Key × Symbol)) (log : List Symbol)
    → AllFound symbols log
    → collect (map key_of (of_module id log)) symbols ≡ of_module id log
unfolding AllFound collect of_module
collect-AllFound id symbols [] a = refl
collect-AllFound id symbols (s ∷ log) (e, a) = elim (Bool-cases (s.owner_module_id == id)) [
  | inl f ↦ rw (f, collect, e) (ap (λ (l : List Symbol). s ∷ l) (collect-AllFound id symbols log a))
  | inr f ↦ rw f (collect-AllFound id symbols log a)
]

empty-Holds : Holds (record { symbols = []; module_symbols = [] }) []
unfolding lookup find_in of_module AllFound
empty-Holds = record { found = λ key. refl; index = λ id. refl; all = record {} }

-- A symbol whose key is new.
new-Holds :
    (s : Symbol) (ns : ModuleNamespace) (log : List Symbol)
    → Holds ns log
    → lookup (key_of s) ns.symbols ≡ none
    → Holds
        (record {
          symbols = (key_of s, s) ∷ ns.symbols;
          module_symbols = push_key s.owner_module_id (key_of s) ns.module_symbols;
        })
        (log ++ s ∷ [])
new-Holds s ns log h e =
    let fresh : find_in (key_of s) log ≡ none = sym (h.found (key_of s)) ∙ e in
    let here : lookup (key_of s) ((key_of s, s) ∷ ns.symbols) ≡ some s =
      rw
        (
          lookup-cons (key_of s) (key_of s) s ns.symbols,
          (same_key_iff (key_of s) (key_of s)).1 refl,
        )
        refl in
    record {
      found = λ key.
          rw (lookup-cons (key_of s) key s ns.symbols, h.found key)
            (sym (find_in-append key log s fresh));
      index = λ id.
          rw (push_key-keys s.owner_module_id id (key_of s) ns.module_symbols, h.index id)
            (sym (of_module-append id log s));
      all =
          AllFound-append ((key_of s, s) ∷ ns.symbols) log s
            (AllFound-cons (key_of s) s ns.symbols log e h.all) here;
    }

insert_all-Holds :
    (ss : List Symbol) (ns : ModuleNamespace) (log : List Symbol)
    → Holds ns log
    → Holds (insert_all ss ns) (accept log ss)
unfolding insert_all accept insert
insert_all-Holds [] ns log h = h
insert_all-Holds (s ∷ ss) ns log h = elim (Option-cases (lookup (key_of s) ns.symbols)) [
  | inl e ↦
      let f : find_in (key_of s) log ≡ none = sym (h.found (key_of s)) ∙ e in
      rw (e, f, insert, accept) (insert_all-Holds ss _ (log ++ s ∷ []) (new-Holds s ns log h e))
  | inr (x, e) ↦
      let f : find_in (key_of s) log ≡ some x = sym (h.found (key_of s)) ∙ e in
      rw (e, f, insert, accept) (insert_all-Holds ss ns log h)
]

listed :
    (id : ℕ) (ns : ModuleNamespace) (log : List Symbol)
    → Holds ns log
    → find_module_symbols id ns ≡ of_module id log
unfolding find_module_symbols collect
listed id ns log h =
    let symbols = collect-AllFound id ns.symbols log h.all in
    elim (Option-cases (lookup id ns.module_symbols)) [
      | inl e ↦
          let ks : [] ≡ map key_of (of_module id log) = rw (e, module_keys) at (h.index id) in
          rw (e, find_module_symbols) (ap (λ (l : List Key). collect l ns.symbols) ks ∙ symbols)
      | inr (found, e) ↦
          let ks : found ≡ map key_of (of_module id log) = rw (e, module_keys) at (h.index id) in
          rw (e, find_module_symbols) (ap (λ (l : List Key). collect l ns.symbols) ks ∙ symbols)
    ]

-- After any session of insertions into an empty namespace, `find` gives the first symbol that was
-- inserted under its module and name, and `findModuleSymbols` gives the first symbols of all names
-- of a module in the order of their insertion.
pub insert_all_lem :
    (ss : List Symbol) (module_id name_id : ℕ)
    → (find module_id name_id (insert_all ss empty)
        ≡ find_in (record { module_id = module_id; name_id = name_id }) (accept [] ss))
      × (find_module_symbols module_id (insert_all ss empty) ≡ of_module module_id (accept [] ss))
unfolding find
insert_all_lem ss module_id name_id =
    let h = insert_all-Holds ss empty [] empty-Holds in
    (h.found _, listed module_id _ (accept [] ss) h)
