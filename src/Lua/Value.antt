-- ===== src/Lua/Value.antt =====
-- Lua values as C sees them, and what of an interpreter's state the C code relies on.
use irc_core.Base.{
  Bytes, ℕ, zero, suc, ◌-◌, Bool, true, false, Option, List, [], ◌∷◌, ◌++◌, ◌==◌, if◌then◌else◌,
  length, drop, bytes_eq, ◌≡◌, ◌≢◌, arith,
}

-- The functions of lua-extension/glirc-lua.c that are handed to the interpreter as C functions.
pub data CFunction : Type 0 where
  callback_worker : CFunction
  -- `initialize_lua`, with the path and the arguments that the addresses among its arguments point to
  initializer : Bytes → List Bytes → CFunction

-- A table, a userdata and a pointer are addresses. `other` stands for what the C code does not look
-- into: Lua functions, threads and floats.
pub data Value : Type 0 where
  nil : Value
  boolean : Bool → Value
  integer : ℕ → Value
  negative : ℕ → Value
  str : Bytes → Value
  table : ℕ → Value
  userdata : ℕ → Value
  light_userdata : ℕ → Value
  cfunction : CFunction → Value
  other : ℕ → Value

-- `lua_toboolean`: all but `false` and `nil` counts as true.
abbrev pub truthy : Value → Bool
truthy nil = false
truthy (boolean b) = b
truthy v = true

pub data Key : Type 0 where
  name : Bytes → Key
  index : ℕ → Key

abbrev pub key_eq : Key → Key → Bool
key_eq (name a) (name b) = bytes_eq a b
key_eq (index i) (index j) = i == j
key_eq (name a) (index j) = false
key_eq (index i) (name b) = false

abbrev pub Fields : Type 0
Fields = Key → Value

abbrev pub no_fields : Fields
no_fields k = nil

abbrev pub set_key : Fields → Key → Value → Fields
set_key f k v j = if key_eq k j then v else f j

abbrev pub update {ℓ} : {A : Type ℓ} → (ℕ → A) → ℕ → A → ℕ → A
update f p v q = if p == q then v else f q

pub update_self {ℓ} : {A : Type ℓ} (f : ℕ → A) (p : ℕ) (v : A) → update f p v p ≡ v
update_self f p v = ground arith

pub update_ne {ℓ} : {A : Type ℓ} (f : ℕ → A) (p : ℕ) (v : A) {q : ℕ} → p ≢ q → update f p v q ≡ f q
update_ne f p v h = ground arith

pub update-update {ℓ} :
    {A : Type ℓ} (f : ℕ → A) (p : ℕ) (v w : A) (q : ℕ)
    → update (update f p v) p w q ≡ (if p == q then w else f q)
update-update f p v w q = ground arith

-- The stack of the running C function, top first; the tables that have no metatable; the registry
-- at pointer keys; the user values of the userdata; the global variables.
pub record View : Type 0 where
  pub stack : List Value
  pub tables : ℕ → Option Fields
  pub registry : ℕ → Value
  pub user_values : ℕ → Value
  pub globals : Bytes → Value

abbrev pub set_global : (Bytes → Value) → Bytes → Value → Bytes → Value
set_global g k v j = if bytes_eq k j then v else g j

-- A stack index: `at i` counts from the bottom, from 1, and `below i` from the top, from 1.
pub data Index : Type 0 where
  at : ℕ → Index
  below : ℕ → Index

-- How many values lie above the one at an index.
abbrev pub above : Index → List Value → ℕ
above (at i) xs = length xs - i
above (below i) xs = i - 1

abbrev pub nils : ℕ → List Value
nils zero = []
nils (suc n) = nil ∷ nils n

-- The results of a call, the last one first, cut or filled up to `wanted` values.
abbrev pub adjust : ℕ → List Value → List Value
adjust wanted results = nils (wanted - length results) ++ drop (length results - wanted) results
