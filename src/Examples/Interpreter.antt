-- ===== src/Examples/Interpreter.antt =====
-- A small interpreter that does what the parameter `Lua` asks for. Its objects lie at the addresses
-- that were given out so far; a call of a Lua function `other 0` raises an error, and any other
-- call returns `true`s.
use irc_core.Base.{
  bytes_eq, Bytes, ℕ, ◌+◌, ◌<◌, ◌≡◌, ◌≢◌, refl, Option, none, some, List, [], ◌∷◌, ◌++◌, ◌==◌, take,
  drop, arith, if◌then◌else◌,
}
use Prim.Native.Nat.{max}
use irc_core.Lua.Value.{
  Value, nil, str, table, userdata, Fields, no_fields, set_key, name, index, View, Index, above,
}

pub record Memory : Type 0 where
  pub stack : List Value
  pub tables : List (ℕ × Fields)
  pub registry : List (ℕ × Value)
  pub users : List (ℕ × Value)
  pub globals : List (Bytes × Value)

abbrev pub find_table : List (ℕ × Fields) → ℕ → Option Fields
find_table [] q = none
find_table ((p, f) ∷ ts) q = if p == q then some f else find_table ts q

abbrev pub find_value : List (ℕ × Value) → ℕ → Value
find_value [] q = nil
find_value ((p, v) ∷ vs) q = if p == q then v else find_value vs q

abbrev pub find_global : List (Bytes × Value) → Bytes → Value
find_global [] j = nil
find_global ((k, v) ∷ kvs) j = if bytes_eq k j then v else find_global kvs j

abbrev pub view : Memory → View
view m = record {
  stack = m.stack;
  tables = find_table m.tables;
  registry = find_value m.registry;
  user_values = find_value m.users;
  globals = find_global m.globals;
}

abbrev pub top_table : List (ℕ × Fields) → ℕ
top_table [] = 0
top_table ((p, f) ∷ ts) = max p (top_table ts)

abbrev pub top_value : List (ℕ × Value) → ℕ
top_value [] = 0
top_value ((p, v) ∷ vs) = max p (top_value vs)

abbrev pub new_address : Memory → ℕ
new_address m = 1 + (top_table m.tables + top_value m.registry)

pub no_table : (ts : List (ℕ × Fields)) (q : ℕ) → top_table ts < q → find_table ts q ≡ none
no_table [] q h = refl
no_table ((p, f) ∷ ts) q h = ground (arith, no_table ts q)

no_value : (vs : List (ℕ × Value)) (q : ℕ) → top_value vs < q → find_value vs q ≡ nil
no_value [] q h = refl
no_value ((p, v) ∷ vs) q h = ground (arith, no_value vs q)

pub not_registered : (m : Memory) (p : ℕ) → find_value m.registry p ≡ userdata p → new_address m ≢ p
not_registered m p h e = let free = no_value m.registry p (omega arith) in cc

abbrev pub insert_stack : Index → List Value → List Value
insert_stack i [] = []
insert_stack i (v ∷ xs) = let k = above i (v ∷ xs) in take k xs ++ v ∷ drop k xs

abbrev pub pop_registry : ℕ → Memory → List Value → Memory
pop_registry p m [] = m
pop_registry p m (v ∷ xs) = record m { stack = xs; registry = (p, v) ∷ m.registry }

abbrev pub pop_user : Memory → List Value → Memory
pop_user m (v ∷ userdata a ∷ xs) = record m { stack = userdata a ∷ xs; users = (a, v) ∷ m.users }
pop_user m xs = m

abbrev pub push_user : Memory → List Value → Memory
push_user m (userdata a ∷ xs) = record m { stack = find_value m.users a ∷ userdata a ∷ xs }
push_user m xs = m

abbrev pub fields_at : Memory → ℕ → Fields
fields_at m t = elim (find_table m.tables t) [ none ↦ no_fields | some f ↦ f ]

abbrev pub pop_element : ℕ → Memory → List Value → Memory
pop_element i m (v ∷ table t ∷ xs) = record m {
  stack = table t ∷ xs;
  tables = (t, set_key (fields_at m t) (index i) v) ∷ m.tables;
}
pop_element i m xs = m

abbrev pub pop_field : Bytes → Memory → List Value → Memory
pop_field k m (v ∷ table t ∷ xs) = record m {
  stack = table t ∷ xs;
  tables = (t, set_key (fields_at m t) (name k) v) ∷ m.tables;
}
pop_field k m xs = m

abbrev pub pop_global : Bytes → Memory → List Value → Memory
pop_global k m (v ∷ xs) = record m { stack = xs; globals = (k, v) ∷ m.globals }
pop_global k m xs = m

abbrev pub pop_pair : Memory → List Value → Memory
pop_pair m (v ∷ str k ∷ table t ∷ xs) = record m {
  stack = table t ∷ xs;
  tables = (t, set_key (fields_at m t) (name k) v) ∷ m.tables;
}
pop_pair m xs = m

abbrev pub text_of : Value → Option Bytes
text_of (str b) = some b
text_of v = none
