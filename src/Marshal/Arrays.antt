-- ===== src/Marshal/Arrays.antt =====
-- Lists of strings as Lua arrays.
use irc_core.Base.{
  Bytes, ℕ, zero, suc, ◌+◌, ◌≤◌, ◌<◌, ◌≡◌, refl, ap, ◌∙◌, fun_ext, Option, none, some, List, [],
  ◌∷◌, get_elem?, arith,
}
use irc_core.Lua.Value.{
  Value, nil, str, table, name, index, Fields, no_fields, set_key, update_self, update-update, View,
}
use irc_core.Client.{Client}
use irc_core.Lua.Api.{Lua, returned}
use irc_core.Lua.Laws.{at_push}
use irc_core.Lua.Tables.{with_table, at_createtable, at_rawseti}
use irc_core.Marshal.{push_items, import_string_array}

-- The value of a string that may be missing.
abbrev pub string_or_nil : Option Bytes → Value
string_or_nil none = nil
string_or_nil (some b) = str b

-- The fields of a table in which the loop has set the elements from `i + 1` on.
unfoldable pub set_items : Fields → List Bytes → ℕ → Fields
set_items f [] i = f
set_items f (b ∷ bs) i = set_items (set_key f (index (i + 1)) (str b)) bs (i + 1)

set_items_before :
    (f : Fields) (bs : List Bytes) (i j : ℕ) → j ≤ i → set_items f bs i (index j) ≡ f (index j)
unfolding set_items
set_items_before f [] i j h = refl
set_items_before f (b ∷ bs) i j h =
    set_items_before (set_key f (index (i + 1)) (str b)) bs (i + 1) j (omega arith) ∙ ground arith

set_items_at :
    (f : Fields) (bs : List Bytes) (i j : ℕ)
    → ((k : ℕ) → i < k → f (index k) ≡ nil)
    → set_items f bs i (index (i + 1 + j)) ≡ string_or_nil (get_elem? bs j)
unfolding set_items
set_items_at f [] i j h = h (i + 1 + j) (omega arith)
set_items_at f (b ∷ bs) i zero h =
    set_items_before (set_key f (index (i + 1)) (str b)) bs (i + 1) (i + 1 + 0) (omega arith)
    ∙ ground arith
set_items_at f (b ∷ bs) i (suc j) h =
    let f' = set_key f (index (i + 1)) (str b) in
    let later : i + 1 + suc j ≡ i + 1 + 1 + j = omega arith in
    rw later (set_items_at f' bs (i + 1) j (λ k less. ground (arith, h k)))

set_items_name :
    (f : Fields) (bs : List Bytes) (i : ℕ) (k : Bytes) → set_items f bs i (name k) ≡ f (name k)
unfolding set_items
set_items_name f [] i k = refl
set_items_name f (b ∷ bs) i k = set_items_name (set_key f (index (i + 1)) (str b)) bs (i + 1) k

-- A table is the Lua array of these strings: element `j + 1` is the string `j`, and it has no
-- other field.
pub record IsArray (f : Fields) (bs : List Bytes) : Type 0 where
  pub element : (j : ℕ) → f (index (suc j)) ≡ string_or_nil (get_elem? bs j)
  pub no_zero : f (index 0) ≡ nil
  pub no_name : (k : Bytes) → f (name k) ≡ nil

pub set_items-IsArray : (bs : List Bytes) → IsArray (set_items no_fields bs 0) bs
set_items-IsArray bs = record {
  element = λ j.
      let from_one : suc j ≡ 0 + 1 + j = omega arith in
      rw from_one (set_items_at no_fields bs 0 j (λ k h. refl));
  no_zero = set_items_before no_fields bs 0 0 (omega arith);
  no_name = set_items_name no_fields bs 0;
}

module _ {W : Type 0} (L : Lua W) where
  open L use {State, view, lua_push, lua_rawseti}

  -- The loop sets the strings in the table on top of the stack and changes nothing else.
  pub at_push_items :
      (bs : List Bytes) (i : ℕ) (s : State) (x : View) (t : ℕ) (xs : List Value) (f : Fields)
      → view s ≡ with_table x (table t ∷ xs) t f
      → view (push_items L bs i s) ≡ with_table x (table t ∷ xs) t (set_items f bs i)
  unfolding push_items set_items
  at_push_items [] i s x t xs f e = e
  at_push_items (b ∷ bs) i s x t xs f e =
      at_push_items bs (i + 1) _ x t xs (set_key f (index (i + 1)) (str b)) (
        at_rawseti L (at_push L e (str b)) f (i + 1) refl (update_self x.tables t (some f))
        ∙ ap (λ (ts : ℕ → Option Fields). record x { stack = table t ∷ xs; tables = ts })
            (fun_ext (λ u.
              update-update x.tables t (some f) (some (set_key f (index (i + 1)) (str b))) u)))

module _ (G : Client) (L : Lua G.World) where
  open L use {State, view, new_address, lua_createtable}

  -- `import_string_array` pushes a new table that is the Lua array of the strings; the rest of the
  -- stack, every other table, the registry and the user values are as before, and the strings are
  -- given back to the client.
  pub import_string_array_lem :
      (bs : List Bytes) (s : State) (w : G.World)
      → (s' : State) × (f : Fields) × (import_string_array G L bs s w
          ≡ returned tt s' (G.glirc_free_strings bs w))
        × (view s' ≡ with_table (view s) (table (new_address s) ∷ (view s).stack) (new_address s) f)
        × IsArray f bs
  unfolding import_string_array
  import_string_array_lem bs s w = (
    push_items L bs 0 (lua_createtable s),
    set_items no_fields bs 0,
    refl,
    at_push_items L bs 0 (lua_createtable s) (view s) (new_address s) (view s).stack no_fields
        (at_createtable L {s = s} refl),
    set_items-IsArray bs,
  )
