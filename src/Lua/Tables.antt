-- ===== src/Lua/Tables.antt =====
-- The laws of the interpreter's tables, from a known view to the next.
use irc_core.Base.{Bytes, ℕ, ◌≡◌, List, ◌∷◌, some, ap, ◌∙◌}
use irc_core.Lua.Value.{Value, table, str, name, index, Fields, no_fields, set_key, update, View}
use irc_core.Lua.Api.{Lua}

-- A view whose stack and tables are given anew.
abbrev pub with_table : View → List Value → ℕ → Fields → View
with_table x xs t f = record x { stack = xs; tables = update x.tables t (some f) }

module _ {W : Type 0} (L : Lua W) where
  open L use {
    State, view, new_address, lua_createtable, view-createtable, lua_setfield, view-setfield,
    lua_rawseti, view-rawseti, lua_rawset, view-rawset,
  }

  module _ {s : State} {x : View} (e : view s ≡ x) where
    pub at_createtable :
        view (lua_createtable s)
        ≡ with_table x (table (new_address s) ∷ x.stack) (new_address s) no_fields
    at_createtable =
        view-createtable s
        ∙ ap
            (λ (y : View). with_table y (table (new_address s) ∷ y.stack) (new_address s) no_fields)
            e

    module _ {v : Value} {t : ℕ} {xs : List Value} (f : Fields) where
      pub at_setfield :
          (k : Bytes)
          → x.stack ≡ v ∷ table t ∷ xs
          → x.tables t ≡ some f
          → view (lua_setfield k s) ≡ with_table x (table t ∷ xs) t (set_key f (name k) v)
      at_setfield k top held =
          view-setfield k s v t f xs (ap (λ (y : View). y.stack) e ∙ top)
            (ap (λ (y : View). y.tables t) e ∙ held)
          ∙ ap (λ (y : View). with_table y (table t ∷ xs) t (set_key f (name k) v)) e

      pub at_rawseti :
          (i : ℕ)
          → x.stack ≡ v ∷ table t ∷ xs
          → x.tables t ≡ some f
          → view (lua_rawseti i s) ≡ with_table x (table t ∷ xs) t (set_key f (index i) v)
      at_rawseti i top held =
          view-rawseti i s v t f xs (ap (λ (y : View). y.stack) e ∙ top)
            (ap (λ (y : View). y.tables t) e ∙ held)
          ∙ ap (λ (y : View). with_table y (table t ∷ xs) t (set_key f (index i) v)) e

      pub at_rawset :
          (k : Bytes)
          → x.stack ≡ v ∷ str k ∷ table t ∷ xs
          → x.tables t ≡ some f
          → view (lua_rawset s) ≡ with_table x (table t ∷ xs) t (set_key f (name k) v)
      at_rawset k top held =
          view-rawset s v k t f xs (ap (λ (y : View). y.stack) e ∙ top)
            (ap (λ (y : View). y.tables t) e ∙ held)
          ∙ ap (λ (y : View). with_table y (table t ∷ xs) t (set_key f (name k) v)) e
