-- ===== src/Marshal/Objects.antt =====
-- Tables that C code builds field by field.
use irc_core.Base.{
  Bytes, ℕ, ◌+◌, ◌≡◌, subst, ◌≢◌, refl, ap, ◌∙◌, sym, Option, none, some, List, [], ◌∷◌,
}
use irc_core.Lua.Value.{
  Value, str, table, name, index, Fields, no_fields, set_key, update, update_self, update_ne, View,
}
use irc_core.Lua.Api.{Lua}
use irc_core.Lua.Laws.{at_push}
use irc_core.Lua.Tables.{with_table, at_createtable, at_setfield, at_rawset, at_rawseti}
use irc_core.Marshal.{push_items, push_tags, string_field}
use irc_core.Marshal.Arrays.{set_items}

-- The tables of a list are held, and none of them is the table `t`.
abbrev pub Held : (ℕ → Option Fields) → ℕ → List (ℕ × Fields) → Type 0
Held tables t [] = Unit
Held tables t ((u, g) ∷ us) = (t ≢ u) × (tables u ≡ some g) × Held tables t us

-- From a view `x` on, `s` has a new table `t` with the fields `f` on top of the stack, and new tables
-- `us` besides; what `x` had is as before.
pub record Built (x : View) (s : View) (t : ℕ) (f : Fields) (us : List (ℕ × Fields)) : Type 0 where
  pub stack : s.stack ≡ table t ∷ x.stack
  pub fresh : x.tables t ≡ none
  pub fields : s.tables t ≡ some f
  pub inner : Held s.tables t us
  pub kept : (u : ℕ) (g : Fields) → x.tables u ≡ some g → s.tables u ≡ some g
  pub registry : (p : ℕ) → s.registry p ≡ x.registry p
  pub user_values : (p : ℕ) → s.user_values p ≡ x.user_values p
  pub globals : (k : Bytes) → s.globals k ≡ x.globals k

-- A table that is there is not one that is not.
apart :
    (tables : ℕ → Option Fields) (t u : ℕ) {g : Fields}
    → tables t ≡ none
    → tables u ≡ some g
    → t ≢ u
apart tables t u no_t has_u e = cc

Held-update :
    (tables : ℕ → Option Fields) (t : ℕ) (f : Option Fields) (us : List (ℕ × Fields))
    → Held tables t us
    → Held (update tables t f) t us
Held-update tables t f [] h = tt
Held-update tables t f ((u, g) ∷ us) (ne, e, h) =
    (ne, update_ne tables t f ne ∙ e, Held-update tables t f us h)

-- A field of the table is set.
Built-set :
    (x y : View) (t : ℕ) (f f' : Fields) (us : List (ℕ × Fields))
    → Built x y t f us
    → Built x (with_table y (table t ∷ x.stack) t f') t f' us
Built-set x y t f f' us b = record {
  stack = refl;
  fresh = b.fresh;
  fields = update_self y.tables t (some f');
  inner = Held-update y.tables t (some f') us b.inner;
  kept = λ u g e. update_ne y.tables t (some f') (apart x.tables t u b.fresh e) ∙ b.kept u g e;
  registry = b.registry;
  user_values = b.user_values;
  globals = b.globals;
}

-- The stack and the global variables of a view in which a table was built may be written out.
pub Built-stack :
    {x y : View} {t : ℕ} {f : Fields} {us : List (ℕ × Fields)}
    → Built x y t f us
    → Built x (record y { stack = table t ∷ x.stack; globals = x.globals }) t f us
Built-stack b = record {
  stack = refl;
  fresh = b.fresh;
  fields = b.fields;
  inner = b.inner;
  kept = b.kept;
  registry = b.registry;
  user_values = b.user_values;
  globals = λ k. refl;
}

Held-kept :
    (tables tables' : ℕ → Option Fields) (t : ℕ) (us : List (ℕ × Fields))
    → ((u : ℕ) (g : Fields) → tables u ≡ some g → tables' u ≡ some g)
    → Held tables t us
    → Held tables' t us
Held-kept tables tables' t [] kept h = tt
Held-kept tables tables' t ((u, g) ∷ us) kept (ne, e, h) =
    (ne, kept u g e, Held-kept tables tables' t us kept h)

-- A table that was built behind another is taken off the stack.
Built-inner :
    (x y z : View) (t p : ℕ) (f g : Fields) (us : List (ℕ × Fields))
    → Built x y t f us
    → Built y z p g []
    → Built x (record z { stack = table t ∷ x.stack }) t f ((p, g) ∷ us)
Built-inner x y z t p f g us outer inner = record {
  stack = refl;
  fresh = outer.fresh;
  fields = inner.kept t f outer.fields;
  inner = (
    λ e. apart y.tables p t inner.fresh outer.fields (sym e),
    inner.fields,
    Held-kept y.tables z.tables t us inner.kept outer.inner,
  );
  kept = λ u h e. inner.kept u h (outer.kept u h e);
  registry = λ q. inner.registry q ∙ outer.registry q;
  user_values = λ q. inner.user_values q ∙ outer.user_values q;
  globals = λ k. inner.globals k ∙ outer.globals k;
}

-- The fields of a table in which the loop has set the tags: of two tags with one name the last
-- counts.
pub set_tags : Fields → List (Bytes × Bytes) → Fields
set_tags f [] = f
set_tags f ((k, v) ∷ kvs) = set_tags (set_key f (name k) (str v)) kvs

module _ {W : Type 0} (L : Lua W) where
  open L use {
    State, view, new_address, new_address-ne_table, lua_push, lua_createtable, lua_setfield,
  }

  pub Built-create :
      (s : State) → Built (view s) (view (lua_createtable s)) (new_address s) no_fields []
  Built-create s =
      let t = new_address s in
      let empty : Built (view s) (with_table (view s) (table t ∷ (view s).stack) t no_fields) t
          no_fields [] =
        record {
          stack = refl;
          fresh = new_address-ne_table s;
          fields = update_self (view s).tables t (some no_fields);
          inner = tt;
          kept = λ u g e.
              update_ne (view s).tables t (some no_fields)
                (apart (view s).tables t u (new_address-ne_table s) e)
              ∙ e;
          registry = λ p. refl;
          user_values = λ p. refl;
          globals = λ k. refl;
        } in
      subst (λ (y : View). Built (view s) y t no_fields []) (sym (at_createtable L {s = s} refl))
        empty

  module _ {s : State} {x : View} {t : ℕ} {f : Fields} {us : List (ℕ × Fields)}
      (b : Built x (view s) t f us) where
    -- A value becomes a field.
    pub Built-value :
        (k : Bytes) (v : Value)
        → Built x (view (lua_setfield k (lua_push v s))) t (set_key f (name k) v) us
    Built-value k v =
        let f' = set_key f (name k) v in
        subst (λ (y : View). Built x y t f' us)
          (sym (
            at_setfield L (at_push L {s = s} refl v) f k (ap (λ (xs : List Value). v ∷ xs) b.stack)
              b.fields))
          (Built-set x (view s) t f f' us b)

    pub Built-string :
        (k text : Bytes)
        → Built x (view (string_field L k text s)) t (set_key f (name k) (str text)) us
    unfolding string_field
    Built-string k text = Built-value k (str text)

    -- A table of its own becomes a field.
    pub Built-nest :
        (k : Bytes) {s' : State} {p : ℕ} {g : Fields}
        → Built (view s) (view s') p g []
        → Built x (view (lua_setfield k s')) t (set_key f (name k) (table p)) ((p, g) ∷ us)
    Built-nest k {s'} {p} {g} inner =
        let f' = set_key f (name k) (table p) in
        let z : View = record (view s') { stack = table t ∷ x.stack } in
        subst (λ (y : View). Built x y t f' ((p, g) ∷ us))
          (sym (
            at_setfield L {s = s'} refl f k
              (inner.stack ∙ ap (λ (xs : List Value). table p ∷ xs) b.stack)
              (inner.kept t f b.fields)))
          (Built-set x z t f f' ((p, g) ∷ us) (Built-inner x (view s) (view s') t p f g us b inner))

  pub Built-items :
      (bs : List Bytes) (i : ℕ) (s : State) (x : View) (t : ℕ) (f : Fields)
      → Built x (view s) t f []
      → Built x (view (push_items L bs i s)) t (set_items f bs i) []
  unfolding push_items set_items
  Built-items [] i s x t f b = b
  Built-items (text ∷ bs) i s x t f b =
      let f' = set_key f (index (i + 1)) (str text) in
      Built-items bs (i + 1) _ x t f' (
        subst (λ (y : View). Built x y t f' [])
          (sym (
            at_rawseti L (at_push L {s = s} refl (str text)) f (i + 1)
              (ap (λ (xs : List Value). str text ∷ xs) b.stack) b.fields))
          (Built-set x (view s) t f f' [] b))

  pub Built-tags :
      (kvs : List (Bytes × Bytes)) (s : State) (x : View) (t : ℕ) (f : Fields)
      → Built x (view s) t f []
      → Built x (view (push_tags L kvs s)) t (set_tags f kvs) []
  unfolding push_tags set_tags
  Built-tags [] s x t f b = b
  Built-tags ((k, v) ∷ kvs) s x t f b =
      let f' = set_key f (name k) (str v) in
      Built-tags kvs _ x t f' (
        subst (λ (y : View). Built x y t f' [])
          (sym (
            at_rawset L (at_push L (at_push L {s = s} refl (str k)) (str v)) f k
              (ap (λ (xs : List Value). str v ∷ str k ∷ xs) b.stack) b.fields))
          (Built-set x (view s) t f f' [] b))
