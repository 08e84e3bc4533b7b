-- ===== src/Script/Prepared.antt =====
-- The interpreter at the moment when lua-extension/glirc-lua.c runs the script.
use irc_core.Base.{
  arith, Bytes, ℕ, suc, codes, ◌≡◌, refl, ap, ◌∙◌, Option, some, List, [], ◌∷◌, ◌++◌, get_elem?,
}
use irc_core.Client.{Client}
use irc_core.Lua.Value.{Value, str, table, index, Fields, no_fields, set_key, update_self, View, at}
use irc_core.Lua.Api.{Lua}
use irc_core.Lua.Laws.{at_insert_bottom, at_setglobal}
use irc_core.Lua.Tables.{at_rawseti}
use irc_core.Marshal.Arrays.{string_or_nil, set_items, set_items-IsArray}
use irc_core.Library.Install.Made.{module_fields, glirc_install_lib_lem}
use irc_core.Library.Install.{glirc_install_lib}
use irc_core.Script.Path.{dirname}
use irc_core.Script.{behind_first, place}

-- The fields of the table `arg`: the script's path at 0, and the script's arguments from 1 on.
pub record ArgFields (f : Fields) (file : Bytes) (args : List Bytes) : Type 0 where
  pub script_path : f (index 0) ≡ str file
  pub argument : (j : ℕ) → f (index (suc j)) ≡ string_or_nil (get_elem? (behind_first args) j)

arg_fields : Bytes → List Bytes → Fields
arg_fields file args = set_key (set_items no_fields (behind_first args) 0) (index 0) (str file)

arg_fields-ArgFields :
    (file : Bytes) (args : List Bytes) → ArgFields (arg_fields file args) file args
unfolding arg_fields
arg_fields-ArgFields file args = record {
  script_path = refl;
  argument = λ j. ground (arith, (set_items-IsArray (behind_first args)).element j);
}

module _ (G : Client) (L : Lua G.World) where
  open G use {World, glirc_resolve_path, glirc_free_string}
  open L use {
    State, view, lua_push, lua_pop, lua_gettop, gettop_lem, lua_insert, lua_rawseti, lua_setglobal,
    view-setglobal, lua_tolstring, tolstring_lem, tolstring-str, text_of-str, lual_checkversion,
    lual_loadfile, view-loadfile, lual_openlibs, openlibs-stack, openlibs-tables, openlibs-globals,
    library_function,
  }

  -- The script's path, and what the client is left in.
  abbrev pub script_name : Bytes → List Bytes → World → Option Bytes × World
  script_name path [] w = (some (dirname path ++ codes "/glirc.lua"), w)
  script_name path (a ∷ args) w =
      let (script, w') = glirc_resolve_path a w in (script, glirc_free_string script w')

  -- Ready to run the script: it alone is on the stack, and the global variables are there.
  pub record Ready (file : Bytes) (args : List Bytes) (s : State) : Type 0 where
    pub script : Value
    pub script_alone : (view s).stack ≡ script ∷ []
    pub arg_table : ℕ
    pub arg_global : (view s).globals (codes "arg") ≡ table arg_table
    pub fields : Fields
    pub arg_held : (view s).tables arg_table ≡ some fields
    pub arg_right : ArgFields fields file args
    pub module_table : ℕ
    pub version_table : ℕ
    pub format_table : ℕ
    pub module_global : (view s).globals (codes "glirc") ≡ table module_table
    pub module_held :
        (view s).tables module_table ≡ some (module_fields L version_table format_table)
    pub print_global : (view s).globals (codes "print") ≡ library_function (codes "glirc_lua_print")

  -- The global `arg` is set, and the script is left.
  set_arg : State → State
  set_arg s = lua_setglobal (codes "arg") (lua_rawseti 0 (lua_insert (at 1) s))

  set_arg_lem :
      (file : Bytes) (args : List Bytes) (s : State) (v : Value) (t : ℕ)
      → (view s).stack ≡ v ∷ str file ∷ table t ∷ []
      → (view s).tables t ≡ some (set_items no_fields (behind_first args) 0)
      → ((view (set_arg s)).stack ≡ v ∷ [])
        × ((view (set_arg s)).tables t ≡ some (arg_fields file args))
        × ((view (set_arg s)).globals (codes "arg") ≡ table t)
  unfolding set_arg arg_fields
  set_arg_lem file args s v t xs held =
      let inserted = at_insert_bottom L {s = s} refl xs in
      let indexed = at_rawseti L inserted (set_items no_fields (behind_first args) 0) 0 refl held in
      let done = at_setglobal L indexed (codes "arg") refl in
      (
        ap (λ (x : View). x.stack) done,
        ap (λ (x : View). x.tables t) done
            ∙ update_self (view s).tables t (some (arg_fields file args)),
        ap (λ (x : View). x.globals (codes "arg")) done,
      )

  install-Ready :
      (file : Bytes) (args : List Bytes) (s : State) (v : Value) (t : ℕ)
      → (view s).stack ≡ v ∷ []
      → (view s).tables t ≡ some (arg_fields file args)
      → (view s).globals (codes "arg") ≡ table t
      → Ready file args (glirc_install_lib L (lual_openlibs s))
  install-Ready file args s v t xs held global =
      let opened = lual_openlibs s in
      let (u, p, q, i) = glirc_install_lib_lem L opened in
      record {
        script = v;
        script_alone = i.no_stack_effect ∙ openlibs-stack s ∙ xs;
        arg_table = t;
        arg_global =
            ap (λ (g : Bytes → Value). g (codes "arg")) i.global_variables
            ∙ openlibs-globals s
            ∙ global;
        fields = arg_fields file args;
        arg_held = i.built.kept t (arg_fields file args) (openlibs-tables s t _ held);
        arg_right = arg_fields-ArgFields file args;
        module_table = u;
        version_table = p;
        format_table = q;
        module_global = ap (λ (g : Bytes → Value). g (codes "glirc")) i.global_variables;
        module_held = i.built.fields;
        print_global = ap (λ (g : Bytes → Value). g (codes "print")) i.global_variables;
      }

  pub place-Ready :
      (file : Bytes) (args : List Bytes) (s : State) (v : Value) (t : ℕ)
      → (view s).stack ≡ v ∷ str file ∷ table t ∷ []
      → (view s).tables t ≡ some (set_items no_fields (behind_first args) 0)
      → Ready file args (place G L s)
  unfolding set_arg
  place-Ready file args s v t xs held =
      let (left, there, global) = set_arg_lem file args s v t xs held in
      install-Ready file args (set_arg s) v t left there global
