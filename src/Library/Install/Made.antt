-- ===== src/Library/Install/Made.antt =====
-- What lua-extension/glirc-lib.c leaves after the installation of the module `glirc`.
use irc_core.Base.{
  fun_ext, ℕ, ◌≡◌, refl, ap, ◌∙◌, subst, sym, List, [], ◌∷◌, map, length, Bytes, codes, suc, ◌+◌,
  ◌/◌, ◌%◌, ◌++◌, bytes_eq, if◌then◌else◌,
}
use irc_core.Lua.Value.{
  Value, integer, str, table, name, Fields, no_fields, set_key, set_global, View,
}
use irc_core.Lua.Api.{Lua}
use irc_core.Lua.Laws.{at_push}
use irc_core.Marshal.Objects.{Built, Built-stack, Built-create, Built-value, Built-nest}
use irc_core.Library.Install.{
  formats, set_values, new_formatting_table, new_version_table, functions, new_module,
  glirc_install_lib,
}

-- The fields of a table in which the values are set, in their order.
pub with_values : Fields → List (Bytes × Value) → Fields
with_values f [] = f
with_values f ((k, v) ∷ kvs) = with_values (set_key f (name k) v) kvs

abbrev pub version_fields : Fields
version_fields =
    set_key (set_key no_fields (name (codes "major")) (integer 2)) (name (codes "minor"))
      (integer 0)

-- The names of the functions that a script finds in the module.
abbrev pub documented : List Bytes
documented =
    codes "cancel_timer"
    ∷ codes "channel_masks"
    ∷ codes "channel_modes"
    ∷ codes "clear_window"
    ∷ codes "current_focus"
    ∷ codes "error"
    ∷ codes "identifier_cmp"
    ∷ codes "inject_chat"
    ∷ codes "is_channel"
    ∷ codes "is_logged_on"
    ∷ codes "list_channel_users"
    ∷ codes "list_channels"
    ∷ codes "list_networks"
    ∷ codes "mark_seen"
    ∷ codes "my_nick"
    ∷ codes "print"
    ∷ codes "resolve_path"
    ∷ codes "send_message"
    ∷ codes "set_focus"
    ∷ codes "set_timer"
    ∷ codes "system"
    ∷ codes "user_account"
    ∷ codes "user_channel_modes"
    ∷ codes "window_lines"
    ∷ []

-- A function has the prefix `glirc_lua_` in C; only `print` has another name there, since `print` of C
-- is the one that takes the place of Lua's.
abbrev pub c_name : Bytes → Bytes
c_name n = codes "glirc_lua_" ++ (if bytes_eq n (codes "print") then codes "print_string" else n)

-- The colors, in the order of their numbers from 0.
abbrev pub colors : List Bytes
colors =
    codes "white"
    ∷ codes "black"
    ∷ codes "blue"
    ∷ codes "green"
    ∷ codes "red"
    ∷ codes "brown"
    ∷ codes "purple"
    ∷ codes "orange"
    ∷ codes "yellow"
    ∷ codes "light_green"
    ∷ codes "cyan"
    ∷ codes "light_cyan"
    ∷ codes "light_blue"
    ∷ codes "pink"
    ∷ codes "gray"
    ∷ codes "light_gray"
    ∷ []

-- From the number `n` on, each color is the byte 3 and its number in two decimal digits.
abbrev pub color_codes : List Bytes → ℕ → List Value
color_codes [] n = []
color_codes (c ∷ cs) n = str (3 ∷ (48 + n / 10) ∷ (48 + n % 10) ∷ []) ∷ color_codes cs (suc n)

abbrev pub styles : List Bytes
styles = codes "bold" ∷ codes "reset" ∷ codes "reverse" ∷ codes "italic" ∷ codes "underline" ∷ []

-- The control characters of the styles.
abbrev pub style_codes : List ℕ
style_codes = 2 ∷ 15 ∷ 22 ∷ 29 ∷ 31 ∷ []

module _ {W : Type 0} (L : Lua W) where
  open L use {State, view, lua_setglobal, view-setglobal, library_function}

  Built-values :
      (kvs : List (Bytes × Value)) (s : State) (x : View) (t : ℕ) (f : Fields)
      → Built x (view s) t f []
      → Built x (view (set_values L kvs s)) t (with_values f kvs) []
  unfolding set_values with_values
  Built-values [] s x t f b = b
  Built-values ((k, v) ∷ kvs) s x t f b =
      Built-values kvs _ x t (set_key f (name k) v) (Built-value L b k v)

  -- The fields of the module's table, with the tables of the version and of the formatting codes.
  abbrev pub module_fields : ℕ → ℕ → Fields
  module_fields p q =
      set_key (set_key (with_values no_fields (functions L)) (name (codes "version")) (table p))
        (name (codes "format")) (table q)

  new_module_lem :
      (s : State)
      → (t p q : ℕ) × Built
          (view s)
          (view (new_module L s))
          t
          (module_fields p q)
          ((q, with_values no_fields formats) ∷ (p, version_fields) ∷ [])
  unfolding new_module new_version_table new_formatting_table
  new_module_lem s =
      let lib = Built-values (functions L) _ _ _ _ (Built-create L s) in
      let major = Built-value L (Built-create L _) (codes "major") (integer 2) in
      let minor = Built-value L major (codes "minor") (integer 0) in
      let version = Built-nest L lib (codes "version") minor in
      let coded = Built-values formats _ _ _ _ (Built-create L _) in
      (_, _, _, Built-nest L version (codes "format") coded)

  -- Each function of the module is found under its name.
  module_fields_lem :
      (p q : ℕ)
      → map (λ (n : Bytes). module_fields p q (name n)) documented
        ≡ map (λ (n : Bytes). library_function (c_name n)) documented
  unfolding with_values
  module_fields_lem p q = refl

  -- What the installation leaves: the module's table `t`, with the tables `p` of the version and `q`
  -- of the formatting codes, and the two global variables.
  pub record Installed (s : State) (s' : State) (t p q : ℕ) : Type 0 where
    pub no_stack_effect : (view s').stack ≡ (view s).stack
    pub built :
        Built
          (view s)
          (record (view s') { stack = table t ∷ (view s).stack; globals = (view s).globals })
          t
          (module_fields p q)
          ((q, with_values no_fields formats) ∷ (p, version_fields) ∷ [])
    pub has_functions :
        map (λ (n : Bytes). module_fields p q (name n)) documented
        ≡ map (λ (n : Bytes). library_function (c_name n)) documented
    pub has_colors :
        map (λ (n : Bytes). with_values no_fields formats (name n)) colors ≡ color_codes colors 0
    pub has_styles :
        map (λ (n : Bytes). with_values no_fields formats (name n)) styles
        ≡ map (λ (c : ℕ). str (c ∷ [])) style_codes
    pub no_more :
        (length (functions L) ≡ length documented)
        × (length formats ≡ length colors + length styles)
    pub global_variables :
        (view s').globals
        ≡ set_global
            (set_global (view s).globals (codes "glirc") (table t))
            (codes "print")
            (library_function (codes "glirc_lua_print"))

  colors_lem :
      map (λ (n : Bytes). with_values no_fields formats (name n)) colors ≡ color_codes colors 0
  unfolding with_values
  colors_lem = refl

  styles_lem :
      map (λ (n : Bytes). with_values no_fields formats (name n)) styles
      ≡ map (λ (c : ℕ). str (c ∷ [])) style_codes
  unfolding with_values
  styles_lem = refl

  -- The installation has no effect on the stack. The global `glirc` is then a new table, in which each
  -- of the 24 functions is the C function of its name, with the version and the formatting codes as
  -- new tables of their own; each of the 16 colors is the byte 3 with its number in two digits, and
  -- each of the five styles its control character, and there are no other functions or codes; the global `print` is the replacement of `print`; and what the
  -- interpreter had before in its tables, its registry and its user values is as it was.
  pub glirc_install_lib_lem : (s : State) → (t p q : ℕ) × Installed s (glirc_install_lib L s) t p q
  unfolding glirc_install_lib
  glirc_install_lib_lem s =
      let (t, p, q, b) = new_module_lem s in
      let made = new_module L s in
      let f = library_function (codes "glirc_lua_print") in
      let named = view-setglobal (codes "glirc") made (table t) (view s).stack b.stack in
      let pushed = at_push L named f in
      let last =
        view-setglobal (codes "print") _ f (view s).stack (ap (λ (y : View). y.stack) pushed)
        ∙ ap
            (λ (y : View). record y {
              stack = (view s).stack;
              globals = set_global y.globals (codes "print") f;
            })
            pushed in
      (
        t,
        p,
        q,
        record {
          no_stack_effect = ap (λ (y : View). y.stack) last;
          built =
              subst
                (λ (y : View).
                  Built (view s)
                    (record y { stack = table t ∷ (view s).stack; globals = (view s).globals }) t
                    (module_fields p q)
                    ((q, with_values no_fields formats) ∷ (p, version_fields) ∷ []))
                (sym last) (Built-stack b);
          has_functions = module_fields_lem p q;
          has_colors = colors_lem;
          has_styles = styles_lem;
          no_more = (refl, refl);
          global_variables =
              ap (λ (y : View). y.globals) last
              ∙ ap
                  (λ (g : Bytes → Value).
                    set_global (set_global g (codes "glirc") (table t)) (codes "print") f)
                  (fun_ext b.globals);
        },
      )
