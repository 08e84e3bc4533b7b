-- ===== src/Script/Loaded.antt =====
-- What `initialize_lua` of lua-extension/glirc-lua.c does before it runs the script.
use irc_core.Base.{
  subst, sym, Bytes, ℕ, ◌≡◌, refl, ap, ◌∙◌, Bool, true, false, Option, none, some, List, [], ◌∷◌,
  drop, drop_of_length,
}
use irc_core.Client.{Client}
use irc_core.Lua.Value.{Value, str, table, no_fields, View}
use irc_core.Lua.Api.{Lua, Outcome, returned, raised}
use irc_core.Lua.Run.{and_then}
use irc_core.Lua.Laws.{at_push, at_pop}
use irc_core.Marshal.Arrays.{string_or_nil, set_items}
use irc_core.Marshal.Objects.{Built-create, Built-items}
use irc_core.Script.{
  behind_first, top, push_scriptname, push_args_table, check_version, clear, raise_unless,
  after_load, load_script, after_name, after_check, execute, initialize_lua,
}
use irc_core.Script.Prepared.{Ready, script_name, place-Ready}

module _ (G : Client) (L : Lua G.World) where
  open G use {World}
  open L use {
    State, view, lua_push, new_address, gettop_lem, lua_tolstring, tolstring_lem, tolstring-str,
    text_of-str, lual_checkversion, lual_loadfile, view-loadfile,
  }

  push_scriptname-push :
      (path : Bytes) (args : List Bytes) (s : State) (w : World)
      → let (script, w') = script_name G L path args w in
        push_scriptname G L path args s w ≡ returned tt (lua_push (string_or_nil script) s) w'
  unfolding push_scriptname
  push_scriptname-push path [] s w = refl
  push_scriptname-push path (a ∷ args) s w = refl

  clear-stack : (s : State) → (view (clear G L s)).stack ≡ []
  clear-stack s =
      ap (λ (x : View). x.stack) (at_pop L {s = s} refl _)
      ∙ ap (λ (n : ℕ). drop n (view s).stack) (gettop_lem s)
      ∙ drop_of_length (view s).stack

  -- Once the file was read as a function, the script is run; or its error is raised.
  abbrev pub Loaded : Bytes → List Bytes → Bool × State × World → Outcome State World ℕ → Type 0
  Loaded file args (true, s, w) o = (p : State) × Ready G L file args p × (o ≡ execute G L p w)
  Loaded file args (false, s, w) o = o ≡ raised (top (view s).stack) s w

  after_load-Loaded :
      (file : Bytes) (args : List Bytes) (loaded : Bool) (s : State) (w : World) (v : Value) (t : ℕ)
      → (view s).stack ≡ v ∷ str file ∷ table t ∷ []
      → (view s).tables t ≡ some (set_items no_fields (behind_first args) 0)
      → Loaded file args (loaded, s, w) (after_load G L loaded s w)
  unfolding raise_unless
  after_load-Loaded file args true s w v t xs held =
      (_, place-Ready G L file args s v t xs held, refl)
  after_load-Loaded file args false s w v t xs held = refl

  load_script-Loaded :
      (file : Bytes) (args : List Bytes) (s : State) (w : World) (t : ℕ)
      → (view s).stack ≡ str file ∷ table t ∷ []
      → (view s).tables t ≡ some (set_items no_fields (behind_first args) 0)
      → Loaded file args (lual_loadfile (some file) s w) (load_script G L (some file) s w)
  unfolding load_script
  load_script-Loaded file args s w t xs held =
      let (ok, s', w') = lual_loadfile (some file) s w in
      let (v, e) = view-loadfile (some file) s w in
      after_load-Loaded file args ok s' w' v t
        (ap (λ (x : View). x.stack) e ∙ ap (λ (ys : List Value). v ∷ ys) xs)
        (ap (λ (x : View). x.tables t) e ∙ held)

  -- The state in which the file is read: the script's path lies on the table of the arguments.
  named : Bytes → List Bytes → State → State
  named file args s =
      (lua_tolstring (lua_push (str file) (push_args_table G L args (clear G L s)))).1

  named_lem :
      (file : Bytes) (args : List Bytes) (s : State)
      → let put = lua_push (str file) (push_args_table G L args (clear G L s)) in
        (t : ℕ) × ((view (named file args s)).stack ≡ str file ∷ table t ∷ [])
        × ((view (named file args s)).tables t ≡ some (set_items no_fields (behind_first args) 0))
        × ((lua_tolstring put).0 ≡ some file)
  unfolding named push_args_table
  named_lem file args s =
      let cleared = clear G L s in
      let b = Built-items L (behind_first args) 0 _ _ _ _ (Built-create L cleared) in
      let t = new_address cleared in
      let args_made = push_args_table G L args cleared in
      let put = lua_push (str file) args_made in
      let pushed = at_push L {s = args_made} refl (str file) in
      let below = b.stack ∙ ap (λ (ys : List Value). table t ∷ ys) (clear-stack s) in
      let xs = ap (λ (x : View). x.stack) pushed ∙ ap (λ (ys : List Value). str file ∷ ys) below in
      let same = tolstring-str put file (table t ∷ []) xs in
      let (v, text, seen) = tolstring_lem put (str file) (table t ∷ []) xs in
      (
        t,
        ap (λ (x : View). x.stack) same ∙ xs,
        ap (λ (x : View). x.tables t) (same ∙ pushed) ∙ b.fields,
        text ∙ text_of-str file,
      )

  -- In an interpreter of the right version, and where the script's path is known, the file at this path
  -- is read. It is then run with the global variables `arg`, `glirc` and `print` in place and nothing
  -- else on the stack, and its result is registered; where it cannot be read, the error is raised.
  pub initialize_lua-Loaded :
      (path file : Bytes) (args : List Bytes) (s : State) (w w' : World)
      → lual_checkversion s ≡ none
      → script_name G L path args w ≡ (some file, w')
      → (s' : State) × Loaded file args
          (lual_loadfile (some file) s' w')
          (initialize_lua G L path args s w)
  unfolding initialize_lua check_version named
  initialize_lua-Loaded path file args s w w' version found =
      let cleared = clear G L s in
      let args_made = push_args_table G L args cleared in
      let (t, xs, held, text) = named_lem file args s in
      let s' = named file args s in
      let checked : initialize_lua G L path args s w ≡ after_check G L path args s w =
        ap
          (λ (o : Option Value).
            and_then (check_version G L o s w) (λ _. after_check G L path args))
          version in
      let pushed =
        push_scriptname-push path args args_made w
        ∙ ap
            (λ (r : Option Bytes × World). returned tt (lua_push (string_or_nil r.0) args_made) r.1)
            found in
      let whole =
        checked
        ∙ ap (λ (o : Outcome State World (Unit {0})). and_then o (λ _. after_name G L)) pushed
        ∙ ap (λ (f : Option Bytes). load_script G L f s' w') text in
      (
        s',
        subst (Loaded file args (lual_loadfile (some file) s' w')) (sym whole)
            (load_script-Loaded file args s' w' t xs held),
      )
