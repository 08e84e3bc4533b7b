-- ===== src/Callback/Start/Outcomes.antt =====
-- What `start` of lua-extension/glirc-lua.c comes to.
use irc_core.Base.{
  arith, take, Bytes, ℕ, c_string, ◌≡◌, refl, ap, ◌∙◌, sym, subst, Bool, true, false, Option, none,
  some, List, [], ◌∷◌, ◌++◌, length,
}
use irc_core.Client.{Client, error_message}
use irc_core.Lua.Value.{
  Value, integer, light_userdata, cfunction, initializer, update_self, View, adjust,
}
use irc_core.Lua.Api.{Lua, Outcome, returned, raised}
use irc_core.Lua.Run.{and_then, lua, return, ◌>>◌}
use irc_core.Lua.Laws.{at_push, at_enter, at_rawsetp}
use irc_core.Script.{top, initialize_lua, execute, check_version, after_check}
use irc_core.Script.Prepared.{Ready, script_name}
use irc_core.Script.Loaded.{Loaded, initialize_lua-Loaded}
use irc_core.Callback.{bodies}
use irc_core.Callback.Start.{Handle, close, cleanup, after_pcall, called, start_in, start}

module _ (G : Client) (L : Lua G.World) where
  open G use {World, glirc_print}
  open L use {
    State, view, enter, view-enter, lua_push, lua_pcall, pcall-returned, pcall-raised,
    lua_tolstring, tolstring_lem, text_of, lua_close, lua_call, call-stack, lua_rawsetp, module_key,
    lual_newstate, newstate-stack, lual_checkversion, lual_loadfile,
  }

  -- The error is printed, if it has a text, and the interpreter closed.
  abbrev pub Aborted : Option Bytes → World → Handle G L → Type 0
  Aborted none w o = o ≡ none
  Aborted (some err) w o =
      (s : State) × (o
        ≡ some (none, lua_close s (glirc_print error_message (some (c_string err)) w)))

  -- The script's result is registered, and the stack is empty.
  abbrev pub Ran : Outcome State World (Unit {0}) → Handle G L → Type 0
  Ran (returned done s w) o =
      (v : Value) × (s' : State) × ((view s).stack ≡ v ∷ [])
      × (o ≡ some (some s', w))
      × ((view s').stack ≡ [])
      × ((view s').registry module_key ≡ v)
  Ran (raised e s w) o = Aborted (text_of e) w o

  abbrev pub Read : Bytes → List Bytes → Bool × State × World → Handle G L → Type 0
  Read file args (true, s, w) o = (p : State) × Ready G L file args p × Ran (lua_call 0 1 p w) o
  Read file args (false, s, w) o = Aborted (text_of (top (view s).stack)) w o

  cleanup-Aborted :
      (err text : Option Bytes) (s : State) (w : World)
      → err ≡ text
      → Aborted text w (cleanup G L err (some s) w)
  unfolding cleanup close
  cleanup-Aborted err none s w h = ap (λ (t : Option Bytes). cleanup G L t (some s) w) h
  cleanup-Aborted err (some text) s w h = (s, ap (λ (t : Option Bytes). cleanup G L t (some s) w) h)

  after_pcall-Aborted :
      (e : Value) (s : State) (w : World) (r : Bool × State × World)
      → r ≡ (false, enter (e ∷ []) s, w)
      → Aborted (text_of e) w (after_pcall G L r)
  unfolding after_pcall
  after_pcall-Aborted e s w r h =
      let failed = enter (e ∷ []) s in
      let (v, text, seen) =
        tolstring_lem failed e [] (ap (λ (x : View). x.stack) (view-enter (e ∷ []) s)) in
      let (err, s') = lua_tolstring failed in
      subst (λ (q : Bool × State × World). Aborted (text_of e) w (after_pcall G L q)) (sym h)
        (cleanup-Aborted err (text_of e) s' w text)

  -- How the protected call ends, by what the function comes to.
  abbrev pub ended : Outcome State World ℕ → Bool × State × World
  ended (returned n s w) = (true, enter (adjust 0 (take n (view s).stack) ++ []) s, w)
  ended (raised e s w) = (false, enter (e ∷ []) s, w)

  -- The state in which `initialize_lua` starts.
  abbrev pub entered : ℕ → ℕ → Bytes → List Bytes → State → State
  entered path_at args_at path args s =
      enter (integer (length args) ∷ light_userdata args_at ∷ light_userdata path_at ∷ [])
        (called G L path_at args_at path args s)

  called-stack :
      (path_at args_at : ℕ) (path : Bytes) (args : List Bytes) (s : State)
      → (view s).stack ≡ []
      → (view (called G L path_at args_at path args s)).stack
        ≡ integer (length args)
          ∷ light_userdata args_at
          ∷ light_userdata path_at
          ∷ cfunction (initializer path args)
          ∷ []
  called-stack path_at args_at path args s none_there =
      let first = at_push L {s = s} refl (cfunction (initializer path args)) in
      let second = at_push L first (light_userdata path_at) in
      let all = at_push L (at_push L second (light_userdata args_at)) (integer (length args)) in
      ap (λ (x : View). x.stack) all
      ∙ ap
          (λ (xs : List Value).
            integer (length args)
            ∷ light_userdata args_at
            ∷ light_userdata path_at
            ∷ cfunction (initializer path args)
            ∷ xs)
          none_there

  pcall-ended :
      (path_at args_at : ℕ) (path : Bytes) (args : List Bytes) (s : State) (w : World)
      (o : Outcome State World ℕ)
      → (view s).stack ≡ []
      → initialize_lua G L path args (entered path_at args_at path args s) w ≡ o
      → lua_pcall (bodies G L) 3 0 (called G L path_at args_at path args s) w ≡ ended o
  unfolding bodies
  pcall-ended path_at args_at path args s w (returned n s' w') none_there does =
      pcall-returned (bodies G L) 3 0 _ s' w w'
        (integer (length args) ∷ light_userdata args_at ∷ light_userdata path_at ∷ [])
        (initializer path args) [] n (called-stack path_at args_at path args s none_there) refl does
  pcall-ended path_at args_at path args s w (raised e s' w') none_there does =
      pcall-raised (bodies G L) 3 0 _ s' w w'
        (integer (length args) ∷ light_userdata args_at ∷ light_userdata path_at ∷ [])
        (initializer path args) [] e (called-stack path_at args_at path args s none_there) refl does

  -- The script's result is registered.
  registered :
      (s : State) (w : World) (results : List Value)
      → (view s).stack ≡ results ++ []
      → length results ≡ 1
      → Ran (returned tt s w) (after_pcall G L (ended (returned 0 (lua_rawsetp module_key s) w)))
  unfolding after_pcall
  registered s w [] xs one = absurd (omega arith)
  registered s w (u ∷ v ∷ vs) xs one = absurd (omega arith)
  registered s w (v ∷ []) xs one =
      let put = at_enter L (at_rawsetp L {s = s} refl module_key xs) [] in
      (
        v,
        enter [] (lua_rawsetp module_key s),
        xs,
        refl,
        ap (λ (x : View). x.stack) put,
        ap (λ (x : View). x.registry module_key) put ∙ update_self (view s).registry module_key v,
      )

  execute-Ran :
      (s : State) (w : World) (script : Value) (c : Outcome State World (Unit {0}))
      → (view s).stack ≡ script ∷ []
      → lua_call 0 1 s w ≡ c
      → Ran c
          (after_pcall G L (ended (and_then c (λ done. lua (lua_rawsetp module_key) >> return 0))))
  execute-Ran s w script (returned done s' w') alone does =
      let (results, xs, one) = call-stack 0 1 s s' w w' [] script [] alone refl does in
      registered s' w' results xs one
  execute-Ran s w script (raised e s' w') alone does =
      after_pcall-Aborted e s' w' (false, enter (e ∷ []) s', w') refl

  Loaded-Read :
      (file : Bytes) (args : List Bytes) (r : Bool × State × World) (o : Outcome State World ℕ)
      → Loaded G L file args r o
      → Read file args r (after_pcall G L (ended o))
  unfolding execute
  Loaded-Read file args (true, s, w) o (p, ready, does) = (
    p,
    ready,
    subst (λ (c : Outcome State World ℕ). Ran (lua_call 0 1 p w) (after_pcall G L (ended c)))
        (sym does) (execute-Ran p w ready.script (lua_call 0 1 p w) ready.script_alone refl),
  )
  Loaded-Read file args (false, s, w) o does =
      subst
        (λ (c : Outcome State World ℕ).
          Aborted (text_of (top (view s).stack)) w (after_pcall G L (ended c)))
        (sym does) (after_pcall-Aborted (top (view s).stack) s w _ refl)

  -- Whether the version of the library is right decides whether the script is looked at. It is read
  -- in the state `s` of the interpreter and `w'` of the client.
  abbrev pub Checked :
      Bytes → List Bytes → Option Value → State → World → World → Handle G L → Type 0
  Checked file args none s w w' o = Read file args (lual_loadfile (some file) s w') o
  Checked file args (some e) s w w' o = Aborted (text_of e) w o

  initialize_lua-Checked :
      (path file : Bytes) (args : List Bytes) (s : State) (w w' : World) (version : Option Value)
      → lual_checkversion s ≡ version
      → script_name G L path args w ≡ (some file, w')
      → (s' : State) × Checked file args version s' w w'
          (after_pcall G L (ended (initialize_lua G L path args s w)))
  unfolding initialize_lua check_version
  initialize_lua-Checked path file args s w w' none version found =
      let (s', loaded) = initialize_lua-Loaded G L path file args s w w' version found in
      (s', Loaded-Read file args (lual_loadfile (some file) s' w') _ loaded)
  initialize_lua-Checked path file args s w w' (some e) version found = (
    s,
    subst
        (λ (v : Option Value). Aborted (text_of e) w (
          after_pcall G L
            (ended (and_then (check_version G L v s w) (λ _. after_check G L path args)))))
        (sym version) (after_pcall-Aborted e s w (false, enter (e ∷ []) s, w) refl),
  )

  -- Where there is memory for an interpreter, and the script's path is known, `start` reads the file at
  -- this path in an interpreter of the right version. The script is run with the global variables
  -- `arg`, `glirc` and `print` in place and nothing else on the stack; its result is registered, and
  -- the interpreter is given back with an empty stack. Where the version is wrong, the file cannot be
  -- read or the script fails, the error is printed, the interpreter closed and NULL given back; but an
  -- error without a text is read through a null pointer.
  pub start-Checked :
      (path_at args_at : ℕ) (path file : Bytes) (args : List Bytes) (s : State) (w w' : World)
      → lual_newstate w ≡ some s
      → script_name G L path args w ≡ (some file, w')
      → (s' : State) × Checked file args
          (lual_checkversion (entered path_at args_at path args s))
          s'
          w
          w'
          (start G L path_at args_at path args w)
  unfolding start start_in
  start-Checked path_at args_at path file args s w w' made found =
      let s0 = entered path_at args_at path args s in
      let (s', checked) = initialize_lua-Checked path file args s0 w w' _ refl found in
      let worked = pcall-ended path_at args_at path args s w _ (newstate-stack w s made) refl in
      let whole =
        ap (λ (o : Option State). start_in G L path_at args_at path args o w) made
        ∙ ap (λ (r : Bool × State × World). after_pcall G L r) worked in
      (s', subst (Checked file args (lual_checkversion s0) s' w w') (sym whole) checked)
