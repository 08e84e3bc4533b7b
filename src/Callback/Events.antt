-- ===== src/Callback/Events.antt =====
-- The entry points of lua-extension/glirc-lua.c for the client's events. The extension's handle is
-- the interpreter, or NULL (`none`) if it did not start.
use irc_core.Base.{
  codes, Bytes, ℕ, ◌≡◌, refl, ap, subst, ◌∙◌, sym, false, Option, none, some, List, [], ◌∷◌,
  if◌then◌else◌,
}
use irc_core.Client.{
  Client, ProcessResult, pass_message, drop_message, error_message, Message, Chat, Command,
}
use irc_core.Lua.Value.{Value, truthy, table, Fields, no_fields, name as key, View}
use irc_core.Lua.Api.{Lua, returned, raised, is_nil}
use irc_core.Marshal.{push_glirc_message, push_glirc_chat, push_glirc_command}
use irc_core.Marshal.Arrays.{IsArray}
use irc_core.Marshal.Objects.{Built, set_tags}
use irc_core.Marshal.Messages.{
  push_glirc_message_lem, push_glirc_chat_lem, push_glirc_command_lem, message_fields,
  prefix_fields, chat_fields,
}
use irc_core.Callback.{callback}
use irc_core.Callback.Balance.{stack-callback}
use irc_core.Callback.Handler.{callback_called}

abbrev pub process_message : Bytes
process_message = codes "process_message"

abbrev pub process_chat : Bytes
process_chat = codes "process_chat"

abbrev pub process_command : Bytes
process_command = codes "process_command"

abbrev pub stop : Bytes
stop = codes "stop"

module _ (G : Client) (L : Lua G.World) where
  open G use {World, glirc_print}
  open L use {State, view, lua_call, lua_close, module_key, text_of}

  abbrev running : ProcessResult × State × World → ProcessResult × Option State × World
  running (r, s, w) = (r, some s, w)

  unfoldable pub message_entrypoint :
      Message → Option State → World → ProcessResult × Option State × World
  message_entrypoint msg none w = (pass_message, none, w)
  message_entrypoint msg (some s) w =
      running (callback G L process_message 1 (push_glirc_message L msg s) w)

  unfoldable pub chat_entrypoint :
      Chat → Option State → World → ProcessResult × Option State × World
  chat_entrypoint chat none w = (pass_message, none, w)
  chat_entrypoint chat (some s) w =
      running (callback G L process_chat 1 (push_glirc_chat L chat s) w)

  -- The result is not used.
  unfoldable pub command_entrypoint : Command → Option State → World → Option State × World
  command_entrypoint cmd none w = (none, w)
  command_entrypoint cmd (some s) w =
      let (r, s', w') = callback G L process_command 1 (push_glirc_command L cmd s) w in
      (some s', w')

  -- The interpreter is closed.
  unfoldable pub stop_entrypoint : Option State → World → World
  stop_entrypoint none w = w
  stop_entrypoint (some s) w = let (r, s', w') = callback G L stop 0 s w in lua_close s' w'

  -- The interpreter is there, with the stack that `s` has.
  abbrev pub SameStack : State → Option State → Type 0
  SameStack s o = (s' : State) × (o ≡ some s') × ((view s').stack ≡ (view s).stack)

  balance :
      (n : Bytes) (s s' : State) (w : World) (t : ℕ)
      → (view s').stack ≡ table t ∷ (view s).stack
      → SameStack s (running (callback G L n 1 s' w)).1
  balance n s s' w t e = (_, refl, stack-callback G L n 1 s' w (table t ∷ []) (view s).stack e refl)

  -- Whatever the extension's module does.
  pub stack-message_entrypoint :
      (msg : Message) (s : State) (w : World) → SameStack s (message_entrypoint msg (some s) w).1
  unfolding message_entrypoint
  stack-message_entrypoint msg s w =
      let (t, p, a, b, params, built, array) = push_glirc_message_lem L msg s in
      balance process_message s _ w t built.stack

  pub stack-chat_entrypoint :
      (chat : Chat) (s : State) (w : World) → SameStack s (chat_entrypoint chat (some s) w).1
  unfolding chat_entrypoint
  stack-chat_entrypoint chat s w =
      let (t, built) = push_glirc_chat_lem L chat s in balance process_chat s _ w t built.stack

  pub stack-command_entrypoint :
      (cmd : Command) (s : State) (w : World) → SameStack s (command_entrypoint cmd (some s) w).0
  unfolding command_entrypoint
  stack-command_entrypoint cmd s w =
      let (t, built) = push_glirc_command_lem L cmd s in balance process_command s _ w t built.stack

  -- The interpreter is closed once the module's function `stop` has been called, on the stack that it
  -- had before.
  stop_entrypoint_lem :
      (s : State) (w : World)
      → let (r, s', w') = callback G L stop 0 s w in
        (stop_entrypoint (some s) w ≡ lua_close s' w') × ((view s').stack ≡ (view s).stack)
  unfolding stop_entrypoint
  stop_entrypoint_lem s w = (refl, stack-callback G L stop 0 s w [] (view s).stack refl refl)

  -- The answer to an event, by the result of the module's function in the state `s'`.
  abbrev pub Answers : ProcessResult × Option State × World → State → World → Type 0
  Answers (r, o, w₁) s' w =
      ((s'' : State) (w' : World) (v : Value)
        → lua_call 2 1 s' w ≡ returned tt s'' w'
        → (view s'').stack ≡ v ∷ []
        → (r ≡ (if truthy v then drop_message else pass_message)) × (w₁ ≡ w'))
      × ((s'' : State) (w' : World) (e : Value)
          → lua_call 2 1 s' w ≡ raised e s'' w'
          → (r ≡ pass_message) × (w₁ ≡ glirc_print error_message (text_of e) w'))

  -- The function `h` of the module `m` is to be called with the module and the table `t`, which was
  -- built from the view `x` on.
  pub record Calling (x : View) (m : ℕ) (h : Value) (t : ℕ) (f : Fields) (us : List (ℕ × Fields))
      (s' : State) : Type 0 where
    pub stack : (view s').stack ≡ table t ∷ table m ∷ h ∷ []
    pub built : Built x (record (view s') { stack = table t ∷ x.stack }) t f us

  called :
      (n : Bytes) (s s₁ : State) (w : World) (t : ℕ) (f : Fields) (us : List (ℕ × Fields)) (m : ℕ)
      (g : Fields)
      → Built (view s) (view s₁) t f us
      → (view s).registry module_key ≡ table m
      → (view s).tables m ≡ some g
      → is_nil (g (key n)) ≡ false
      → (s' : State) × Calling (view s) m (g (key n)) t f us s'
        × Answers (running (callback G L n 1 s₁ w)) s' w
  called n s s₁ w t f us m g b module_is held present =
      let (s', at_s', ok, failed) =
        callback_called G L n 1 s₁ w (table t ∷ []) (view s).stack b.stack refl m g
          (b.registry module_key ∙ module_is) (b.kept m g held) present in
      let again : Built (view s) (record (view s₁) { stack = table t ∷ (view s).stack }) t f us =
        record {
          stack = refl;
          fresh = b.fresh;
          fields = b.fields;
          inner = b.inner;
          kept = b.kept;
          registry = b.registry;
          user_values = b.user_values;
          globals = b.globals;
        } in
      (
        s',
        record {
          stack = ap (λ (y : View). y.stack) at_s';
          built =
              subst
                (λ (y : View).
                  Built (view s) (record y { stack = table t ∷ (view s).stack }) t f us)
                (sym at_s') again;
        },
        (ok, failed),
      )

  -- Where the module is a plain table with the function `process_message`, that function is called
  -- with the module and a new table that holds the message: its network and its command, its prefix,
  -- its parameters and its tags. The message is dropped exactly when the value returned counts as
  -- true; if the call fails, the error's text is printed and the message passes.
  pub message_entrypoint_lem :
      (msg : Message) (s : State) (w : World) (m : ℕ) (g : Fields)
      → (view s).registry module_key ≡ table m
      → (view s).tables m ≡ some g
      → is_nil (g (key process_message)) ≡ false
      → (s' : State) × (t p a b : ℕ) × (params : Fields) × Calling
          (view s)
          m
          (g (key process_message))
          t
          (message_fields msg p a b)
          ((b, set_tags no_fields msg.tags) ∷ (a, params) ∷ (p, prefix_fields msg) ∷ [])
          s'
        × IsArray params msg.params
        × Answers (message_entrypoint msg (some s) w) s' w
  unfolding message_entrypoint
  message_entrypoint_lem msg s w m g module_is held present =
      let (t, p, a, b, params, built, array) = push_glirc_message_lem L msg s in
      let (s', calling, answers) =
        called process_message s _ w t _ _ m g built module_is held present in
      (s', t, p, a, b, params, calling, array, answers)

  -- A chat message is handed to `process_chat` in the same way, in a new table with its network, its
  -- target and its text.
  chat_entrypoint_lem :
      (chat : Chat) (s : State) (w : World) (m : ℕ) (g : Fields)
      → (view s).registry module_key ≡ table m
      → (view s).tables m ≡ some g
      → is_nil (g (key process_chat)) ≡ false
      → (s' : State) × (t : ℕ) × Calling
          (view s)
          m
          (g (key process_chat))
          t
          (chat_fields chat)
          []
          s'
        × Answers (chat_entrypoint chat (some s) w) s' w
  unfolding chat_entrypoint
  chat_entrypoint_lem chat s w m g module_is held present =
      let (t, built) = push_glirc_chat_lem L chat s in
      let (s', calling, answers) =
        called process_chat s _ w t _ _ m g built module_is held present in
      (s', t, calling, answers)
