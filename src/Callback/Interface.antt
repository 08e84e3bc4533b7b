-- ===== src/Callback/Interface.antt =====
-- lua-extension/glirc-lua.c: what the Lua extension presents to the client, `extension`.
use irc_core.Base.{ℕ, codes, ◌≡◌, refl, ap, ◌∙◌, Option, some, List, [], ◌∷◌}
use irc_core.Client.{Client, ProcessResult, pass_message}
use irc_core.Lua.Api.{Lua}
use irc_core.Extension.{
  Extension, Event, message_event, command_event, chat_event, deliver_all, in_front,
}
use irc_core.Callback.Start.{start}
use irc_core.Callback.Events.{
  message_entrypoint, chat_entrypoint, command_entrypoint, stop_entrypoint, SameStack,
  stack-message_entrypoint, stack-chat_entrypoint, stack-command_entrypoint,
}

-- The path and the arguments lie at these addresses.
module _ (G : Client) (L : Lua G.World) (path_at args_at : ℕ) where
  open G use {World}
  open L use {State, view}

  abbrev pub extension : Extension World
  extension = record {
    Session = Option State;
    name = codes "Lua";
    major_version = 2;
    minor_version = 0;
    start = start G L path_at args_at;
    stop = λ s w. some (stop_entrypoint G L s w);
    process_message = some (λ msg s w. some (message_entrypoint G L msg s w));
    process_command = some (λ cmd s w. some (command_entrypoint G L cmd s w));
    process_chat = some (λ chat s w. some (chat_entrypoint G L chat s w));
  }

  -- The interpreter runs after the events, with the stack of `s`.
  abbrev pub Alive : State → Option (List ProcessResult × Option State × World) → Type 0
  Alive s o =
      (rs : List ProcessResult) × (s' : State) × (w' : World) × (o ≡ some (rs, some s', w'))
      × ((view s').stack ≡ (view s).stack)

  event-Alive :
      (es : List Event) (s : State) (x : ProcessResult × Option State × World)
      → SameStack G L s x.1
      → ((s' : State) (w' : World) → Alive s' (deliver_all extension es (some s') w'))
      → Alive s (in_front extension x.0 (deliver_all extension es x.1 x.2))
  event-Alive es s (r, o, w) (s', e, same) behind =
      let (rs, s'', w'', all, same') = behind s' w in
      (
        r ∷ rs,
        s'',
        w'',
        ap (λ (o : Option State). in_front extension r (deliver_all extension es o w)) e
            ∙ ap (in_front extension r) all,
        same' ∙ same,
      )

  -- Whatever the extension's module does, the interpreter runs on through any events, and has its
  -- stack at the end as it was before them.
  pub events-Alive :
      (es : List Event) (s : State) (w : World) → Alive s (deliver_all extension es (some s) w)
  unfolding deliver_all
  events-Alive [] s w = ([], s, w, refl, refl)
  events-Alive (message_event msg ∷ es) s w =
      event-Alive es s (message_entrypoint G L msg (some s) w)
        (stack-message_entrypoint G L msg s w) (events-Alive es)
  events-Alive (chat_event chat ∷ es) s w =
      event-Alive es s (chat_entrypoint G L chat (some s) w) (stack-chat_entrypoint G L chat s w)
        (events-Alive es)
  events-Alive (command_event cmd ∷ es) s w =
      let (o, w') = command_entrypoint G L cmd (some s) w in
      event-Alive es s (pass_message, o, w') (stack-command_entrypoint G L cmd s w)
        (events-Alive es)
