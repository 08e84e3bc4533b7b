-- ===== src/Otr/Timers/Reach.antt =====
-- The states that otr-extension reaches, one call of the client behind the other.
use irc_core.Base.{ℕ, ◌≡◌, Option, [], Bytes}
use irc_core.Client.{Client, Message, Chat, Command}
use irc_core.Otr.Libotr.{Libotr}
use irc_core.Otr.Session.{OpData}
use irc_core.Otr.Events.{start_entrypoint, timer_entrypoint, message_entrypoint, chat_entrypoint}
use irc_core.Otr.Commands.{command_entrypoint}
use irc_core.Otr.Timers.{Timers}
use irc_core.Otr.Timers.Events.{
  Fine, Fine-world, start_entrypoint-Fine, timer_entrypoint-Fine, message_entrypoint-Fine,
  chat_entrypoint-Fine,
}
use irc_core.Otr.Timers.Commands.{command_entrypoint-Fine}

module _ (G : Client) (O : Libotr G.World) (home : Option Bytes) (self : ℕ)
    (T : Timers G O self) where
  open G use {World}
  open O use {Us}
  open T use {pending}

  -- What is left of a call that has a result.
  abbrev pub left : {A : Type 0} → A × OpData Us × World → OpData Us × World
  left (a, d, w) = (d, w)

  -- The client calls an entry point, or changes on its own without setting or cancelling a timer of
  -- the extension. It drops a timer before it calls the extension for it.
  pub data Step (d : OpData Us) (w : World) : OpData Us × World → Type 0 where
    message : (msg : Message) → Step d w (left (message_entrypoint G O home self msg d w))
    chat : (c : Chat) → Step d w (left (chat_entrypoint G O home self c d w))
    command : (cmd : Command) → Step d w (command_entrypoint G O home self cmd d w)
    timer : (w' : World) → pending w' ≡ [] → Step d w (timer_entrypoint G O home self d w')
    outside : (w' : World) → pending w' ≡ pending w → Step d w (d, w')

  pub data Reached (w : World) : OpData Us × World → Type 0 where
    started : Reached w (start_entrypoint G O home self w)
    stepped :
        {d : OpData Us} {w' : World} {s : OpData Us × World}
        → Reached w (d, w')
        → Step d w' s
        → Reached w s

  Step-Fine :
      {d : OpData Us} {w : World} {s : OpData Us × World}
      → Step d w s
      → Fine G O home self T (d, w)
      → Fine G O home self T s
  Step-Fine (message msg) fine = message_entrypoint-Fine G O home self T msg _ _ fine
  Step-Fine (chat c) fine = chat_entrypoint-Fine G O home self T c _ _ fine
  Step-Fine (command cmd) fine = command_entrypoint-Fine G O home self T cmd _ _ fine
  Step-Fine (timer w' fired) (one, armed, heard) =
      timer_entrypoint-Fine G O home self T _ w' fired heard
  Step-Fine {d} (outside w' same) fine = Fine-world G O home self T d same fine

  -- From the start, where the client has no timer for the extension, and through any messages, chats,
  -- commands and timers, whatever libotr asks for while it runs: between two calls the interval that
  -- the extension keeps is the one that libotr has last asked for, which is its wish, and the client
  -- has exactly the one timer whose identifier the extension keeps, set for that interval in
  -- milliseconds, if it is not 0, and no timer for the extension if it is 0. The
  -- client's timers and libotr's wishes are as `Timers` has them.
  pub Reached-Fine :
      (w : World) (s : OpData Us × World) → pending w ≡ [] → Reached w s → Fine G O home self T s
  Reached-Fine w s none_yet started = start_entrypoint-Fine G O home self T w none_yet
  Reached-Fine w s none_yet (stepped r step) = Step-Fine step (Reached-Fine w _ none_yet r)
