-- ===== src/Otr/Outgoing/Whole.antt =====
-- What otr-extension sends to the server in its whole life.
use irc_core.Base.{ℕ, ◌≡◌, refl, ◌∙◌, Option, Bytes, codes}
use irc_core.Client.{Client, Message, Chat, Command}
use irc_core.Otr.Libotr.{Libotr}
use irc_core.Otr.Session.{OpData, new_op_data}
use irc_core.Otr.Callbacks.{if_path-elim, state_path}
use irc_core.Otr.Events.{
  read_state, start_entrypoint, timer_entrypoint, message_entrypoint, chat_entrypoint,
}
use irc_core.Otr.Commands.{command_entrypoint}
use irc_core.Otr.Outgoing.{Outbox, sent, Grown-trans, unseen}
use irc_core.Otr.Outgoing.Events.{
  Sends, chat_entrypoint-After, message_entrypoint-After, timer_entrypoint-After,
}
use irc_core.Otr.Outgoing.Commands.{command_entrypoint-Sends}

module _ (G : Client) (O : Libotr G.World) (home : Option Bytes) (self : ℕ)
    (B : Outbox G O self) where
  open G use {World}
  open O use {Us}
  open B use {sent-privkey_read, sent-instag_read, sent-read_fingerprints}

  -- The state behind an entry point that has an answer.
  abbrev pub behind : {A : Type 0} → A × OpData Us × World → OpData Us × World
  behind (a, d, w) = (d, w)

  -- The calls of the extension from the start in the client's state `w`, and the client's own work
  -- between them, which sends no message for the extension.
  pub data Lived (w : World) : OpData Us × World → Type 0 where
    started : Lived w (start_entrypoint G O home self w)
    heard :
        {d : OpData Us} {w' : World}
        → Lived w (d, w')
        → (msg : Message) → Lived w (behind (message_entrypoint G O home self msg d w'))
    typed :
        {d : OpData Us} {w' : World}
        → Lived w (d, w')
        → (chat : Chat) → Lived w (behind (chat_entrypoint G O home self chat d w'))
    commanded :
        {d : OpData Us} {w' : World}
        → Lived w (d, w')
        → (cmd : Command) → Lived w (command_entrypoint G O home self cmd d w')
    timed :
        {d : OpData Us} {w' : World}
        → Lived w (d, w')
        → Lived w (timer_entrypoint G O home self d w')
    passed :
        {d : OpData Us} {w' w'' : World}
        → Lived w (d, w')
        → sent G O home self B w'' ≡ sent G O home self B w'
        → Lived w (d, w'')

  read_state-sent :
      (read : Bytes → Us → World → Us × World) (what : Bytes) (s : OpData Us × World)
      → ((path : Bytes) (us : Us) (w : World)
          → sent G O home self B (read path us w).1 ≡ sent G O home self B w)
      → sent G O home self B (read_state G O home self read what s).1 ≡ sent G O home self B s.1
  read_state-sent read what (d, w) quiet =
      if_path-elim (λ (r : OpData Us × World). sent G O home self B r.1 ≡ sent G O home self B w)
        (state_path home what) refl (λ path. quiet path d.us w)

  start_entrypoint-Sends :
      (w : World) → Sends G O home self B w (start_entrypoint G O home self w).1
  unfolding start_entrypoint
  start_entrypoint-Sends w =
      let keys : OpData Us × World =
        read_state G O home self O.otrl_privkey_read (codes "keys") (new_op_data G O, w) in
      let fingerprints : OpData Us × World =
        read_state G O home self O.otrl_privkey_read_fingerprints (codes "fingerprints") keys in
      unseen G O home self B w (
        read_state-sent O.otrl_instag_read (codes "instags") fingerprints sent-instag_read
        ∙ read_state-sent O.otrl_privkey_read_fingerprints (codes "fingerprints") keys
            sent-read_fingerprints
        ∙ read_state-sent O.otrl_privkey_read (codes "keys") (new_op_data G O, w) sent-privkey_read)

  -- Whatever happens from the start of the extension on, and whatever libotr asks for meanwhile, the
  -- extension sends messages of one kind only: a PRIVMSG to one recipient, with a text that is not
  -- empty and is the readable query or no query of libotr's.
  pub Lived-Sends : (w : World) (s : OpData Us × World) → Lived w s → Sends G O home self B w s.1
  Lived-Sends w s started = start_entrypoint-Sends w
  Lived-Sends w s (heard life msg) =
      Grown-trans G O home self B (Lived-Sends w _ life)
        (message_entrypoint-After G O home self B msg _ _)
  Lived-Sends w s (typed life chat) =
      Grown-trans G O home self B (Lived-Sends w _ life)
        (chat_entrypoint-After G O home self B chat _ _)
  Lived-Sends w s (commanded life cmd) =
      Grown-trans G O home self B (Lived-Sends w _ life)
        (command_entrypoint-Sends G O home self B cmd _ _)
  Lived-Sends w s (timed life) =
      Grown-trans G O home self B (Lived-Sends w _ life)
        (timer_entrypoint-After G O home self B _ _)
  Lived-Sends w s (passed life same) =
      Grown-trans G O home self B (Lived-Sends w _ life) (unseen G O home self B _ same)
