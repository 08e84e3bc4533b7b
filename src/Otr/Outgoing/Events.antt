-- ===== src/Otr/Outgoing/Events.antt =====
-- What the entry points of otr-extension/glirc-otr.cpp for messages, chats and timers send to the server.
use irc_core.Base.{
  ℕ, if-elim, Bool, true, false, Option, none, some, List, [], ◌∷◌, Bytes, codes, bytes_eq, not,
  ◌&&◌,
}
use irc_core.Client.{Client, Message, Chat}
use irc_core.Otr.Case.{normalize_case}
use irc_core.Otr.Libotr.{Libotr}
use irc_core.Otr.Session.{OpData, is_channel, my_nick, nick_text, timer_finished}
use irc_core.Otr.Methods.{message_sending, message_receiving, message_poll}
use irc_core.Otr.Events.{
  in_batch, receive, with_params, finish_receiving, process_privmsg, message_entrypoint,
  finish_sending, send_as, chat_to, chat_entrypoint, timer_entrypoint,
}
use irc_core.Otr.Outgoing.{Outbox, sent, Grown, Grown-trans, unseen, schedule_timer-sent, run-Grown}

module _ (G : Client) (O : Libotr G.World) (home : Option Bytes) (self : ℕ)
    (B : Outbox G O self) where
  open G use {World, glirc_my_nick}
  open O use {Us}
  open B use {observer, sent-is_channel, sent-my_nick, sent-free_string}

  -- From `w` on, only proper messages have been sent.
  abbrev pub After : {A : Type 0} → World → A × OpData Us × World → Type 0
  After w (a, d, w') = Grown G O home self B (sent G O home self B w) (sent G O home self B w')

  abbrev pub Sends : World → World → Type 0
  Sends w w' = Grown G O home self B (sent G O home self B w) (sent G O home self B w')

  nick_text-Sends : (me : Option Bytes) (w : World) → Sends w (nick_text G me w).1
  unfolding nick_text
  nick_text-Sends none w = Grown.same
  nick_text-Sends (some me) w = unseen G O home self B w (sent-free_string (some me) w)

  pub my_nick-Sends : (net : Bytes) (w : World) → Sends w (my_nick G net w).1
  unfolding my_nick
  my_nick-Sends net w =
      let (me, w') = glirc_my_nick net w in
      Grown-trans G O home self B (unseen G O home self B w (sent-my_nick net w))
        (nick_text-Sends me w')

  finish_sending-After :
      (w : World) (network target : Bytes) (r : (Bool × Bool) × OpData Us × World)
      → After w r
      → After w (finish_sending G O home self network target r)
  finish_sending-After w network target ((err, has), d, w') g =
      if-elim (λ (w'' : World). Sends w w'') err
        (Grown-trans G O home self B g
          (unseen G O home self B w' (observer.see-inject_chat _ _ _ _ w')))
        g

  message_sending-After :
      (accountname protocol username message : Bytes) (d : OpData Us) (w : World)
      → After w (message_sending G O home self accountname protocol username message d w)
  unfolding message_sending
  message_sending-After accountname protocol username message d w = run-Grown G O home self B _ d w

  message_receiving-After :
      (accountname protocol username message : Bytes) (d : OpData Us) (w : World)
      → After w (message_receiving G O home self accountname protocol username message d w)
  unfolding message_receiving
  message_receiving-After accountname protocol username message d w =
      run-Grown G O home self B _ d w

  send_as-After :
      (chat : Chat) (d : OpData Us) (me : Bytes) (w : World)
      → After w (send_as G O home self chat d (me, w))
  send_as-After chat d [] w = Grown.same
  send_as-After chat d (c ∷ cs) w =
      let me = normalize_case (c ∷ cs) in
      let target = normalize_case chat.target in
      finish_sending-After w chat.network target
        (message_sending G O home self me chat.network target chat.message d w)
        (message_sending-After me chat.network target chat.message d w)

  chat_to-After :
      (chat : Chat) (d : OpData Us) (channel : Bool) (w : World)
      → After w (chat_to G O home self chat d (channel, w))
  chat_to-After chat d true w = Grown.same
  chat_to-After chat d false w =
      let (me, w') = my_nick G chat.network w in
      Grown-trans G O home self B (my_nick-Sends chat.network w) (send_as-After chat d me w')

  pub chat_entrypoint-After :
      (chat : Chat) (d : OpData Us) (w : World) → After w (chat_entrypoint G O home self chat d w)
  unfolding chat_entrypoint
  chat_entrypoint-After chat d w =
      let (channel, w') = is_channel G chat.network chat.target w in
      Grown-trans G O home self B
        (unseen G O home self B w (sent-is_channel chat.network chat.target w))
        (chat_to-After chat d channel w')

  finish_receiving-After :
      (msg : Message) (w : World) (r : (Bool × Bool × Bytes) × OpData Us × World)
      → After w r
      → After w (finish_receiving G O home self msg r)
  finish_receiving-After msg w ((kept, has, text), d, w') g =
      if-elim (λ (w'' : World). Sends w w'') (not kept && has)
        (Grown-trans G O home self B g
          (unseen G O home self B w' (observer.see-inject_chat _ _ _ _ w')))
        g

  receive-After :
      (msg : Message) (target message : Bytes) (d : OpData Us) (channel : Bool) (w : World)
      → After w (receive G O home self msg target message d (channel, w))
  receive-After msg target message d true w = Grown.same
  receive-After msg target message d false w =
      let me = normalize_case target in
      let sender = normalize_case msg.prefix_nick in
      finish_receiving-After msg w
        (message_receiving G O home self me msg.network sender message d w)
        (message_receiving-After me msg.network sender message d w)

  with_params-After :
      (msg : Message) (params : List Bytes) (d : OpData Us) (w : World)
      → After w (with_params G O home self msg params d w)
  with_params-After msg [] d w = Grown.same
  with_params-After msg (target ∷ []) d w = Grown.same
  with_params-After msg (a ∷ b ∷ c ∷ params) d w = Grown.same
  with_params-After msg (target ∷ message ∷ []) d w =
      let (channel, w') = is_channel G msg.network target w in
      if-elim (After w) (in_batch msg) Grown.same (
        Grown-trans G O home self B
          (unseen G O home self B w (sent-is_channel msg.network target w))
          (receive-After msg target message d channel w'))

  pub message_entrypoint-After :
      (msg : Message) (d : OpData Us) (w : World)
      → After w (message_entrypoint G O home self msg d w)
  unfolding message_entrypoint process_privmsg
  message_entrypoint-After msg d w =
      if-elim (After w) (bytes_eq msg.command (codes "PRIVMSG"))
        (with_params-After msg msg.params d w) Grown.same

  pub timer_entrypoint-After :
      (d : OpData Us) (w : World) → Sends w (timer_entrypoint G O home self d w).1
  unfolding timer_entrypoint message_poll
  timer_entrypoint-After d w =
      let (result, d', w') = message_poll G O home self (timer_finished G O self d) w in
      Grown-trans G O home self B (run-Grown G O home self B _ (timer_finished G O self d) w)
        (unseen G O home self B w' (schedule_timer-sent G O home self B d' w'))

  -- Whatever libotr asks for meanwhile, a chat, a message and a timer make the extension send messages
  -- of one kind only: a PRIVMSG to one recipient, with a text that is not empty and is the readable
  -- query or no query of libotr's.
  entrypoints-After :
      (chat : Chat) (msg : Message) (d : OpData Us) (w : World)
      → After w (chat_entrypoint G O home self chat d w)
        × After w (message_entrypoint G O home self msg d w)
        × Sends w (timer_entrypoint G O home self d w).1
  entrypoints-After chat msg d w =
      (chat_entrypoint-After chat d w, message_entrypoint-After msg d w, timer_entrypoint-After d w)
