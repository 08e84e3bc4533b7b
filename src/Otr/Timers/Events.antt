-- ===== src/Otr/Timers/Events.antt =====
-- The timer of otr-extension/glirc-otr.cpp behind its entry points for messages and timers.
use irc_core.Base.{
  ℕ, ◌≡◌, refl, ◌∙◌, sym, subst, Bool, Option, none, some, List, [], ◌∷◌, Bytes, codes, if-elim,
  bytes_eq,
}
use irc_core.Client.{Client, Message, Chat}
use irc_core.Otr.Case.{normalize_case}
use irc_core.Otr.Libotr.{Libotr, Run}
use irc_core.Otr.Session.{OpData, nick_text, my_nick, timer_finished, new_op_data, is_empty}
use irc_core.Otr.Callbacks.{run, if_path-elim, state_path}
use irc_core.Otr.Methods.{message_sending, message_receiving, message_poll}
use irc_core.Otr.Events.{
  read_state, start_entrypoint, timer_entrypoint, finish_receiving, receive, with_params,
  process_privmsg, message_entrypoint, finish_sending, send_as, chat_to, chat_entrypoint, in_batch,
}
use irc_core.Otr.Wishes.{Honest, Heard, run-Heard, schedule_timer-Told}
use irc_core.Otr.Timers.{Timers, One, Armed, run-Keeps, schedule_timer-One}

module _ (G : Client) (O : Libotr G.World) (home : Option Bytes) (self : ℕ)
    (T : Timers G O self) where
  open G use {World}
  open O use {Us}
  open T use {
    wishes, pending, pending-inject_chat, pending-is_channel, pending-my_nick, pending-free_string,
    pending-privkey_read, pending-instag_read, pending-read_fingerprints,
  }
  open wishes use {
    wish, wish-create, wish-privkey_read, wish-instag_read, wish-read_fingerprints, honest-sending,
    honest-receiving, honest-poll,
  }

  -- The client has the one timer that the extension has, the extension has one as long as it is to
  -- poll, and it is to poll as libotr wishes.
  abbrev pub Fine : OpData Us × World → Type 0
  Fine (d, w) = One (pending w) d × Armed d × Heard G O home self wishes d

  abbrev pub FineAfter : {A : Type 0} → A × OpData Us × World → Type 0
  FineAfter (a, d, w) = Fine (d, w)

  pub run-Fine :
      {A : Type 0} (r : Run Us A) (d : OpData Us) (w : World)
      → Honest wish (wish d.us) r
      → Fine (d, w)
      → FineAfter (run G O home self r d w)
  run-Fine r d w honest (one, armed, heard) =
      let (one', armed') = run-Keeps G O home self T r d w one in
      let asked = subst (λ (n : ℕ). Honest wish n r) (sym heard) honest in
      (one', armed' armed, run-Heard G O home self wishes r d w asked)

  -- The world changes, and its timers do not.
  pub Fine-world :
      (d : OpData Us) {w w' : World} → pending w' ≡ pending w → Fine (d, w) → Fine (d, w')
  Fine-world d e (one, armed, heard) = (e ∙ one, armed, heard)

  nick_text-pending : (me : Option Bytes) (w : World) → pending (nick_text G me w).1 ≡ pending w
  unfolding nick_text
  nick_text-pending none w = refl
  nick_text-pending (some me) w = pending-free_string (some me) w

  pub my_nick-pending : (net : Bytes) (w : World) → pending (my_nick G net w).1 ≡ pending w
  unfolding my_nick
  my_nick-pending net w = nick_text-pending _ _ ∙ pending-my_nick net w

  finish_receiving-Fine :
      (msg : Message) (r : (Bool × Bool × Bytes) × OpData Us × World)
      → FineAfter r
      → FineAfter (finish_receiving G O home self msg r)
  finish_receiving-Fine msg ((internal, has, text), d, w) fine =
      if-elim (λ (w' : World). Fine (d, w')) _ (Fine-world d (pending-inject_chat _ _ _ _ w) fine)
        fine

  message_receiving-Fine :
      (accountname protocol username message : Bytes) (d : OpData Us) (w : World)
      → Fine (d, w)
      → FineAfter (message_receiving G O home self accountname protocol username message d w)
  unfolding message_receiving
  message_receiving-Fine accountname protocol username message d w fine =
      run-Fine _ d w (honest-receiving _ _ _ _ d.us) fine

  receive-Fine :
      (msg : Message) (target message : Bytes) (d : OpData Us) (c : Bool × World)
      → Fine (d, c.1)
      → FineAfter (receive G O home self msg target message d c)
  receive-Fine msg target message d (channel, w) fine =
      let me = normalize_case target in
      let sender = normalize_case msg.prefix_nick in
      if-elim FineAfter channel fine (
        finish_receiving-Fine msg
          (message_receiving G O home self me msg.network sender message d w)
          (message_receiving-Fine me msg.network sender message d w fine))

  with_params-Fine :
      (msg : Message) (params : List Bytes) (d : OpData Us) (w : World)
      → Fine (d, w)
      → FineAfter (with_params G O home self msg params d w)
  with_params-Fine msg [] d w fine = fine
  with_params-Fine msg (target ∷ []) d w fine = fine
  with_params-Fine msg (target ∷ message ∷ []) d w fine = if-elim FineAfter (in_batch msg) fine (
      receive-Fine msg target message d _
        (Fine-world d (pending-is_channel msg.network target w) fine))
  with_params-Fine msg (target ∷ message ∷ p ∷ ps) d w fine = fine

  pub message_entrypoint-Fine :
      (msg : Message) (d : OpData Us) (w : World)
      → Fine (d, w)
      → FineAfter (message_entrypoint G O home self msg d w)
  unfolding message_entrypoint process_privmsg
  message_entrypoint-Fine msg d w fine =
      if-elim FineAfter (bytes_eq msg.command (codes "PRIVMSG"))
        (with_params-Fine msg msg.params d w fine) fine

  finish_sending-Fine :
      (network target : Bytes) (r : (Bool × Bool) × OpData Us × World)
      → FineAfter r
      → FineAfter (finish_sending G O home self network target r)
  finish_sending-Fine network target ((err, has), d, w) fine =
      if-elim (λ (w' : World). Fine (d, w')) err (Fine-world d (pending-inject_chat _ _ _ _ w) fine)
        fine

  message_sending-Fine :
      (accountname protocol username message : Bytes) (d : OpData Us) (w : World)
      → Fine (d, w)
      → FineAfter (message_sending G O home self accountname protocol username message d w)
  unfolding message_sending
  message_sending-Fine accountname protocol username message d w fine =
      run-Fine _ d w (honest-sending _ _ _ _ d.us) fine

  send_as-Fine :
      (chat : Chat) (d : OpData Us) (me : Bytes × World)
      → Fine (d, me.1)
      → FineAfter (send_as G O home self chat d me)
  send_as-Fine chat d (me, w) fine =
      let account = normalize_case me in
      let target = normalize_case chat.target in
      if-elim FineAfter (is_empty me) fine (
        finish_sending-Fine chat.network target
          (message_sending G O home self account chat.network target chat.message d w)
          (message_sending-Fine account chat.network target chat.message d w fine))

  chat_to-Fine :
      (chat : Chat) (d : OpData Us) (c : Bool × World)
      → Fine (d, c.1)
      → FineAfter (chat_to G O home self chat d c)
  chat_to-Fine chat d (channel, w) fine =
      if-elim FineAfter channel fine
        (send_as-Fine chat d _ (Fine-world d (my_nick-pending chat.network w) fine))

  pub chat_entrypoint-Fine :
      (chat : Chat) (d : OpData Us) (w : World)
      → Fine (d, w)
      → FineAfter (chat_entrypoint G O home self chat d w)
  unfolding chat_entrypoint
  chat_entrypoint-Fine chat d w fine =
      chat_to-Fine chat d _ (Fine-world d (pending-is_channel chat.network chat.target w) fine)

  -- A timer that has fired, so that the client has none.
  pub timer_entrypoint-Fine :
      (d : OpData Us) (w : World)
      → pending w ≡ []
      → Heard G O home self wishes d
      → Fine (timer_entrypoint G O home self d w)
  unfolding timer_entrypoint message_poll timer_finished
  timer_entrypoint-Fine d w fired heard =
      let poll = O.otrl_message_poll d.us in
      let idle = timer_finished G O self d in
      let (one, armed) = run-Keeps G O home self T poll idle w fired in
      let asked = subst (λ (n : ℕ). Honest wish n poll) (sym heard) (honest-poll d.us) in
      let polled = run-Heard G O home self wishes poll idle w asked in
      let (done, d', w') = run G O home self poll idle w in
      let (one', armed') = schedule_timer-One G O home self T _ d' w' one in
      let (interval, kept) = schedule_timer-Told G O home self wishes d' w' in
      (one', armed', interval ∙ polled ∙ sym kept)

  read_state-Fine :
      (read : Bytes → Us → World → Us × World) (what : Bytes) (dw : OpData Us × World)
      → ((path : Bytes) (us : Us) (w : World) → pending (read path us w).1 ≡ pending w)
      → ((path : Bytes) (us : Us) (w : World) → wish (read path us w).0 ≡ wish us)
      → Fine dw
      → Fine (read_state G O home self read what dw)
  read_state-Fine read what (d, w) quiet same (one, armed, heard) =
      if_path-elim Fine (state_path home what) (one, armed, heard)
        (λ path. (quiet path d.us w ∙ one, armed, heard ∙ sym (same path d.us w)))

  pub start_entrypoint-Fine : (w : World) → pending w ≡ [] → Fine (start_entrypoint G O home self w)
  unfolding start_entrypoint new_op_data
  start_entrypoint-Fine w none_yet =
      let keys : OpData Us × World =
        read_state G O home self O.otrl_privkey_read (codes "keys") (new_op_data G O, w) in
      let fingerprints : OpData Us × World =
        read_state G O home self O.otrl_privkey_read_fingerprints (codes "fingerprints") keys in
      let keys-Fine : Fine keys =
        read_state-Fine O.otrl_privkey_read (codes "keys") (new_op_data G O, w) pending-privkey_read
          wish-privkey_read (none_yet, refl, sym wish-create) in
      let fingerprints-Fine : Fine fingerprints =
        read_state-Fine O.otrl_privkey_read_fingerprints (codes "fingerprints") keys
          pending-read_fingerprints wish-read_fingerprints keys-Fine in
      read_state-Fine O.otrl_instag_read (codes "instags") fingerprints pending-instag_read
        wish-instag_read fingerprints-Fine
