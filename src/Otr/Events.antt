-- ===== src/Otr/Events.antt =====
-- otr-extension/glirc-otr.cpp: the entry points for the start, for timers, and for messages.
use irc_core.Base.{
  ℕ, Bool, true, false, ◌||◌, ◌&&◌, not, Option, List, [], ◌∷◌, ◌++◌, length, Bytes, codes,
  c_string, bytes_eq, ltb, if◌then◌else◌,
}
use irc_core.Client.{Client, ProcessResult, pass_message, drop_message, Message, Chat}
use irc_core.Otr.Case.{normalize_case}
use irc_core.Otr.Libotr.{Libotr, MessageType, nototr, tagged_plaintext}
use irc_core.Otr.Files.{destroy, privkey_read, privkey_read_fingerprints, instag_read}
use irc_core.Otr.Session.{
  OpData, new_op_data, is_empty, is_channel, my_nick, timer_finished, schedule_timer,
}
use irc_core.Otr.Texts.{plugin_user}
use irc_core.Otr.Callbacks.{state_path, if_path}
use irc_core.Otr.Methods.{message_sending, message_receiving, message_poll}

-- "nick!user@host"; the texts are printed as C strings.
abbrev behind : Bytes → Bytes → Bytes
behind mark text = if ltb 0 (length text) then mark ++ c_string text else []

pub rebuild_userinfo : Message → Bytes
rebuild_userinfo msg =
    c_string msg.prefix_nick
    ++ behind (codes "!") msg.prefix_user
    ++ behind (codes "@") msg.prefix_host

abbrev pub has_batch : List (Bytes × Bytes) → Bool
has_batch [] = false
has_batch ((key, value) ∷ tags) = if bytes_eq (codes "batch") key then true else has_batch tags

unfoldable pub in_batch : Message → Bool
in_batch msg = has_batch msg.tags

-- In a batch: encrypted messages and the messages of the protocol are dropped.
abbrev pub batch_result : MessageType → ProcessResult
batch_result nototr = pass_message
batch_result tagged_plaintext = pass_message
batch_result t = drop_message

-- `!internal && has_newmsg`
abbrev shows : Bool × Bool × Bytes → Bool
shows (internal, has_newmsg, text) = not internal && has_newmsg

abbrev pub drops : Bool → ProcessResult
drops b = if b then drop_message else pass_message

module _ (G : Client) (O : Libotr G.World) (home : Option Bytes) (self : ℕ) where
  open G use {World, glirc_inject_chat}
  open O use {Us, otrl_proto_message_type}

  -- A file of the extension is read, if there is a home directory.
  abbrev pub read_state :
      (Bytes → Us → World → Us × World) → Bytes → OpData Us × World → OpData Us × World
  read_state read what (d, w) =
      if_path (state_path home what) (d, w)
        (λ path. let (us, w') = read path d.us w in (record d { us = us }, w'))

  unfoldable pub start_entrypoint : World → OpData Us × World
  start_entrypoint w = read_state (instag_read O) (codes "instags") (
      read_state (privkey_read_fingerprints O) (codes "fingerprints")
        (read_state (privkey_read O) (codes "keys") (new_op_data G O, w)))

  -- `delete opdata`
  unfoldable pub stop_entrypoint : OpData Us → World → World
  stop_entrypoint d w = destroy O d.us w

  unfoldable pub timer_entrypoint : OpData Us → World → OpData Us × World
  timer_entrypoint d w =
      let (done, d', w') = message_poll G O home self (timer_finished G O self d) w in
      schedule_timer G O self d' w'

  abbrev pub show_new : Message → Bool × Bool × Bytes → World → World
  show_new msg (internal, has_newmsg, text) w =
      if not internal && has_newmsg
      then (glirc_inject_chat msg.network (rebuild_userinfo msg) msg.prefix_nick text w).1
      else w

  abbrev pub finish_receiving :
      Message → (Bool × Bool × Bytes) × OpData Us × World → ProcessResult × OpData Us × World
  finish_receiving msg ((internal, has_newmsg, text), d, w) =
      (drops (internal || has_newmsg), d, show_new msg (internal, has_newmsg, text) w)

  -- A private message outside of a batch.
  abbrev pub receive :
      Message → Bytes → Bytes → OpData Us → Bool × World → ProcessResult × OpData Us × World
  receive msg target message d (channel, w) =
      if channel
      then (pass_message, d, w)
      else finish_receiving msg (
          message_receiving G O home self (normalize_case target) msg.network
            (normalize_case msg.prefix_nick) message d w)

  abbrev pub two_params :
      Message → Bytes → Bytes → OpData Us → World → ProcessResult × OpData Us × World
  two_params msg target message d w =
      if in_batch msg
      then (batch_result (otrl_proto_message_type (c_string message)), d, w)
      else receive msg target message d (is_channel G msg.network target w)

  abbrev pub with_params :
      Message → List Bytes → OpData Us → World → ProcessResult × OpData Us × World
  with_params msg (target ∷ message ∷ []) d w = two_params msg target message d w
  with_params msg params d w = (pass_message, d, w)

  unfoldable pub process_privmsg : Message → OpData Us → World → ProcessResult × OpData Us × World
  unfolding rebuild_userinfo in_batch
  process_privmsg msg d w = with_params msg msg.params d w

  unfoldable pub message_entrypoint :
      Message → OpData Us → World → ProcessResult × OpData Us × World
  unfolding process_privmsg
  message_entrypoint msg d w =
      if bytes_eq msg.command (codes "PRIVMSG")
      then process_privmsg msg d w
      else (pass_message, d, w)

  abbrev pub panic : Bytes → Bytes → Bool → World → World
  panic network target err w =
      if err
      then (glirc_inject_chat (c_string network) plugin_user (c_string target)
          (codes "PANIC: OTR encryption error") w).1
      else w

  abbrev pub finish_sending :
      Bytes → Bytes → (Bool × Bool) × OpData Us × World → ProcessResult × OpData Us × World
  finish_sending network target ((err, has_newmsg), d, w) =
      (drops (err || has_newmsg), d, panic network target err w)

  abbrev pub send_as : Chat → OpData Us → Bytes × World → ProcessResult × OpData Us × World
  send_as chat d (me, w) =
      let target = normalize_case chat.target in
      if is_empty me
      then (drop_message, d, w)
      else finish_sending chat.network target
          (message_sending G O home self (normalize_case me) chat.network target chat.message d w)

  abbrev pub chat_to : Chat → OpData Us → Bool × World → ProcessResult × OpData Us × World
  chat_to chat d (channel, w) =
      if channel then (pass_message, d, w) else send_as chat d (my_nick G chat.network w)

  unfoldable pub chat_entrypoint : Chat → OpData Us → World → ProcessResult × OpData Us × World
  chat_entrypoint chat d w = chat_to chat d (is_channel G chat.network chat.target w)
