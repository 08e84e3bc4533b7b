-- ===== src/Otr/Callbacks.antt =====
-- otr-extension/glirc-otr.cpp: the operations `ops` with which libotr calls the extension back, and the
-- way a call of libotr runs.
use irc_core.Base.{ℕ, Bool, Option, none, some, [], ◌∷◌, ◌++◌, Bytes, codes, if◌then◌else◌}
use irc_core.Client.{Client, outgoing}
use irc_core.Otr.Libotr.{
  Libotr, Op, op_ask_policy, op_inject_message, op_max_message_size, op_handle_msg_event,
  op_is_logged_in, op_timer_control, op_gone_secure, op_still_secure, op_handle_smp_event,
  op_write_fingerprints, op_new_fingerprint, op_create_privkey, op_create_instag, Answer, nothing,
  number, minus_one, Run, done, call, MessageType, query, SmpEvent, MsgEvent,
}
use irc_core.Otr.Policy.{op_policy}
use irc_core.Otr.Files.{privkey_write_fingerprints, privkey_generate, instag_generate}
use irc_core.Otr.Session.{OpData, is_empty, timer_control}
use irc_core.Otr.Texts.{
  plugin_user, query_text, bold, bracketed, smp_text, asks_secret, smp_line, reply_hint, msg_text,
  msg_line, secured_line, refreshed_line,
}

-- A pessimistic size.
abbrev max_message_size : ℕ
max_message_size = 400

-- The default query is replaced.
abbrev pub readable : MessageType → Bytes → Bytes
readable query message = query_text
readable t message = message

-- `if (path) ...`
abbrev pub if_path : {A : Type 0} → Option Bytes → A → (Bytes → A) → A
if_path none a f = a
if_path (some path) a f = f path

pub if_path-elim :
    {A : Type 0} (P : A → Type 0) (o : Option Bytes) {a : A} {f : Bytes → A}
    → P a
    → ((path : Bytes) → P (f path))
    → P (if_path o a f)
if_path-elim P none h hs = h
if_path-elim P (some path) h hs = hs path

-- `home` is the environment variable HOME.
module _ (home : Option Bytes) where
  unfoldable pub state_path : Bytes → Option Bytes
  state_path what = elim home [
    | none ↦ none
    | some h ↦ some (h ++ codes "/.config/glirc/otr-" ++ what ++ codes ".txt")
  ]

module _ (G : Client) (O : Libotr G.World) (home : Option Bytes) (self : ℕ) where
  open G use {World, glirc_inject_chat, glirc_send_message, glirc_is_logged_on}
  open O use {
    Us, context, otrl_context_is_fingerprint_trusted, otrl_privkey_hash_to_human,
    otrl_proto_message_type,
  }

  -- Into the window of the conversation, under the name of the extension.
  unfoldable pub print_status : Us → ℕ → Bytes → World → World
  print_status us c text w =
      let ctx = context us c in (glirc_inject_chat ctx.protocol plugin_user ctx.username text w).1

  unfoldable pub smp_lines : Us → SmpEvent → ℕ → Option Bytes → Option Bytes → World → World
  unfolding print_status
  smp_lines us event c question none w = w
  smp_lines us event c question (some message) w =
      let w' = print_status us c (smp_line message question) w in
      if asks_secret event then print_status us c reply_hint w' else w'

  unfoldable pub handle_smp_event : Us → SmpEvent → ℕ → Option Bytes → World → World
  unfolding smp_lines smp_text
  handle_smp_event us event c question w = smp_lines us event c question (smp_text event) w

  unfoldable pub msg_lines : Us → ℕ → Option Bytes → Option Bytes → World → World
  unfolding print_status
  msg_lines us c message none w = w
  msg_lines us c message (some desc) w = print_status us c (msg_line desc message) w

  unfoldable pub handle_msg_event : Us → MsgEvent → ℕ → Option Bytes → World → World
  unfolding msg_lines msg_text
  handle_msg_event us event c message w = msg_lines us c message (msg_text event) w

  -- An empty message is not sent.
  abbrev pub send_text : Bytes → Bytes → Bytes → World → World
  send_text protocol recipient message w =
      if is_empty message
      then w
      else (glirc_send_message (outgoing protocol (codes "PRIVMSG") (recipient ∷ message ∷ [])) w).1

  unfoldable pub inject_message : Bytes → Bytes → Bytes → World → World
  inject_message protocol recipient message w =
      send_text protocol recipient (readable (otrl_proto_message_type message) message) w

  -- A user who is not seen may be there all the same.
  unfoldable pub is_logged_in : Bytes → Bytes → World → Answer × World
  is_logged_in protocol recipient w =
      let (seen, w') = glirc_is_logged_on protocol recipient w in
      (if seen then number 1 else minus_one, w')

  abbrev trusted : Us → ℕ → Bool
  trusted us c = otrl_context_is_fingerprint_trusted us (context us c).active_fingerprint

  unfoldable pub gone_secure : Us → ℕ → World → World
  unfolding print_status
  gone_secure us c w = print_status us c (secured_line (trusted us c)) w

  unfoldable pub still_secure : Us → ℕ → Bool → World → World
  unfolding print_status
  still_secure us c is_reply w = print_status us c (refreshed_line is_reply (trusted us c)) w

  unfoldable pub new_fingerprint : Bytes → Bytes → Bytes → World → World
  new_fingerprint net tgt fp w =
      (glirc_inject_chat net plugin_user tgt
        (codes "New fingerprint: " ++ bracketed (bold (otrl_privkey_hash_to_human fp))) w).1

  unfoldable pub write_fingerprints : Us → World → World
  write_fingerprints us w =
      if_path (state_path home (codes "fingerprints")) w
        (λ path. privkey_write_fingerprints O path us w)

  unfoldable pub create_privkey : Bytes → Bytes → Us → World → Us × World
  create_privkey accountname protocol us w =
      if_path (state_path home (codes "keys")) (us, w)
        (λ path. privkey_generate O path accountname protocol us w)

  unfoldable pub create_instag : Bytes → Bytes → Us → World → Us × World
  create_instag accountname protocol us w =
      if_path (state_path home (codes "instags")) (us, w)
        (λ path. instag_generate O path accountname protocol us w)

  abbrev with_us : OpData Us → Us × World → Answer × OpData Us × World
  with_us d (us, w) = (nothing, record d { us = us }, w)

  abbrev quietly : OpData Us → World → Answer × OpData Us × World
  quietly d w = (nothing, d, w)

  abbrev answering : OpData Us → Answer × World → Answer × OpData Us × World
  answering d (answer, w) = (answer, d, w)

  abbrev controlled : OpData Us × World → Answer × OpData Us × World
  controlled (d, w) = (nothing, d, w)

  -- `OtrlMessageAppOps ops`
  unfoldable pub handle : Op → OpData Us → World → Answer × OpData Us × World
  unfolding handle_smp_event handle_msg_event inject_message is_logged_in gone_secure still_secure
      new_fingerprint write_fingerprints create_privkey create_instag
  handle (op_inject_message accountname protocol recipient message) d w =
      quietly d (inject_message protocol recipient message w)
  handle op_ask_policy d w = (number (op_policy O), d, w)
  handle (op_max_message_size c) d w = (number max_message_size, d, w)
  handle (op_handle_msg_event event c message) d w =
      quietly d (handle_msg_event d.us event c message w)
  handle (op_is_logged_in accountname protocol recipient) d w =
      answering d (is_logged_in protocol recipient w)
  handle (op_timer_control interval) d w = controlled (timer_control G O self interval d w)
  handle (op_gone_secure c) d w = quietly d (gone_secure d.us c w)
  handle (op_still_secure c is_reply) d w = quietly d (still_secure d.us c is_reply w)
  handle (op_handle_smp_event event c question) d w =
      quietly d (handle_smp_event d.us event c question w)
  handle op_write_fingerprints d w = quietly d (write_fingerprints d.us w)
  handle (op_new_fingerprint accountname net tgt fp) d w = quietly d (new_fingerprint net tgt fp w)
  handle (op_create_privkey accountname protocol) d w =
      with_us d (create_privkey accountname protocol d.us w)
  handle (op_create_instag accountname protocol) d w =
      with_us d (create_instag accountname protocol d.us w)

  -- libotr runs on its state until it is done.
  unfoldable pub run : {A : Type 0} → Run Us A → OpData Us → World → A × OpData Us × World
  unfolding handle
  run (done a us) d w = (a, record d { us = us }, w)
  run (call op us k) d w =
      let (answer, d', w') = handle op (record d { us = us }) w in run (k answer d'.us) d' w'
