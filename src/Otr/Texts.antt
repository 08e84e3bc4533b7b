-- ===== src/Otr/Texts.antt =====
-- The texts that otr-extension/glirc-otr.cpp prints: the formats of its messages, with IRC's escape
-- sequences, and the numbers in them.
use irc_core.Base.{
  ℕ, zero, suc, ◌+◌, ◌-◌, ◌/◌, ◌%◌, Bool, true, false, Option, none, some, [], ◌∷◌, ◌++◌, Bytes,
  codes, ltb, if◌then◌else◌,
}
use irc_core.Otr.Libotr.{
  SmpEvent, smp_none, smp_error, smp_abort, smp_cheated, smp_ask_for_answer, smp_ask_for_secret,
  smp_in_progress, smp_success, smp_failure, smp_other, MsgEvent, msg_none, msg_encryption_required,
  msg_encryption_error, msg_connection_ended, msg_setup_error, msg_reflected, msg_resent,
  msg_not_in_private, msg_unreadable, msg_malformed, msg_heartbeat_rcvd, msg_heartbeat_sent,
  msg_general_err, msg_unencrypted, msg_unrecognized, msg_other_instance, MsgState, plaintext,
  encrypted, finished,
}

-- "* OTR *"
abbrev pub plugin_user : Bytes
plugin_user = codes "* OTR *"

abbrev pub query_text : Bytes
query_text =
    codes "?OTRv23? This message is attempting to initiate an encrypted"
    ++ codes " session, but your client doesn't support this protocol."

abbrev pub bold : Bytes → Bytes
bold text = 2 ∷ text ++ 2 ∷ []

abbrev pub green : Bytes → Bytes
green text = 3 ∷ codes "03" ++ text ++ 15 ∷ []

abbrev pub red : Bytes → Bytes
red text = 3 ∷ codes "04" ++ text ++ 15 ∷ []

-- "[...]"
abbrev pub bracketed : Bytes → Bytes
bracketed text = codes "[" ++ text ++ codes "]"

-- The array `messages` of `handle_smp_event`; there is none for a number from 9 on.
unfoldable pub smp_text : SmpEvent → Option Bytes
smp_text smp_none = some (bold (codes "none"))
smp_text smp_error = some (red (codes "error"))
smp_text smp_abort = some (red (codes "abort"))
smp_text smp_cheated = some (red (codes "cheated"))
smp_text smp_ask_for_answer = some (bold (codes "question"))
smp_text smp_ask_for_secret = some (bold (codes "secret?"))
smp_text smp_in_progress = some (bold (codes "in progress"))
smp_text smp_success = some (green (codes "success"))
smp_text smp_failure = some (red (codes "failure"))
smp_text (smp_other n) = none

unfoldable pub asks_secret : SmpEvent → Bool
asks_secret smp_ask_for_answer = true
asks_secret smp_ask_for_secret = true
asks_secret event = false

unfoldable pub smp_line : Bytes → Option Bytes → Bytes
smp_line message none = codes "Peer verification " ++ bracketed message
smp_line message (some question) =
    codes "Peer verification " ++ bracketed message ++ codes " " ++ bracketed question

abbrev pub reply_hint : Bytes
reply_hint = codes "Reply with: /extension OTR secret <answer>"

-- The array `messages` of `handle_msg_event`.
unfoldable pub msg_text : MsgEvent → Option Bytes
msg_text msg_none = some (codes "None")
msg_text msg_encryption_required = some (codes "Encryption required, message not sent")
msg_text msg_encryption_error = some (codes "Encryption error, message not sent")
msg_text msg_connection_ended = some (codes "Connection ended, message not sent")
msg_text msg_setup_error = some (codes "Setup error")
msg_text msg_reflected = some (codes "Message reflected")
msg_text msg_resent = some (codes "Previous message resent")
msg_text msg_not_in_private = some (codes "Received unexpected encrypted message")
msg_text msg_unreadable = some (codes "Received message unreadable")
msg_text msg_malformed = some (codes "Received message malformed")
msg_text msg_heartbeat_rcvd = none
msg_text msg_heartbeat_sent = none
msg_text msg_general_err = some (codes "Received general error")
msg_text msg_unencrypted = some (codes "Received message unencrypted")
msg_text msg_unrecognized = some (codes "Received message unrecognizable")
msg_text msg_other_instance = some (codes "Received message for other instance")

unfoldable pub msg_line : Bytes → Option Bytes → Bytes
msg_line desc none = desc
msg_line desc (some message) = desc ++ codes " " ++ bracketed message

abbrev pub trust_text : Bool → Bytes
trust_text true = green (codes "trusted")
trust_text false = red (codes "untrusted")

unfoldable pub secured_line : Bool → Bytes
secured_line trusted = codes "Connection secured " ++ bracketed (trust_text trusted)

abbrev side_text : Bool → Bytes
side_text true = bold (codes "remotely")
side_text false = bold (codes "locally")

unfoldable pub refreshed_line : Bool → Bool → Bytes
refreshed_line is_reply trusted =
    codes "Connection refreshed "
    ++ bracketed (side_text is_reply)
    ++ codes " "
    ++ bracketed (trust_text trusted)

-- The array `statuses` of `cmd_status`.
unfoldable pub status_text : MsgState → Bytes
status_text plaintext = red (codes "plaintext")
status_text encrypted = green (codes "encrypted")
status_text finished = red (codes "finished")

-- A hexadecimal digit of `%X`.
unfoldable pub hex_digit : ℕ → ℕ
hex_digit d = if ltb d 10 then b'0' + d else b'A' + d - 10

-- The last `n` digits of `%X`; `%08X` of an `unsigned int` has 8.
unfoldable pub hex : ℕ → ℕ → Bytes → Bytes
unfolding hex_digit
hex zero v rest = rest
hex (suc n) v rest = hex n (v / 16) (hex_digit (v % 16) ∷ rest)

-- `%u`; a number below 10 ^ `fuel` has at most `fuel` digits.
unfoldable pub decimal : ℕ → ℕ → Bytes → Bytes
decimal zero v rest = rest
decimal (suc fuel) v rest =
    let more = decimal fuel (v / 10) ((b'0' + v % 10) ∷ rest) in
    if ltb v 10 then (b'0' + v) ∷ rest else more

unfoldable pub instance_line : ℕ → ℕ → ℕ → Bytes
unfolding hex decimal
instance_line ours theirs version =
    codes "Local instance "
    ++ bracketed (bold (hex 8 ours []))
    ++ codes " Remote instance "
    ++ bracketed (bold (hex 8 theirs []))
    ++ codes " Protocol "
    ++ bracketed (bold (decimal 10 version []))
