-- ===== src/Examples/Encryption.antt =====
-- The theorems about otr-extension at concrete inputs.
use irc_core.Base.{
  arith, Option, ◌%◌, ◌≡◌, ◌≢◌, refl, ◌↔◌, ◌⊎◌, true, false, some, [], ◌∷◌, map, length, Bytes,
  codes,
}
use irc_core.Client.{pass_message, Message, Chat, error_message}
use irc_core.Otr.Case.{normalize_case, irc_lower, normalize_case-lower}
use irc_core.Otr.Policy.{op_policy}
use irc_core.Otr.Session.{OpData, my_nick, schedule_timer, timer_finished, timer_control}
use irc_core.Otr.Callbacks.{run}
use irc_core.Otr.Methods.{message_poll, message_sending}
use irc_core.Otr.CommandLine.{split_command, split_command-print}
use irc_core.Otr.Events.{chat_entrypoint, message_entrypoint, start_entrypoint, timer_entrypoint}
use irc_core.Otr.CommandTable.{
  Func, cmd_status, cmd_secret, cmd_ask, cmd_start, cmd_end, cmd_trust, cmd_untrust, cmd_version,
  cmd_help,
}
use irc_core.Otr.Commands.{perform, command_entrypoint}
use irc_core.Otr.Sending.{protected, Harmless, chat_entrypoint-pass, chat_entrypoint-lower}
use irc_core.Otr.Receiving.{Handled, message_entrypoint-Handled}
use irc_core.Otr.Dispatch.{word_for, command_entrypoint-called, command_entrypoint-unknown}
use irc_core.Otr.Timers.Events.{Fine}
use irc_core.Otr.Timers.Reach.{left, Step, Reached, Reached-Fine}
use irc_core.Otr.Timers.Polling.{Polled, Reached-Polled}
use irc_core.Examples.Desk.{empty_trusts, Desk, desk, Trusts, small, kept}

normalize_case-lower_example :
    (normalize_case (codes "Al[x]_^\\") ≡ map (λ x. irc_lower (x % 256)) (codes "Al[x]_^\\"))
    × (normalize_case (normalize_case (codes "Al[x]_^\\")) ≡ normalize_case (codes "Al[x]_^\\"))
    × (length (normalize_case (codes "Al[x]_^\\")) ≡ length (codes "Al[x]_^\\"))
normalize_case-lower_example = normalize_case-lower (codes "Al[x]_^\\")

split_command-print_example : split_command (codes " ask  my cat ") ≡ (codes "ask", codes "my cat ")
split_command-print_example =
    split_command-print 1 1 b'a' (codes "sk") (codes "my cat ") (ground arith) (ground arith) refl

abbrev quiet : Desk
quiet = record { timers = []; lines = [] }

abbrev home : Option Bytes
home = some (codes "/home/alice")

abbrev to_bob : Chat
to_bob = record { network = codes "net"; target = codes "Bob["; message = codes "hello" }

abbrev begun : OpData Trusts
begun = record { us = empty_trusts; timer_active = false; timer_interval = 0; timer_id = 0 }

chat_entrypoint-pass_example :
    ((chat_entrypoint desk small home 9 to_bob begun quiet).0 ≡ pass_message) ↔ (
      (false ≡ true)
      ⊎ Harmless (codes "Alice") (protected desk small home 9 to_bob begun (codes "Alice") quiet).0)
unfolding my_nick
chat_entrypoint-pass_example = chat_entrypoint-pass desk small home 9 to_bob begun quiet

chat_entrypoint-lower_example :
    chat_entrypoint desk small home 9 to_bob begun quiet
    ≡ chat_entrypoint desk small home 9 (record to_bob { target = codes "bOb{" }) begun quiet
chat_entrypoint-lower_example =
    chat_entrypoint-lower desk small home 9 to_bob (codes "bOb{") begun quiet refl refl

-- A hidden text from Bob.
abbrev from_bob : Message
from_bob = record {
  network = codes "net";
  prefix_nick = codes "Bob[";
  prefix_user = codes "bob";
  prefix_host = codes "example.org";
  command = codes "PRIVMSG";
  params = codes "Alice" ∷ codes "?OTR:" ∷ [];
  tags = (codes "time", codes "12:00") ∷ [];
}

message_entrypoint-Outcome_example :
    Handled desk small home 9 from_bob begun quiet
      (message_entrypoint desk small home 9 from_bob begun quiet)
message_entrypoint-Outcome_example =
    message_entrypoint-Handled desk small home 9 from_bob begun quiet

command_entrypoint-called_example :
    command_entrypoint desk small home 9 (record { command = codes "ask  my cat" }) begun quiet
    ≡ perform desk small home 9 cmd_ask (codes "my cat") begun quiet
command_entrypoint-called_example =
    command_entrypoint-called desk small home 9 cmd_ask 0 1 (codes "my cat") begun quiet
      (ground arith) refl

-- The user writes to Bob, the timer of libotr fires, and the user asks for help.
abbrev after_chat : OpData Trusts × Desk
after_chat =
    let (d, w) = start_entrypoint desk small home 9 quiet in
    left desk small home 9 kept (chat_entrypoint desk small home 9 to_bob d w)

abbrev fired : Desk
fired = record (after_chat.1) { timers = [] }

abbrev after_timer : OpData Trusts × Desk
after_timer = timer_entrypoint desk small home 9 after_chat.0 fired

abbrev after_help : OpData Trusts × Desk
after_help =
    command_entrypoint desk small home 9 (record { command = codes "help" }) after_timer.0
      after_timer.1

Reached-Fine_example : Fine desk small home 9 kept after_help
Reached-Fine_example = Reached-Fine desk small home 9 kept quiet after_help refl (
    Reached.stepped
      (Reached.stepped (Reached.stepped Reached.started (Step.chat to_bob)) (Step.timer fired refl))
      (Step.command (record { command = codes "help" })))

-- The timer fires twice more.
Reached-Polled_example : Polled desk small home 9 kept (λ w. record w { timers = [] }) 2 after_chat
Reached-Polled_example =
    Reached-Polled desk small home 9 kept (λ w. record w { timers = [] }) (λ w tid ms h. refl) quiet
      after_chat 2 refl (Reached.stepped Reached.started (Step.chat to_bob))

-- The timer that is pending then.
armed_then : after_help.1.timers ≡ (3, 5000) ∷ []
unfolding start_entrypoint chat_entrypoint timer_entrypoint command_entrypoint split_command
    schedule_timer message_poll run timer_finished my_nick message_sending timer_control
armed_then = refl

-- A word in capitals is no command.
shout_other : (f : Func) → (split_command (codes "HELP me")).0 ≢ word_for f
unfolding split_command
shout_other cmd_status = ground arith
shout_other cmd_secret = ground arith
shout_other cmd_ask = ground arith
shout_other cmd_start = ground arith
shout_other cmd_end = ground arith
shout_other cmd_trust = ground arith
shout_other cmd_untrust = ground arith
shout_other cmd_version = ground arith
shout_other cmd_help = ground arith

command_entrypoint-unknown_example :
    command_entrypoint desk small home 9 (record { command = codes "HELP me" }) begun quiet
    ≡ (begun, desk.glirc_print error_message (some (codes "OTR: Unknown command")) quiet)
command_entrypoint-unknown_example =
    command_entrypoint-unknown desk small home 9 (record { command = codes "HELP me" }) begun quiet
      shout_other

-- Of the default 118, the bit for the whitespace tag is the one of number 4.
policy_then : op_policy small ≡ 102
unfolding op_policy
policy_then = refl
