-- ===== src/Examples/Letters.antt =====
-- What is sent for libotr, at a concrete input.
use irc_core.Base.{◌≡◌, refl, false, none, List, [], ◌∷◌, codes}
use irc_core.Client.{Message, Chat, Command, outgoing}
use irc_core.Otr.Libotr.{op_inject_message, op_timer_control, Run, done, call}
use irc_core.Otr.Session.{OpData, timer_control}
use irc_core.Otr.Texts.{query_text}
use irc_core.Otr.Callbacks.{run, handle, inject_message}
use irc_core.Otr.Events.{start_entrypoint, chat_entrypoint, message_entrypoint, timer_entrypoint}
use irc_core.Otr.Outgoing.{Outbox}
use irc_core.Otr.Outgoing.Events.{Sends}
use irc_core.Otr.Outgoing.Whole.{behind, Lived, Lived-Sends}
use irc_core.Otr.Commands.{command_entrypoint}
use irc_core.Examples.Desk.{
  empty_trusts, Line, printed, sent, injected, written, Desk, desk, Trusts, small,
}

abbrev messages : List Line → List Message
messages [] = []
messages (printed code text ∷ ls) = messages ls
messages (sent msg ∷ ls) = msg ∷ messages ls
messages (injected src tgt text ∷ ls) = messages ls
messages (written path ∷ ls) = messages ls

abbrev outbox : Outbox desk small 9
outbox = record {
  observer = record {
    see = λ w. messages w.lines;
    see-inject_chat = λ net src tgt text w. refl;
    see-is_logged_on = λ net tgt w. refl;
    see-write_fingerprints = λ path us w. refl;
    see-privkey_generate = λ path accountname protocol us w. refl;
    see-instag_generate = λ path accountname protocol us w. refl;
  };
  sent-send = λ msg w. refl;
  sent-set = λ ms w. refl;
  sent-is_channel = λ net tgt w. refl;
  sent-my_nick = λ net w. refl;
  sent-free_string = λ text w. refl;
  sent-print = λ code text w. refl;
  sent-current_focus = λ w. refl;
  sent-privkey_read = λ path us w. refl;
  sent-instag_read = λ path us w. refl;
  sent-read_fingerprints = λ path us w. refl;
  sent-cancel = λ tid w. refl;
}

abbrev begun : OpData Trusts
begun = record { us = empty_trusts; timer_active = false; timer_interval = 0; timer_id = 0 }

abbrev quiet : Desk
quiet = record { timers = []; lines = [] }

abbrev to_bob : Chat
to_bob = record { network = codes "net"; target = codes "Bob"; message = codes "hello" }

abbrev from_bob : Message
from_bob = record {
  network = codes "net";
  prefix_nick = codes "Bob";
  prefix_user = codes "bob";
  prefix_host = codes "example.org";
  command = codes "PRIVMSG";
  params = codes "Alice" ∷ codes "?OTR:" ∷ [];
  tags = [];
}

-- The user writes to Bob, a message of his comes, the user asks for encryption, and the timer fires.
abbrev after_start : OpData Trusts × Desk
after_start = start_entrypoint desk small none 9 quiet

abbrev after_chat : OpData Trusts × Desk
after_chat =
    behind desk small none 9 outbox
      (chat_entrypoint desk small none 9 to_bob after_start.0 after_start.1)

abbrev after_message : OpData Trusts × Desk
after_message =
    behind desk small none 9 outbox
      (message_entrypoint desk small none 9 from_bob after_chat.0 after_chat.1)

abbrev start : Command
start = record { command = codes "start" }

abbrev after_command : OpData Trusts × Desk
after_command = command_entrypoint desk small none 9 start after_message.0 after_message.1

Lived-Sends_example :
    Sends desk small none 9 outbox quiet
      (timer_entrypoint desk small none 9 after_command.0 after_command.1).1
Lived-Sends_example =
    Lived-Sends desk small none 9 outbox quiet
      (timer_entrypoint desk small none 9 after_command.0 after_command.1)
      (Lived.timed
        (Lived.commanded (Lived.heard (Lived.typed Lived.started to_bob) from_bob) start))

-- libotr asks to send its query and a text of its protocol, and to be polled.
abbrev asks : Run Trusts (Unit {0})
asks =
    call (op_inject_message (codes "alice") (codes "net") (codes "bob") (codes "?OTR?"))
      empty_trusts
      (λ a us. call (op_timer_control 5) us (λ b us'.
        call (op_inject_message (codes "alice") (codes "net") (codes "bob") (codes "?OTR:x")) us'
          (λ c us''. done tt us'')))

-- Both are sent, the query in its readable form.
sent_then :
    messages (run desk small none 9 asks begun quiet).2.lines
    ≡ outgoing (codes "net") (codes "PRIVMSG") (codes "bob" ∷ codes "?OTR:x" ∷ [])
      ∷ outgoing (codes "net") (codes "PRIVMSG") (codes "bob" ∷ query_text ∷ [])
      ∷ []
unfolding run handle inject_message timer_control
sent_then = refl
