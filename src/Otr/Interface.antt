-- ===== src/Otr/Interface.antt =====
-- otr-extension/glirc-otr.cpp: what the extension presents to the client, `extension`.
use irc_core.Base.{Bytes, ℕ, codes, Option, some}
use irc_core.Client.{Client}
use irc_core.Extension.{Extension}
use irc_core.Otr.Libotr.{Libotr}
use irc_core.Otr.Session.{OpData}
use irc_core.Otr.Events.{start_entrypoint, stop_entrypoint, message_entrypoint, chat_entrypoint}
use irc_core.Otr.Commands.{command_entrypoint}

module _ (G : Client) (O : Libotr G.World) (home : Option Bytes) (self : ℕ) where
  open G use {World}

  -- The library's path and the arguments are not used.
  abbrev pub extension : Extension World
  extension = record {
    Session = OpData O.Us;
    name = codes "OTR";
    major_version = 1;
    minor_version = 1;
    start = λ path args w. some (start_entrypoint G O home self w);
    stop = λ d w. some (stop_entrypoint G O home self d w);
    process_message = some (λ msg d w. some (message_entrypoint G O home self msg d w));
    process_command = some (λ cmd d w. some (command_entrypoint G O home self cmd d w));
    process_chat = some (λ chat d w. some (chat_entrypoint G O home self chat d w));
  }
