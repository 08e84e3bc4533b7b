-- ===== src/Examples/Samples.antt =====
-- The sample extension at concrete inputs, on a disk with one file.
use irc_core.Base.{Bytes, ℕ, codes, ◌++◌, ◌≡◌, refl, Option, some, List, [], ◌∷◌}
use irc_core.Client.{outgoing}
use irc_core.Extension.{Event, message_event, chat_event}
use irc_core.Sample.{Files, start}
use irc_core.Sample.Lines.{Wrote, command_lines, start-Wrote}

record Disk : Type 0 where
  name : Bytes
  written : Bytes
  kept : Bytes

abbrev disk : Files Disk
disk = record {
  fopen = λ path w. (some 3, record { name = path; written = []; kept = [] });
  text = λ f w. w.written;
  stored = λ path w. w.kept;
  opened_as = λ f w. some w.name;
  fopen-new = λ path w f h. (refl, refl);
  fwrite = λ b f w. record w { written = w.written ++ b };
  fwrite-text = λ b f w path h. (refl, h);
  fflush = λ f w. record w { kept = w.written };
  fflush-stored = λ f w path h. (refl, refl, h);
  fclose = λ f w. record w { kept = w.written };
  fclose-stored = λ f w path h. refl;
}

abbrev nothing_there : Disk
nothing_there = record { name = []; written = []; kept = [] }

-- Two messages, and a chat between them.
abbrev events : List Event
events =
    message_event (outgoing (codes "net") (codes "PING") [])
    ∷ chat_event (record { network = codes "net"; target = codes "Bob"; message = codes "hi" })
    ∷ message_event (outgoing (codes "net") (codes "QUIT") [])
    ∷ []

start-Wrote_example :
    (session : Option ℕ) × (w' : Disk) × (start disk (codes "sample.so") [] nothing_there
      ≡ some (session, w'))
    × Wrote disk events (session, w')
start-Wrote_example = start-Wrote disk (codes "sample.so") [] events nothing_there

two_lines : command_lines events ≡ codes "PING\nQUIT\n"
two_lines = refl
