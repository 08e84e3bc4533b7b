-- ===== src/Examples/Questions.antt =====
-- Printing and the client's windows, at concrete inputs.
use irc_core.Base.{◌≡◌, ◌⊎◌, List, [], ◌∷◌, ◌<◌, ◌++◌, refl, some}
use irc_core.Client.{normal_message}
use irc_core.Lua.Value.{str}
use irc_core.Lua.Api.{Lua, returned}
use irc_core.Lua.Auxlib.{Raised}
use irc_core.Lua.Optional.{TakesOptional}
use irc_core.Library.{optional_len}
use irc_core.Library.Print.{Prints, texts, print, add_arguments, print-Prints}
use irc_core.Library.Windows.{set_focus, set_focus_lem}
use irc_core.Examples.Interpreter.{Memory}
use irc_core.Examples.Instance.{interpreter}
use irc_core.Examples.Checks.{checks}
use irc_core.Examples.Console.{console, Event, net, chan}

abbrev L : Lua (List Event)
L = interpreter

-- Two strings as arguments.
abbrev two : Memory
two = record {
  stack = str chan ∷ str net ∷ [];
  tables = [];
  registry = [];
  users = [];
  globals = [];
}

set_focus_lem_example :
    TakesOptional L checks (set_focus console L checks two []) two [] (λ n tgt s'.
      ((0 < optional_len n) ⊎ (optional_len tgt ≡ 0)
        → set_focus console L checks two [] ≡ returned 0 s' (console.glirc_set_focus n tgt []))
      × (optional_len n ≡ 0 → 0 < optional_len tgt → Raised (set_focus console L checks two []) []))
set_focus_lem_example = set_focus_lem console L checks two []

-- Two texts, printed with a tab between them.
print-Prints_example :
    Prints console L checks two.stack
      (texts console L checks 2 1 two [])
      (print console L checks two [])
print-Prints_example = print-Prints console L checks two []

tab_between :
    (print console L checks two [])
    ≡ returned 0
        (record two { stack = str (net ++ 9 ∷ chan) ∷ two.stack })
        (Event.printed normal_message (some (net ++ 9 ∷ chan)) ∷ [])
unfolding print add_arguments
tab_between = refl
