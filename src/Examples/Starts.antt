-- ===== src/Examples/Starts.antt =====
-- The start of the Lua extension at concrete inputs.
use irc_core.Base.{refl, List, [], ◌∷◌}
use irc_core.Lua.Api.{Lua}
use irc_core.Callback.Start.{start}
use irc_core.Callback.Start.Outcomes.{Checked, entered, start-Checked}
use irc_core.Examples.Interpreter.{Memory}
use irc_core.Examples.Instance.{interpreter}
use irc_core.Examples.Console.{console, Event, net, chan}

abbrev L : Lua (List Event)
L = interpreter

abbrev new : Memory
new = record { stack = []; tables = []; registry = []; users = []; globals = [] }

-- A script is named, with one argument for it; it returns a value.
start-Checked_example :
    (s' : Memory) × Checked console L net
      (net ∷ chan ∷ [])
      (L.lual_checkversion (entered console L 7 8 chan (net ∷ chan ∷ []) new))
      s'
      []
      []
      (start console L 7 8 chan (net ∷ chan ∷ []) [])
start-Checked_example = start-Checked console L 7 8 chan net (net ∷ chan ∷ []) new [] [] refl refl
