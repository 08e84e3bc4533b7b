-- ===== src/Examples/Timers.antt =====
-- Timers, modes, lists and the focus at concrete inputs.
use irc_core.Base.{zero, suc, ℕ, ◌≡◌, ◌≢◌, refl, List, [], ◌∷◌}
use irc_core.Lua.Value.{Value, nil, integer, str, userdata, other, update}
use irc_core.Lua.Api.{Lua}
use irc_core.Lua.Auxlib.{Raised}
use irc_core.Lua.Arguments.{Takes2}
use irc_core.Callback.{bodies}
use irc_core.Library.Modes.{
  channel_modes, channel_modes_lem, Modes, channel_masks, channel_masks_lem, Masks,
}
use irc_core.Library.Timers.{
  on_timer, call_back, set_timer_lem, cancel_timer, cancel_timer_lem, signed, Cancels,
}
use irc_core.Library.Timers.Due.{set_timer-on_timer}
use irc_core.Thread.{new_thread_state}
use irc_core.Examples.Interpreter.{Memory, view}
use irc_core.Examples.Instance.{interpreter}
use irc_core.Examples.Checks.{checks}
use irc_core.Examples.Console.{console, Event, net, chan}

abbrev L : Lua (List Event)
L = interpreter

abbrev arguments : List Value → Memory
arguments xs = record { stack = xs; tables = []; registry = []; users = []; globals = [] }

abbrev two : Memory
two = arguments (str chan ∷ str net ∷ [])

channel_modes_lem_example :
    Takes2 L checks (channel_modes console L checks two []) two [] (λ n c s'.
      let (modes, w') = console.glirc_channel_modes n c [] in
      Modes console L checks modes (channel_modes console L checks two []) s' w')
channel_modes_lem_example = channel_modes_lem console L checks two []

abbrev three : Memory
three = arguments (str (b'b' ∷ []) ∷ str chan ∷ str net ∷ [])

channel_masks_lem_example :
    ((c : ℕ)
      → b'b' ∷ [] ≡ c ∷ []
      → (s' : Memory) × (let (masks, w') = console.glirc_channel_masks net chan c [] in
          Masks console L checks masks (channel_masks console L checks three []) s' w'))
    × (suc zero ≢ 1 → Raised (channel_masks console L checks three []) [])
channel_masks_lem_example = channel_masks_lem console L checks three [] net chan (b'b' ∷ []) refl

abbrev nothing : Memory
nothing = arguments []

-- A timer that is due.
abbrev due : Memory
due = record {
  stack = str net ∷ [];
  tables = [];
  registry = (3, userdata 3) ∷ [];
  users = (3, other 1) ∷ [];
  globals = [];
}

abbrev timed : Memory
timed = arguments (other 1 ∷ integer 500 ∷ [])

abbrev after_set : Memory
after_set = (set_timer_lem console L checks timed [] (integer 500) (other 1) 500 refl refl).0

-- The timer is due at once.
set_timer-on_timer_example :
    let st = (new_thread_state L 8 timed).0 in
    let (tid, w') = console.glirc_set_timer 500 st [] in
    (w' ≡ w')
    × (after_set.stack ≡ signed tid ∷ integer 500 ∷ [])
    × (s' : Memory) × (view s' ≡ record (view after_set) {
      stack = other 1 ∷ after_set.stack;
      registry = update (view after_set).registry st nil;
    })
    × (on_timer console L (bodies console L) st after_set w'
        ≡ call_back console L (bodies console L) s' w')
    × ((on_timer console L (bodies console L) st after_set w').0.stack ≡ after_set.stack)
set_timer-on_timer_example =
    let w' = (console.glirc_set_timer 500 (new_thread_state L 8 timed).0 []).1 in
    set_timer-on_timer console L checks (bodies console L) timed after_set after_set [] w' w'
      (integer 500) (other 1) 500 refl refl
      (set_timer_lem console L checks timed [] (integer 500) (other 1) 500 refl refl).1 refl refl

abbrev cancelled : Memory
cancelled = record due { stack = integer 7 ∷ [] }

cancel_timer_lem_example :
    let (st, w') = console.glirc_cancel_timer 7 [] in
    Cancels console L checks st (cancel_timer console L checks cancelled []) cancelled w'
cancel_timer_lem_example = cancel_timer_lem console L checks cancelled [] (integer 7) 7 refl refl
