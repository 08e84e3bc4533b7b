-- ===== src/Examples/Commands.antt =====
-- Commands in threads, and the comparison of identifiers, at concrete inputs.
use irc_core.Base.{Bytes, c_string, ◌≡◌, refl, List, [], ◌∷◌, length, ◌+◌}
use irc_core.Lua.Value.{Value, nil, integer, str, other, update}
use irc_core.Lua.Api.{Lua}
use irc_core.Callback.{bodies}
use irc_core.Library.System.{system_lem, pass_result, system_state_size}
use irc_core.Library.System.Done.{thread_for, run_thread, system-run_thread}
use irc_core.Thread.{new_thread_state}
use irc_core.Examples.Interpreter.{Memory, view}
use irc_core.Examples.Instance.{interpreter}
use irc_core.Examples.Checks.{checks}
use irc_core.Examples.Console.{console, Event, net}

abbrev L : Lua (List Event)
L = interpreter

abbrev arguments : List Value → Memory
arguments xs = record { stack = xs; tables = []; registry = []; users = []; globals = [] }

abbrev asked : Memory
asked = arguments (other 1 ∷ str net ∷ [])

-- A shell in which every command fails with status 1, and a thread that is done at once.
abbrev shell : Bytes → List Event → Value × List Event
shell command w = (integer 1, w)

abbrev after_system : Memory
after_system = (system_lem console L checks asked [] net (other 1) refl).0

system-run_thread_example :
    let b = bodies console L in
    let st = (new_thread_state L (system_state_size + length net + 1) asked).0 in
    let thread = thread_for st (c_string net) nil in
    let w' = console.glirc_thread (c_string net) st [] in
    (w' ≡ w')
    × (s' : Memory) × (view s' ≡ record (view after_system) {
      stack = integer 1 ∷ other 1 ∷ after_system.stack;
      registry = update (view after_system).registry st nil;
    })
    × (run_thread console L checks shell b thread after_system w' ≡ pass_result console L b s' w')
    × ((run_thread console L checks shell b thread after_system w').0.stack ≡ after_system.stack)
system-run_thread_example =
    let st = (new_thread_state L (system_state_size + length net + 1) asked).0 in
    let w' = console.glirc_thread (c_string net) st [] in
    system-run_thread console L checks shell (bodies console L) asked after_system after_system []
      w' w' net (other 1) nil refl (system_lem console L checks asked [] net (other 1) refl).1 refl
      refl
