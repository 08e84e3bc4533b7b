-- ===== src/Examples/Modules.antt =====
-- The installation of the module `glirc`, at a concrete input.
use irc_core.Base.{ℕ, [], ◌∷◌}
use irc_core.Lua.Value.{str}
use irc_core.Lua.Api.{Lua}
use irc_core.Library.Install.{glirc_install_lib}
use irc_core.Library.Install.Made.{Installed, glirc_install_lib_lem}
use irc_core.Examples.Interpreter.{Memory}
use irc_core.Examples.Instance.{interpreter}

abbrev L : Lua ℕ
L = interpreter

abbrev begun : Memory
begun = record { stack = str [] ∷ []; tables = []; registry = []; users = []; globals = [] }

glirc_install_lib_lem_example : (t p q : ℕ) × Installed L begun (glirc_install_lib L begun) t p q
glirc_install_lib_lem_example = glirc_install_lib_lem L begun
