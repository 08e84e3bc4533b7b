-- ===== src/Library.antt =====
-- lua-extension/glirc-lib.c: the functions of the module `glirc` that a script calls. A function
-- returns how many values it leaves on its stack as results.
pub mod Messages
pub mod Print
pub mod Lists
pub mod Windows
pub mod Modes
pub mod Timers
pub mod System
pub mod Identifiers
pub mod Install
use irc_core.Base.{
  codes, Bytes, ℕ, zero, suc, ◌+◌, ◌-◌, ◌==◌, Bool, true, false, not, ◌||◌, ◌&&◌, Option, none,
  some, List, [], ◌∷◌, ltb, length, if◌then◌else◌,
}
use irc_core.Client.{Client, Message, normal_message, error_message}
use irc_core.Lua.Value.{Value, nil, boolean, str}
use irc_core.Lua.Api.{Lua, Outcome, returned}
use irc_core.Lua.Run.{◌>>=◌, ◌>>◌, return, lua, client}
use irc_core.Lua.Auxlib.{Auxlib}
use irc_core.Marshal.{import_string_array}
use irc_core.Marshal.Arrays.{string_or_nil}

-- "client failure", "too many parameters", "no such network", "no such channel", and the complaint
-- of `set_focus`
abbrev pub client_failure : Bytes
client_failure = codes "client failure"

abbrev too_many_parameters : Bytes
too_many_parameters = codes "too many parameters"

abbrev pub no_such_network : Bytes
no_such_network = codes "no such network"

abbrev pub no_such_channel : Bytes
no_such_channel = codes "no such channel"

-- Of a NULL string with length 0 the pushed copy is the empty string.
abbrev pub string_or_empty : Option Bytes → Value
string_or_empty none = str []
string_or_empty (some b) = str b

-- The length of a string that may be missing.
abbrev pub optional_len : Option Bytes → ℕ
optional_len none = 0
optional_len (some b) = length b

module _ (G : Client) (L : Lua G.World) (X : Auxlib L) where
  open X use {lual_checklstring, lual_optlstring, lual_checktype_none, lual_error, argument_truthy}

  abbrev pub Code : Type 0 → Type 0
  Code A = L.State → G.World → Outcome L.State G.World A

  -- A call of the client that answers.
  abbrev pub ask : {A : Type 0} → (G.World → A × G.World) → Code A
  ask f s w = let (a, w') = f w in returned a s w'
