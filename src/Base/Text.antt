-- ===== src/Base/Text.antt =====
-- Texts as bytes.
use Prim.Native.Nat.{ℕ, ◌≤◌}
use Prim.Native.Char.{code}
use Prim.Native.String.{String}
use mathlib.Core.List.{List, [], ◌∷◌}
use native.Mathlib.Omega.{arith}
use irc_core.Base.Tests.{◌==◌, if◌then◌else◌}
use irc_core.Base.Lists.{length}

abbrev pub Bytes : Type 0
Bytes = List ℕ

-- The bytes of an ASCII text.
abbrev pub codes : String → Bytes
codes String.[] = []
codes (String.◌∷◌ c s) = code c ∷ codes s

-- What C reads of a text that is followed by a terminator: the bytes before the first terminator.
abbrev pub c_string : Bytes → Bytes
c_string [] = []
c_string (c ∷ cs) = if c == 0 then [] else c ∷ c_string cs

pub length-c_string : (b : Bytes) → length (c_string b) ≤ length b
length-c_string [] = omega arith
length-c_string (c ∷ cs) = ground (arith, length-c_string cs)
