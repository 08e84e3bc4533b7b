-- ===== src/Lua/Run.antt =====
-- C functions over an interpreter and a client: they run from one state of both to the next, and
-- return a value or raise an error.
use irc_core.Lua.Api.{Outcome, returned, raised}

module _ {S W A B : Type 0} where
  abbrev pub and_then : Outcome S W A → (A → S → W → Outcome S W B) → Outcome S W B
  and_then (returned a s w) k = k a s w
  and_then (raised e s w) k = raised e s w

  infixl 5 ◌>>=◌ ◌>>◌
  abbrev pub ◌>>=◌ : (S → W → Outcome S W A) → (A → S → W → Outcome S W B) → S → W → Outcome S W B
  ◌>>=◌ m k s w = and_then (m s w) k

  abbrev pub ◌>>◌ : (S → W → Outcome S W A) → (S → W → Outcome S W B) → S → W → Outcome S W B
  ◌>>◌ m k s w = and_then (m s w) (λ _. k)

module _ {S W : Type 0} where
  abbrev pub return : {A : Type 0} → A → S → W → Outcome S W A
  return a s w = returned a s w

  -- A call that changes the interpreter alone, and one that changes the client alone.
  abbrev pub lua : (S → S) → S → W → Outcome S W (Unit {0})
  lua f s w = returned tt (f s) w

  abbrev pub client : (W → W) → S → W → Outcome S W (Unit {0})
  client f s w = returned tt s (f w)
