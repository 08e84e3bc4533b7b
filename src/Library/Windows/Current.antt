-- ===== src/Library/Windows/Current.antt =====
-- lua-extension/glirc-lib.c: the focus as `current_focus` reports it.
use irc_core.Base.{ℕ, ◌<◌, ◌≡◌, refl, ap, ◌∷◌, length, arith, inl, inr}
use irc_core.Client.{Client}
use irc_core.Lua.Value.{View}
use irc_core.Lua.Api.{Lua, returned}
use irc_core.Lua.Run.{◌>>=◌, ◌>>◌, return, lua, client}
use irc_core.Lua.Laws.{at_push}
use irc_core.Lua.Auxlib.{Raised, given, Auxlib}
use irc_core.Lua.Arguments.{none_cases, absent_text}
use irc_core.Library.{Code, ask, string_or_empty}
use irc_core.Library.Windows.{current_focus, focus}

module _ (G : Client) (L : Lua G.World) (X : Auxlib L) where
  -- `glirc.current_focus` takes no arguments and returns the network and then the target of the
  -- client's focus as strings, each the empty string where the client has none, and gives both back
  -- to the client. On any argument it raises an error.
  current_focus_lem :
      (s : L.State) (w : G.World)
      → (length (given L s) ≡ 0
          → let (network, target, w') = G.glirc_current_focus w in
            (s' : L.State) × (current_focus G L X s w
              ≡ returned 2 s' (G.glirc_free_string target (G.glirc_free_string network w')))
            × ((L.view s').stack
                ≡ string_or_empty target ∷ string_or_empty network ∷ (L.view s).stack))
        × (0 < length (given L s) → Raised (current_focus G L X s w) w)
  unfolding current_focus
  current_focus_lem s w =
      let answer : Code G L X ℕ = (do
        (network, target) ← ask G L X (focus G L X)
        lua (L.lua_push (string_or_empty network))
        lua (L.lua_push (string_or_empty target))
        client (G.glirc_free_string network)
        client (G.glirc_free_string target)
        return 2) in
      (
        λ none_given. (
          _,
          absent_text L X 1 answer s w refl (omega arith),
          ap (λ (x : View). x.stack) (at_push L (at_push L {s = s} refl _) _),
        ),
        λ some_given. elim (none_cases L X 1 answer s w) [
          | inl (few, r) ↦ absurd (omega arith)
          | inr r ↦ r
        ],
      )
