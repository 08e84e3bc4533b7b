-- ===== src/Library/Identifiers.antt =====
-- lua-extension/glirc-lib.c: the comparison of identifiers.
use irc_core.Base.{ℕ, ◌≡◌}
use irc_core.Client.{Client}
use irc_core.Lua.Api.{Lua, returned}
use irc_core.Lua.Run.{◌>>=◌, ◌>>◌, return, lua}
use irc_core.Lua.Auxlib.{Auxlib}
use irc_core.Lua.Arguments.{Takes2, strings2_lem}
use irc_core.Library.{Code}

module _ (G : Client) (L : Lua G.World) (X : Auxlib L) where
  open X use {lual_checklstring, lual_checktype_none}

  pub identifier_cmp : Code G L X ℕ
  identifier_cmp = do
    str1 ← lual_checklstring 1
    str2 ← lual_checklstring 2
    lual_checktype_none 3
    lua (L.lua_push (G.glirc_identifier_cmp str1 str2))
    return 1

  -- `glirc.identifier_cmp` takes two strings and pushes the client's comparison of them, in their
  -- order; the client's state does not change. On any other arguments an error is raised.
  identifier_cmp_lem :
      (s : L.State) (w : G.World)
      → Takes2 L X
          (identifier_cmp s w)
          s
          w
          (λ a b s'. identifier_cmp s w ≡ returned 1 (L.lua_push (G.glirc_identifier_cmp a b) s') w)
  unfolding identifier_cmp
  identifier_cmp_lem s w = strings2_lem L X _ s w
