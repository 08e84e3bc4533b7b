-- ===== src/Notify.antt =====
-- lua-extension/lua-libnotify/lua-libnotify.c: desktop notifications for Lua scripts. libnotify and
-- GLib, which it calls, are the parameter `Notifier`.
pub mod Shown
use irc_core.Base.{
  ℕ, suc, ◌≡◌, refl, ap, ◌∙◌, Bool, true, false, Option, none, some, List, [], ◌∷◌, map, Bytes,
  codes, c_string, leb, length, get_elem?, if◌then◌else◌, arith,
}
use irc_core.Lua.Api.{Lua, Outcome, returned}
use irc_core.Lua.Run.{◌>>=◌, ◌>>◌, return, client, and_then}
use irc_core.Lua.Auxlib.{Auxlib, Arg, text, given, Raised}

-- A notification is an object of GLib, by its address. A status is `true` for success.
pub record Notifier (W : Type 0) : Type 0 where
  pub g_type_init : W → W
  pub notify_init : Bytes → W → Bool × W
  pub notify_uninit : W → W
  pub notify_notification_new : Bytes → Option Bytes → Option Bytes → W → Option ℕ × W
  pub notify_notification_show : ℕ → W → Bool × W
  pub g_object_unref : ℕ → W → W

-- The entries of an array of functions that `luaL_setfuncs` reads: those before the first whose name is
-- NULL, an entry `none`. It reads past an array that has no such entry, which is a fault.
abbrev pub entries : {A : Type 0} → List (Option A) → Option (List A)
entries [] = none
entries (none ∷ rs) = some []
entries (some r ∷ rs) = elim (entries rs) [ none ↦ none | some read ↦ some (r ∷ read) ]

module _ {W : Type 0} (L : Lua W) (X : Auxlib L) (N : Notifier W) where
  open X use {lual_checklstring, lual_error}
  open N use {
    g_type_init, notify_init, notify_uninit, notify_notification_new, notify_notification_show,
    g_object_unref,
  }

  abbrev pub Does : Type 0 → Type 0
  Does A = L.State → W → Outcome L.State W A

  abbrev pub asked : {A : Type 0} → (W → A × W) → Does A
  asked f s w = let (a, w') = f w in returned a s w'

  -- `luaL_checkstring`: of a text, what C reads of it.
  abbrev pub lual_checkstring : ℕ → Does Bytes
  lual_checkstring i = do b ← lual_checklstring i; return (c_string b)

  -- `if (success == FALSE) luaL_error(...)`, at the end of a function without results
  unfoldable pub succeed : Bytes → Bool → Does ℕ
  succeed message true = return 0
  succeed message false = lual_error ℕ message

  unfoldable pub init : Does ℕ
  unfolding succeed
  init = do
    start ← lual_checkstring 1
    client g_type_init
    success ← asked (notify_init start)
    succeed (codes "notify_init failed") success

  unfoldable pub uninit : Does ℕ
  uninit = do client notify_uninit; return 0

  -- `n >= i ? luaL_checkstring(L, i) : NULL`
  unfoldable pub string_or_null : ℕ → ℕ → Does (Option Bytes)
  string_or_null n i = if leb i n then (do b ← lual_checkstring i; return (some b)) else return none

  -- A new notification is shown and released.
  unfoldable pub show : Option ℕ → Does ℕ
  unfolding succeed
  show none = lual_error ℕ (codes "notify_notification_new failed")
  show (some object) = do
    success ← asked (notify_notification_show object)
    client (g_object_unref object)
    succeed (codes "notify_notification_show failed") success

  abbrev pub notify_with : ℕ → Does ℕ
  notify_with n = do
    summary ← lual_checkstring 1
    body ← string_or_null n 2
    icon ← string_or_null n 3
    object ← asked (notify_notification_new summary body icon)
    show object

  unfoldable pub notify : Does ℕ
  unfolding string_or_null show
  notify s w = notify_with (L.lua_gettop s) s w

  -- `luaL_Reg funcs[]`
  abbrev pub funcs : List (Option (Bytes × Does ℕ))
  funcs =
      some (codes "init", init) ∷ some (codes "uninit", uninit) ∷ some (codes "notify", notify) ∷ []

  -- The functions that are put into the new table.
  abbrev pub luaopen_libnotify : Option (List (Bytes × Does ℕ))
  luaopen_libnotify = entries funcs
