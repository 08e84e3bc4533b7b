-- ===== src/Examples/Notes.antt =====
-- Notifications at a concrete input.
use irc_core.Base.{
  ◌≡◌, ◌++◌, ℕ, refl, true, none, some, Option, List, [], ◌∷◌, length, Bytes, codes,
}
use irc_core.Lua.Value.{str}
use irc_core.Lua.Api.{Lua}
use irc_core.Notify.{Notifier, notify, luaopen_libnotify}
use irc_core.Notify.Shown.{Shown, notify-Shown}
use irc_core.Examples.Interpreter.{Memory}
use irc_core.Examples.Instance.{interpreter}
use irc_core.Examples.Checks.{checks}

pub data Note : Type 0 where
  made : Bytes → Option Bytes → Option Bytes → Note
  shown released : ℕ → Note

-- A notification's address is the number of notes before it.
abbrev board : Notifier (List Note)
board = record {
  g_type_init = λ w. w;
  notify_init = λ start w. (true, w);
  notify_uninit = λ w. w;
  notify_notification_new = λ summary body icon w. (some (length w), made summary body icon ∷ w);
  notify_notification_show = λ object w. (true, shown object ∷ w);
  g_object_unref = λ object w. released object ∷ w;
}

abbrev L : Lua (List Note)
L = interpreter

-- "mail" and "from" with a zero byte behind it and more text
abbrev called : Memory
called = record {
  stack = str (codes "from" ++ (0 ∷ codes "Bob")) ∷ str (codes "mail") ∷ [];
  tables = [];
  registry = [];
  users = [];
  globals = [];
}

notify-Shown_example :
    Shown L checks board
      (some 0, made (codes "mail") (some (codes "from")) none ∷ [])
      (notify L checks board called [])
notify-Shown_example =
    notify-Shown L checks board (codes "mail") ((codes "from" ++ (0 ∷ codes "Bob")) ∷ []) called []
      refl

-- The array of functions is read past its end.
no_end : luaopen_libnotify L checks board ≡ none
no_end = refl
