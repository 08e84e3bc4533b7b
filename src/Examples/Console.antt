-- ===== src/Examples/Console.antt =====
-- A client that keeps what is printed and sent, is connected to one network, and whose windows the
-- extension can focus.
use irc_core.Base.{
  Bytes, true, false, Option, none, some, List, [], ◌∷◌, bytes_eq, ℕ, ◌==◌, if◌then◌else◌,
}
use irc_core.Client.{Client, MessageCode, Message}
use irc_core.Lua.Value.{integer}

pub data Event : Type 0 where
  printed : MessageCode → Option Bytes → Event
  sent : Message → Event
  injected : Bytes → Bytes → Event
  focused : Option Bytes → Option Bytes → Event
  seen : Option Bytes → Option Bytes → Event
  timed : ℕ → Event
  cleared : Option Bytes → Option Bytes → Event

-- "net"
abbrev pub net : Bytes
net = b'n' ∷ b'e' ∷ b't' ∷ []

abbrev pub chan : Bytes
chan = b'#' ∷ b'c' ∷ []

abbrev known : {A : Type 0} → Bytes → A → Option A
known network a = if bytes_eq network net then some a else none

abbrev pub console : Client
console = record {
  World = List Event;
  glirc_print = λ code msg w. printed code msg ∷ w;
  glirc_send_message = λ msg w. (false, sent msg ∷ w);
  glirc_inject_chat = λ network src tgt msg w. (false, injected tgt msg ∷ w);
  glirc_list_networks = λ w. (some (net ∷ []), w);
  glirc_list_channels = λ network w. (known network (chan ∷ []), w);
  glirc_list_channel_users = λ network channel w. (known network (net ∷ chan ∷ []), w);
  glirc_current_focus = λ w. (none, none, w);
  glirc_set_focus = λ network target w. focused network target ∷ w;
  glirc_my_nick = λ network w. (known network chan, w);
  glirc_user_account = λ network nick w. (none, w);
  glirc_user_channel_modes = λ network channel nick w. (none, w);
  glirc_channel_modes = λ network channel w. (known network ((b'k', chan) ∷ []), w);
  glirc_channel_masks = λ network channel mode w. (known network (net ∷ []), w);
  glirc_mark_seen = λ network channel w. seen network channel ∷ w;
  glirc_clear_window = λ network channel w. cleared network channel ∷ w;
  glirc_identifier_cmp = λ a b. if bytes_eq a b then integer 0 else integer 1;
  glirc_is_channel = λ network target w. (true, w);
  glirc_is_logged_on = λ network target w. (false, w);
  glirc_resolve_path = λ path w. (some path, w);
  glirc_window_lines = λ network target filtered w. (none, w);
  glirc_set_timer = λ millis st w. (st, timed st ∷ w);
  glirc_cancel_timer = λ tid w. (if tid == 7 then some 3 else none, w);
  glirc_thread = λ command st w. timed st ∷ w;
  glirc_free_string = λ s w. w;
  glirc_free_strings = λ ss w. w;
}
