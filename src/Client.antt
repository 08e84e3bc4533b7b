-- ===== src/Client.antt =====
-- include/glirc-api.h: what the client and an extension tell each other, and the functions that the
-- client offers to its extensions. The client's side is not C: it is the parameter `Client`.
use irc_core.Base.{[], Bytes, ℕ, Bool, Option, List}
use irc_core.Lua.Value.{Value}

-- `enum message_code`
pub data MessageCode : Type 0 where
  normal_message error_message : MessageCode

-- `enum process_result`
pub data ProcessResult : Type 0 where
  pass_message drop_message : ProcessResult

-- `struct glirc_message`; a `struct glirc_string` is its bytes, and an array with its length a list.
pub record Message : Type 0 where
  pub network : Bytes
  pub prefix_nick : Bytes
  pub prefix_user : Bytes
  pub prefix_host : Bytes
  pub command : Bytes
  pub params : List Bytes
  pub tags : List (Bytes × Bytes)

-- The message that an extension sends. The fields that the code does not name are zero: no prefix and no tags.
abbrev pub outgoing : Bytes → Bytes → List Bytes → Message
outgoing network command params = record {
  network = network;
  prefix_nick = [];
  prefix_user = [];
  prefix_host = [];
  command = command;
  params = params;
  tags = [];
}

-- `struct glirc_chat`
pub record Chat : Type 0 where
  pub network : Bytes
  pub target : Bytes
  pub message : Bytes

-- `struct glirc_command`
pub record Command : Type 0 where
  pub command : Bytes

-- The functions `glirc_*`, on the client's state. A `char *` without a length is its bytes before the
-- terminator. A string that may be NULL is an option, a
-- NULL-terminated array a list, and a status is `true` where it is not zero.
pub record Client : Type 1 where
  pub World : Type 0
  pub glirc_print : MessageCode → Option Bytes → World → World
  pub glirc_send_message : Message → World → Bool × World
  pub glirc_inject_chat : Bytes → Bytes → Bytes → Bytes → World → Bool × World
  pub glirc_list_networks : World → Option (List Bytes) × World
  pub glirc_list_channels : Bytes → World → Option (List Bytes) × World
  pub glirc_list_channel_users : Bytes → Bytes → World → Option (List Bytes) × World
  pub glirc_current_focus : World → Option Bytes × Option Bytes × World
  pub glirc_set_focus : Option Bytes → Option Bytes → World → World
  pub glirc_my_nick : Bytes → World → Option Bytes × World
  pub glirc_user_account : Bytes → Bytes → World → Option Bytes × World
  pub glirc_user_channel_modes : Bytes → Bytes → Bytes → World → Option Bytes × World
  -- Each string is a mode's letter with its argument behind it.
  pub glirc_channel_modes : Bytes → Bytes → World → Option (List (ℕ × Bytes)) × World
  pub glirc_channel_masks : Bytes → Bytes → ℕ → World → Option (List Bytes) × World
  pub glirc_mark_seen : Option Bytes → Option Bytes → World → World
  pub glirc_clear_window : Option Bytes → Option Bytes → World → World
  -- The comparison's result is an integer.
  pub glirc_identifier_cmp : Bytes → Bytes → Value
  pub glirc_is_channel : Bytes → Bytes → World → Bool × World
  pub glirc_is_logged_on : Bytes → Bytes → World → Bool × World
  pub glirc_resolve_path : Bytes → World → Option Bytes × World
  pub glirc_window_lines : Bytes → Bytes → Bool → World → Option (List Bytes) × World
  -- A timer is set with its delay, a 64-bit word, and the data for its callback, an address; it has an
  -- identifier, also a 64-bit word. To cancel it gives its data back.
  pub glirc_set_timer : ℕ → ℕ → World → ℕ × World
  pub glirc_cancel_timer : ℕ → World → Option ℕ × World
  -- A command is run in a thread of its own; its result comes to `finish_system`, with the address.
  pub glirc_thread : Bytes → ℕ → World → World
  pub glirc_free_string : Option Bytes → World → World
  pub glirc_free_strings : List Bytes → World → World
