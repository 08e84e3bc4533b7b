-- ===== src/Otr/Methods.antt =====
-- otr-extension/OTR.cpp: the methods of the class `OTR`, which call libotr with the extension's
-- operations. A text without a length reaches libotr as a C string.
use irc_core.Base.{ℕ, Bool, true, false, Option, none, some, [], Bytes, c_string}
use irc_core.Client.{Client}
use irc_core.Otr.Libotr.{Libotr}
use irc_core.Otr.Session.{OpData}
use irc_core.Otr.Callbacks.{run}

abbrev pub is_some : Option Bytes → Bool
is_some none = false
is_some (some b) = true

abbrev pub new_text : Option Bytes → Bytes
new_text none = []
new_text (some newmsg) = newmsg

module _ (G : Client) (O : Libotr G.World) (home : Option Bytes) (self : ℕ) where
  open G use {World}
  open O use {
    Us, otrl_message_sending, otrl_message_receiving, otrl_message_disconnect_all_instances,
    otrl_message_initiate_smp, otrl_message_respond_smp, otrl_message_poll,
  }

  -- What a method does: it leaves a result, the extension's state and the client's.
  abbrev pub Does : Type 0 → Type 0
  Does A = OpData Us → World → A × OpData Us × World

  abbrev pub sent : (Bool × Option Bytes) × OpData Us × World → (Bool × Bool) × OpData Us × World
  sent ((err, newmsg), d, w) = ((err, is_some newmsg), d, w)

  -- Whether there was an error, and whether there is a message in place of this one.
  unfoldable pub message_sending : Bytes → Bytes → Bytes → Bytes → Does (Bool × Bool)
  message_sending accountname protocol username message d w = sent (
      run G O home self
        (otrl_message_sending (c_string accountname) (c_string protocol) (c_string username)
          (c_string message) d.us)
        d w)

  abbrev pub received :
      (Bool × Option Bytes) × OpData Us × World → (Bool × Bool × Bytes) × OpData Us × World
  received ((internal, newmsg), d, w) = ((internal, is_some newmsg, new_text newmsg), d, w)

  -- Whether the message was internal to the protocol, and whether there is a message in its place,
  -- with its text.
  unfoldable pub message_receiving : Bytes → Bytes → Bytes → Bytes → Does (Bool × Bool × Bytes)
  message_receiving accountname protocol username message d w = received (
      run G O home self
        (otrl_message_receiving (c_string accountname) (c_string protocol) (c_string username)
          (c_string message) d.us)
        d w)

  unfoldable pub message_disconnect_all_instances : Bytes → Bytes → Bytes → Does (Unit {0})
  message_disconnect_all_instances accountname protocol username d w =
      run G O home self
        (otrl_message_disconnect_all_instances (c_string accountname) (c_string protocol)
          (c_string username) d.us)
        d w

  -- The secret goes with its length.
  unfoldable pub message_initiate_smp : ℕ → Bytes → Does (Unit {0})
  message_initiate_smp c secret d w =
      run G O home self (otrl_message_initiate_smp c secret d.us) d w

  unfoldable pub message_respond_smp : ℕ → Bytes → Does (Unit {0})
  message_respond_smp c secret d w = run G O home self (otrl_message_respond_smp c secret d.us) d w

  unfoldable pub message_poll : Does (Unit {0})
  message_poll d w = run G O home self (otrl_message_poll d.us) d w
