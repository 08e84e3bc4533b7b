-- ===== src/Otr/Session.antt =====
-- otr-extension/glirc-otr.cpp: `struct OpData`, the state of the extension, its questions to the
-- client, and the timer with which it polls libotr. The extension's own address, which the client
-- keeps with a timer, is `self`.
use irc_core.Base.{
  ℕ, ◌*◌, ◌%◌, ◌^◌, Bool, true, false, ◌||◌, Option, none, some, [], ◌∷◌, Bytes, c_string, ltb,
  if◌then◌else◌,
}
use irc_core.Client.{Client}
use irc_core.Otr.Case.{normalize_case}
use irc_core.Otr.Libotr.{Libotr}
use irc_core.Otr.Files.{create}

-- The client token and the object's constant parts are parameters; `us` is the state of libotr.
pub record OpData (Us : Type 0) : Type 0 where
  pub us : Us
  pub timer_active : Bool
  pub timer_interval : ℕ
  pub timer_id : ℕ

-- `string(ptr, len)` of a string that the client may leave out
abbrev pub or_empty : Option Bytes → Bytes
or_empty none = []
or_empty (some b) = b

abbrev pub is_empty : Bytes → Bool
is_empty [] = true
is_empty (c ∷ cs) = false

-- `1000 * timer_interval` in an `unsigned long`
abbrev pub milliseconds : ℕ → ℕ
milliseconds interval = (1000 * interval) % 2 ^ 64

module _ (G : Client) where
  open G use {World, glirc_current_focus, glirc_free_string, glirc_my_nick, glirc_is_channel}

  unfoldable pub current_focus : World → (Bytes × Bytes) × World
  current_focus w =
      let (net, tgt, w') = glirc_current_focus w in
      ((or_empty net, or_empty tgt), glirc_free_string tgt (glirc_free_string net w'))

  -- The empty text where there is no nick.
  unfoldable pub nick_text : Option Bytes → World → Bytes × World
  nick_text none w = ([], w)
  nick_text (some me) w = (me, glirc_free_string (some me) w)

  unfoldable pub my_nick : Bytes → World → Bytes × World
  unfolding nick_text
  my_nick network w = let (me, w') = glirc_my_nick network w in nick_text me w'

  abbrev pub is_channel : Bytes → Bytes → World → Bool × World
  is_channel net tgt = glirc_is_channel net tgt

module _ (G : Client) (O : Libotr G.World) where
  open G use {World, glirc_cancel_timer, glirc_set_timer}
  open O use {Us, otrl_context_find}

  unfoldable pub new_op_data : OpData Us
  new_op_data = record { us = create O; timer_active = false; timer_interval = 0; timer_id = 0 }

  -- `OTR::context_find`
  abbrev pub context_find : Us → Bytes → Bytes → Bytes → Option ℕ
  context_find us username accountname protocol =
      otrl_context_find us (c_string username) (c_string accountname) (c_string protocol)

  abbrev pub found_for : Us → Bytes → Bytes → Bytes × World → Option ℕ × World
  found_for us net tgt (me, w) =
      if is_empty me
      then (none, w)
      else (context_find us (normalize_case tgt) (normalize_case me) net, w)

  unfoldable pub get_current_context : Us → World → Option ℕ × World
  unfolding my_nick current_focus
  get_current_context us w =
      let ((net, tgt), w') = current_focus G w in
      if is_empty net || is_empty tgt then (none, w') else found_for us net tgt (my_nick G net w')

  module _ (self : ℕ) where
    -- A pending timer is cancelled.
    unfoldable pub drop_timer : Bool → ℕ → World → World
    drop_timer true tid w = (glirc_cancel_timer tid w).1
    drop_timer false tid w = w

    unfoldable pub start_timer : Bool → OpData Us → World → OpData Us × World
    start_timer true d w =
        let (tid, w') = glirc_set_timer (milliseconds d.timer_interval) self w in
        (record d { timer_active = true; timer_id = tid }, w')
    start_timer false d w = (record d { timer_active = false }, w)

    unfoldable pub schedule_timer : OpData Us → World → OpData Us × World
    unfolding drop_timer start_timer
    schedule_timer d w =
        start_timer (ltb 0 d.timer_interval) d (drop_timer d.timer_active d.timer_id w)

    unfoldable pub timer_finished : OpData Us → OpData Us
    timer_finished d = record d { timer_active = false }

    -- `OpData::timer_control`; the interval is an `unsigned int`.
    unfoldable pub timer_control : ℕ → OpData Us → World → OpData Us × World
    unfolding schedule_timer
    timer_control interval d w = schedule_timer (record d { timer_interval = interval }) w
