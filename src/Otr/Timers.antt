-- ===== src/Otr/Timers.antt =====
-- The timer with which otr-extension/glirc-otr.cpp polls libotr, among the client's timers.
pub mod Events
pub mod Commands
pub mod Reach
pub mod Polling
use irc_core.Base.{
  ◌^◌, ◌%◌, ◌*◌, codes, ℕ, ◌≡◌, refl, sym, ap, ◌∙◌, Bool, true, false, Option, none, some, List, [],
  ◌∷◌, Bytes, ltb, Bool-cases, inl, inr, if◌then◌else◌,
}
use irc_core.Client.{Client, Message, MessageCode}
use irc_core.Otr.Libotr.{
  Libotr, Op, op_ask_policy, op_inject_message, op_max_message_size, op_handle_msg_event,
  op_is_logged_in, op_timer_control, op_gone_secure, op_still_secure, op_handle_smp_event,
  op_write_fingerprints, op_new_fingerprint, op_create_privkey, op_create_instag, Run, done, call,
  SmpEvent,
}
use irc_core.Otr.Session.{
  OpData, schedule_timer, timer_control, milliseconds, drop_timer, start_timer,
}
use irc_core.Otr.Callbacks.{
  if_path-elim, handle, run, state_path, print_status, smp_lines, msg_lines, send_text,
  inject_message, handle_smp_event, handle_msg_event, is_logged_in, gone_secure, still_secure,
  new_fingerprint, write_fingerprints, create_privkey, create_instag,
}
use irc_core.Otr.Wishes.{Wishes}
use irc_core.Otr.Observed.{
  Observer, see-smp_lines, see-msg_lines, see-write_to_file, see-create_privkey, see-create_instag,
}

-- What is relied on: libotr has its wishes, and `pending` are the timers that the client has for the
-- extension, each with its identifier and the milliseconds that it was set for. To set one adds it, to cancel the only one leaves none, and nothing else that the extension calls changes them.
pub record Timers (G : Client) (O : Libotr G.World) (self : ℕ) : Type 0 where
  pub wishes : Wishes O
  pub pending : G.World → List (ℕ × ℕ)
  pub pending-set :
      (ms : ℕ) (w : G.World)
      → let (tid, w') = G.glirc_set_timer ms self w in pending w' ≡ (tid, ms) ∷ pending w
  pub pending-cancel :
      (tid ms : ℕ) (w : G.World)
      → pending w ≡ (tid, ms) ∷ []
      → pending (G.glirc_cancel_timer tid w).1 ≡ []
  pub pending-print :
      (code : MessageCode) (text : Option Bytes) (w : G.World)
      → pending (G.glirc_print code text w) ≡ pending w
  pub pending-inject_chat :
      (net src tgt text : Bytes) (w : G.World)
      → pending (G.glirc_inject_chat net src tgt text w).1 ≡ pending w
  pub pending-send_message :
      (msg : Message) (w : G.World) → pending (G.glirc_send_message msg w).1 ≡ pending w
  pub pending-is_logged_on :
      (net tgt : Bytes) (w : G.World) → pending (G.glirc_is_logged_on net tgt w).1 ≡ pending w
  pub pending-is_channel :
      (net tgt : Bytes) (w : G.World) → pending (G.glirc_is_channel net tgt w).1 ≡ pending w
  pub pending-my_nick : (net : Bytes) (w : G.World) → pending (G.glirc_my_nick net w).1 ≡ pending w
  pub pending-current_focus : (w : G.World) → pending (G.glirc_current_focus w).2 ≡ pending w
  pub pending-free_string :
      (s : Option Bytes) (w : G.World) → pending (G.glirc_free_string s w) ≡ pending w
  pub pending-write_fingerprints :
      (path : Bytes) (us : O.Us) (w : G.World)
      → pending (O.otrl_privkey_write_fingerprints path us w) ≡ pending w
  pub pending-privkey_generate :
      (path accountname protocol : Bytes) (us : O.Us) (w : G.World)
      → pending (O.otrl_privkey_generate path accountname protocol us w).1 ≡ pending w
  pub pending-instag_generate :
      (path accountname protocol : Bytes) (us : O.Us) (w : G.World)
      → pending (O.otrl_instag_generate path accountname protocol us w).1 ≡ pending w
  pub pending-privkey_read :
      (path : Bytes) (us : O.Us) (w : G.World)
      → pending (O.otrl_privkey_read path us w).1 ≡ pending w
  pub pending-instag_read :
      (path : Bytes) (us : O.Us) (w : G.World)
      → pending (O.otrl_instag_read path us w).1 ≡ pending w
  pub pending-read_fingerprints :
      (path : Bytes) (us : O.Us) (w : G.World)
      → pending (O.otrl_privkey_read_fingerprints path us w).1 ≡ pending w

-- Seconds in milliseconds, in 64 bits.
abbrev pub delay : ℕ → ℕ
delay seconds = (1000 * seconds) % 2 ^ 64

-- The client's timers are the one that the extension has, set for the milliseconds `ms`, or none.
abbrev pub OneOf : {Us : Type 0} → ℕ → List (ℕ × ℕ) → OpData Us → Type 0
OneOf ms timers d = timers ≡ (if d.timer_active then (d.timer_id, ms) ∷ [] else [])

-- The timer is set for the interval that the extension keeps.
abbrev pub One : {Us : Type 0} → List (ℕ × ℕ) → OpData Us → Type 0
One timers d = OneOf (delay d.timer_interval) timers d

-- There is a timer if and only if the interval that the extension keeps is not 0.
abbrev pub Armed : {Us : Type 0} → OpData Us → Type 0
Armed d = d.timer_active ≡ ltb 0 d.timer_interval

module _ (G : Client) (O : Libotr G.World) (home : Option Bytes) (self : ℕ)
    (T : Timers G O self) where
  open G use {World}
  open O use {Us}
  open T use {
    pending, pending-set, pending-cancel, pending-inject_chat, pending-send_message,
    pending-is_logged_on, pending-write_fingerprints, pending-privkey_generate,
    pending-instag_generate,
  }

  drop_timer-pending :
      (active : Bool) (tid ms : ℕ) (w : World)
      → pending w ≡ (if active then (tid, ms) ∷ [] else [])
      → pending (drop_timer G O self active tid w) ≡ []
  unfolding drop_timer
  drop_timer-pending true tid ms w h = pending-cancel tid ms w h
  drop_timer-pending false tid ms w h = h

  start_timer-One :
      (active : Bool) (d : OpData Us) (w : World)
      → pending w ≡ []
      → active ≡ ltb 0 d.timer_interval
      → let (d', w') = start_timer G O self active d w in One (pending w') d' × Armed d'
  unfolding start_timer
  start_timer-One true d w empty h = (
    pending-set (milliseconds d.timer_interval) w
        ∙ ap
            (λ (ts : List (ℕ × ℕ)).
              ((start_timer G O self true d w).0.timer_id, delay d.timer_interval) ∷ ts)
            empty,
    h,
  )
  start_timer-One false d w empty h = (empty, h)

  pub schedule_timer-One :
      (ms : ℕ) (d : OpData Us) (w : World)
      → OneOf ms (pending w) d
      → let (d', w') = schedule_timer G O self d w in One (pending w') d' × Armed d'
  unfolding schedule_timer
  schedule_timer-One ms d w one =
      start_timer-One (ltb 0 d.timer_interval) d _
        (drop_timer-pending d.timer_active d.timer_id ms w one) refl

  -- What a call leaves: the one timer, and its condition if it held before.
  abbrev pub Keeps : {A : Type 0} → OpData Us → A × OpData Us × World → Type 0
  Keeps d (a, d', w') = One (pending w') d' × (Armed d → Armed d')

  -- The timers are not seen to change by what the operations show and write.
  abbrev watch : Observer G O (List (ℕ × ℕ))
  watch = record {
    see = pending;
    see-inject_chat = pending-inject_chat;
    see-is_logged_on = pending-is_logged_on;
    see-write_fingerprints = pending-write_fingerprints;
    see-privkey_generate = pending-privkey_generate;
    see-instag_generate = pending-instag_generate;
  }

  pub write_fingerprints-pending :
      (us : Us) (w : World) → pending (write_fingerprints G O home self us w) ≡ pending w
  write_fingerprints-pending us w = see-write_to_file G O home self watch us w

  send_text-pending :
      (protocol recipient message : Bytes) (w : World)
      → pending (send_text G O home self protocol recipient message w) ≡ pending w
  send_text-pending protocol recipient [] w = refl
  send_text-pending protocol recipient (c ∷ cs) w = pending-send_message _ w

  pub handle-Keeps :
      (op : Op) (d : OpData Us) (w : World)
      → One (pending w) d
      → Keeps d (handle G O home self op d w)
  unfolding handle handle_smp_event handle_msg_event inject_message is_logged_in gone_secure
      still_secure new_fingerprint print_status timer_control
  handle-Keeps (op_inject_message accountname protocol recipient message) d w one =
      (send_text-pending protocol recipient _ w ∙ one, λ h. h)
  handle-Keeps op_ask_policy d w one = (one, λ h. h)
  handle-Keeps (op_max_message_size c) d w one = (one, λ h. h)
  handle-Keeps (op_handle_msg_event event c message) d w one =
      (see-msg_lines G O home self watch d.us c message _ w ∙ one, λ h. h)
  handle-Keeps (op_is_logged_in accountname protocol recipient) d w one =
      (pending-is_logged_on protocol recipient w ∙ one, λ h. h)
  handle-Keeps (op_timer_control interval) d w one =
      let (one', armed) = schedule_timer-One _ (record d { timer_interval = interval }) w one in
      (one', λ h. armed)
  handle-Keeps (op_gone_secure c) d w one = (pending-inject_chat _ _ _ _ w ∙ one, λ h. h)
  handle-Keeps (op_still_secure c is_reply) d w one = (pending-inject_chat _ _ _ _ w ∙ one, λ h. h)
  handle-Keeps (op_handle_smp_event event c question) d w one =
      (see-smp_lines G O home self watch d.us event c question _ w ∙ one, λ h. h)
  handle-Keeps op_write_fingerprints d w one = (write_fingerprints-pending d.us w ∙ one, λ h. h)
  handle-Keeps (op_new_fingerprint accountname net tgt fp) d w one =
      (pending-inject_chat _ _ _ _ w ∙ one, λ h. h)
  handle-Keeps (op_create_privkey accountname protocol) d w one =
      (see-create_privkey G O home self watch accountname protocol d.us w ∙ one, λ h. h)
  handle-Keeps (op_create_instag accountname protocol) d w one =
      (see-create_instag G O home self watch accountname protocol d.us w ∙ one, λ h. h)

  -- Whatever libotr asks for while it runs.
  pub run-Keeps :
      {A : Type 0} (r : Run Us A) (d : OpData Us) (w : World)
      → One (pending w) d
      → Keeps d (run G O home self r d w)
  unfolding run
  run-Keeps (done a us) d w one = (one, λ h. h)
  run-Keeps (call op us k) d w one =
      let (one', armed') = handle-Keeps op (record d { us = us }) w one in
      let (answer, d', w') = handle G O home self op (record d { us = us }) w in
      let (one'', armed'') = run-Keeps (k answer d'.us) d' w' one' in
      (one'', λ h. armed'' (armed' h))
