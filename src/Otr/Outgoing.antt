-- ===== src/Otr/Outgoing.antt =====
-- What the extension of otr-extension/glirc-otr.cpp sends to the server while libotr runs.
pub mod Events
pub mod Commands
pub mod Whole
use irc_core.Base.{
  ℕ, ◌≡◌, ◌≢◌, refl, ◌∙◌, sym, subst, ◌⊎◌, inl, inr, Bool, true, false, Option, List, [], ◌∷◌,
  Bytes, codes, ltb,
}
use irc_core.Client.{Client, Message, MessageCode, outgoing}
use irc_core.Otr.Libotr.{
  Libotr, Op, op_ask_policy, op_inject_message, op_max_message_size, op_handle_msg_event,
  op_is_logged_in, op_timer_control, op_gone_secure, op_still_secure, op_handle_smp_event,
  op_write_fingerprints, op_new_fingerprint, op_create_privkey, op_create_instag, Run, done, call,
  MessageType, nototr, tagged_plaintext, query, other_type,
}
use irc_core.Otr.Session.{OpData, is_empty, drop_timer, start_timer, schedule_timer, timer_control}
use irc_core.Otr.Texts.{query_text}
use irc_core.Otr.Callbacks.{
  readable, send_text, inject_message, handle, run, handle_smp_event, handle_msg_event,
  is_logged_in, gone_secure, still_secure, new_fingerprint, print_status,
}
use irc_core.Otr.Observed.{
  Observer, see-smp_lines, see-msg_lines, see-write_to_file, see-create_privkey, see-create_instag,
}

-- What is relied on: `see` tells the messages sent, the last one first. Sending adds the message; a
-- timer, a question, a shown text and a file that is read change none.
pub record Outbox (G : Client) (O : Libotr G.World) (self : ℕ) : Type 0 where
  pub observer : Observer G O (List Message)
  pub sent-send :
      (msg : Message) (w : G.World)
      → observer.see (G.glirc_send_message msg w).1 ≡ msg ∷ observer.see w
  pub sent-set :
      (ms : ℕ) (w : G.World) → observer.see (G.glirc_set_timer ms self w).1 ≡ observer.see w
  pub sent-is_channel :
      (net tgt : Bytes) (w : G.World)
      → observer.see (G.glirc_is_channel net tgt w).1 ≡ observer.see w
  pub sent-my_nick :
      (net : Bytes) (w : G.World) → observer.see (G.glirc_my_nick net w).1 ≡ observer.see w
  pub sent-free_string :
      (text : Option Bytes) (w : G.World)
      → observer.see (G.glirc_free_string text w) ≡ observer.see w
  pub sent-print :
      (code : MessageCode) (text : Option Bytes) (w : G.World)
      → observer.see (G.glirc_print code text w) ≡ observer.see w
  pub sent-current_focus : (w : G.World) → observer.see (G.glirc_current_focus w).2 ≡ observer.see w
  pub sent-privkey_read :
      (path : Bytes) (us : O.Us) (w : G.World)
      → observer.see (O.otrl_privkey_read path us w).1 ≡ observer.see w
  pub sent-instag_read :
      (path : Bytes) (us : O.Us) (w : G.World)
      → observer.see (O.otrl_instag_read path us w).1 ≡ observer.see w
  pub sent-read_fingerprints :
      (path : Bytes) (us : O.Us) (w : G.World)
      → observer.see (O.otrl_privkey_read_fingerprints path us w).1 ≡ observer.see w
  pub sent-cancel :
      (tid : ℕ) (w : G.World) → observer.see (G.glirc_cancel_timer tid w).1 ≡ observer.see w

module _ (G : Client) (O : Libotr G.World) (home : Option Bytes) (self : ℕ)
    (B : Outbox G O self) where
  open G use {World}
  open O use {Us, otrl_proto_message_type}
  open B use {observer, sent-send, sent-set, sent-cancel}

  abbrev pub sent : World → List Message
  sent w = observer.see w

  -- A text that may be sent: the readable query, or one that is not libotr's query, with its HTML.
  abbrev pub Sendable : Bytes → Type 0
  Sendable text = (text ≡ query_text) ⊎ (otrl_proto_message_type text ≢ query)

  -- A message to one recipient, with a text that is not empty.
  pub data Proper : Message → Type 0 where
    proper :
        (network recipient text : Bytes)
        → is_empty text ≡ false
        → Sendable text
        → Proper (outgoing network (codes "PRIVMSG") (recipient ∷ text ∷ []))

  -- Some proper messages are added.
  pub data Grown (before : List Message) : List Message → Type 0 where
    same : Grown before before
    more :
        (msg : Message) {after : List Message}
        → Proper msg
        → Grown before after
        → Grown before (msg ∷ after)

  pub Grown-trans : {a b c : List Message} → Grown a b → Grown b c → Grown a c
  Grown-trans g same = g
  Grown-trans g (more msg p h) = more msg p (Grown-trans g h)

  pub unseen : (w : World) {w' : World} → sent w' ≡ sent w → Grown (sent w) (sent w')
  unseen w e = subst (Grown (sent w)) (sym e) same

  readable-Sendable :
      (t : MessageType) (message : Bytes)
      → otrl_proto_message_type message ≡ t
      → Sendable (readable t message)
  readable-Sendable query message h = inl refl
  readable-Sendable nototr message h = inr (λ e. cc)
  readable-Sendable tagged_plaintext message h = inr (λ e. cc)
  readable-Sendable (other_type n) message h = inr (λ e. cc)

  send_text-Grown :
      (network recipient text : Bytes) (w : World)
      → Sendable text
      → Grown (sent w) (sent (send_text G O home self network recipient text w))
  send_text-Grown network recipient [] w h = same
  send_text-Grown network recipient (c ∷ cs) w h =
      subst (Grown (sent w)) (sym (sent-send _ w))
        (more _ (proper network recipient (c ∷ cs) refl h) same)

  drop_timer-sent :
      (active : Bool) (tid : ℕ) (w : World) → sent (drop_timer G O self active tid w) ≡ sent w
  unfolding drop_timer
  drop_timer-sent true tid w = sent-cancel tid w
  drop_timer-sent false tid w = refl

  start_timer-sent :
      (active : Bool) (d : OpData Us) (w : World)
      → sent (start_timer G O self active d w).1 ≡ sent w
  unfolding start_timer
  start_timer-sent true d w = sent-set _ w
  start_timer-sent false d w = refl

  pub schedule_timer-sent :
      (d : OpData Us) (w : World) → sent (schedule_timer G O self d w).1 ≡ sent w
  unfolding schedule_timer
  schedule_timer-sent d w =
      start_timer-sent (ltb 0 d.timer_interval) d _ ∙ drop_timer-sent d.timer_active d.timer_id w

  abbrev shown :
      (net src tgt text : Bytes) (w : World)
      → sent (G.glirc_inject_chat net src tgt text w).1 ≡ sent w
  shown net src tgt text w = observer.see-inject_chat net src tgt text w

  handle-Grown :
      (op : Op) (d : OpData Us) (w : World)
      → let (answer, d', w') = handle G O home self op d w in Grown (sent w) (sent w')
  unfolding handle handle_smp_event handle_msg_event inject_message is_logged_in gone_secure
      still_secure new_fingerprint print_status timer_control
  handle-Grown (op_inject_message accountname protocol recipient message) d w =
      send_text-Grown protocol recipient _ w (readable-Sendable _ message refl)
  handle-Grown op_ask_policy d w = same
  handle-Grown (op_max_message_size c) d w = same
  handle-Grown (op_handle_msg_event event c message) d w =
      unseen w (see-msg_lines G O home self observer d.us c message _ w)
  handle-Grown (op_is_logged_in accountname protocol recipient) d w =
      unseen w (observer.see-is_logged_on protocol recipient w)
  handle-Grown (op_timer_control interval) d w =
      unseen w (schedule_timer-sent (record d { timer_interval = interval }) w)
  handle-Grown (op_gone_secure c) d w = unseen w (shown _ _ _ _ w)
  handle-Grown (op_still_secure c is_reply) d w = unseen w (shown _ _ _ _ w)
  handle-Grown (op_handle_smp_event event c question) d w =
      unseen w (see-smp_lines G O home self observer d.us event c question _ w)
  handle-Grown op_write_fingerprints d w =
      unseen w (see-write_to_file G O home self observer d.us w)
  handle-Grown (op_new_fingerprint accountname net tgt fp) d w = unseen w (shown _ _ _ _ w)
  handle-Grown (op_create_privkey accountname protocol) d w =
      unseen w (see-create_privkey G O home self observer accountname protocol d.us w)
  handle-Grown (op_create_instag accountname protocol) d w =
      unseen w (see-create_instag G O home self observer accountname protocol d.us w)

  -- Whatever libotr asks for in a call, the extension sends messages of one kind only: a PRIVMSG to one
  -- recipient, with a text that is not empty and is the readable query or no query of libotr's.
  pub run-Grown :
      {A : Type 0} (r : Run Us A) (d : OpData Us) (w : World)
      → let (result, d', w') = run G O home self r d w in Grown (sent w) (sent w')
  unfolding run
  run-Grown (done a us) d w = same
  run-Grown (call op us k) d w =
      let (answer, d', w') = handle G O home self op (record d { us = us }) w in
      Grown-trans (handle-Grown op (record d { us = us }) w) (run-Grown (k answer d'.us) d' w')
