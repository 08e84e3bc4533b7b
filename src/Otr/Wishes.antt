-- ===== src/Otr/Wishes.antt =====
-- What libotr asks of otr-extension/glirc-otr.cpp by `timer_control`, and the interval that the extension
-- keeps.
use irc_core.Base.{Bool, true, false, codes, ℕ, ◌≡◌, refl, sym, subst, Option, Bytes}
use irc_core.Client.{Client}
use irc_core.Otr.Libotr.{
  Libotr, Op, op_ask_policy, op_inject_message, op_max_message_size, op_handle_msg_event,
  op_is_logged_in, op_timer_control, op_gone_secure, op_still_secure, op_handle_smp_event,
  op_write_fingerprints, op_new_fingerprint, op_create_privkey, op_create_instag, Answer, Run, done,
  call,
}
use irc_core.Otr.Session.{OpData, start_timer, schedule_timer, timer_control}
use irc_core.Otr.Callbacks.{handle, run, if_path-elim, state_path, create_privkey, create_instag}

-- The interval that libotr has last asked for, in seconds, behind a call of an operation; 0 is for no
-- polls.
abbrev pub asked : Op → ℕ → ℕ
asked (op_timer_control interval) n = interval
asked op n = n

-- What libotr does accords with its wish: it is the interval that it has last asked for, `n` before
-- the rest of this run. Between the calls of the operations its wish need not be up to date.
abbrev pub Honest : {Us A : Type 0} → (Us → ℕ) → ℕ → Run Us A → Type 0
Honest wish n (done a us) = wish us ≡ n
Honest {Us} wish n (call op us k) =
    (answer : Answer) (us' : Us) → wish us' ≡ wish us → Honest wish (asked op n) (k answer us')

-- How often libotr wants to be polled, by its state: it asks for this by `timer_control` whenever its
-- wish changes, which is so in its message functions only.
pub record Wishes {W : Type 0} (O : Libotr W) : Type 0 where
  pub wish : O.Us → ℕ
  pub wish-create : wish O.otrl_userstate_create ≡ 0
  pub wish-set_trust :
      (fp : ℕ) (trust : Bytes) (us : O.Us) → wish (O.otrl_context_set_trust fp trust us) ≡ wish us
  pub wish-privkey_generate :
      (path accountname protocol : Bytes) (us : O.Us) (w : W)
      → wish (O.otrl_privkey_generate path accountname protocol us w).0 ≡ wish us
  pub wish-instag_generate :
      (path accountname protocol : Bytes) (us : O.Us) (w : W)
      → wish (O.otrl_instag_generate path accountname protocol us w).0 ≡ wish us
  pub wish-privkey_read :
      (path : Bytes) (us : O.Us) (w : W) → wish (O.otrl_privkey_read path us w).0 ≡ wish us
  pub wish-instag_read :
      (path : Bytes) (us : O.Us) (w : W) → wish (O.otrl_instag_read path us w).0 ≡ wish us
  pub wish-read_fingerprints :
      (path : Bytes) (us : O.Us) (w : W)
      → wish (O.otrl_privkey_read_fingerprints path us w).0 ≡ wish us
  pub honest-sending :
      (accountname protocol username message : Bytes) (us : O.Us)
      → Honest wish (wish us) (O.otrl_message_sending accountname protocol username message us)
  pub honest-receiving :
      (accountname protocol username message : Bytes) (us : O.Us)
      → Honest wish (wish us) (O.otrl_message_receiving accountname protocol username message us)
  pub honest-disconnect :
      (accountname protocol username : Bytes) (us : O.Us)
      → Honest wish
          (wish us)
          (O.otrl_message_disconnect_all_instances accountname protocol username us)
  pub honest-initiate_smp :
      (c : ℕ) (secret : Bytes) (us : O.Us)
      → Honest wish (wish us) (O.otrl_message_initiate_smp c secret us)
  pub honest-respond_smp :
      (c : ℕ) (secret : Bytes) (us : O.Us)
      → Honest wish (wish us) (O.otrl_message_respond_smp c secret us)
  pub honest-poll : (us : O.Us) → Honest wish (wish us) (O.otrl_message_poll us)

module _ (G : Client) (O : Libotr G.World) (home : Option Bytes) (self : ℕ) (V : Wishes O) where
  open G use {World}
  open O use {Us}
  open V use {wish, wish-privkey_generate, wish-instag_generate}

  -- The extension has the interval that libotr wishes.
  abbrev pub Heard : OpData Us → Type 0
  Heard d = d.timer_interval ≡ wish d.us

  -- The interval is `n`, and libotr's wish is that of `us`.
  abbrev Told : ℕ → Us → OpData Us → Type 0
  Told n us d = (d.timer_interval ≡ n) × (wish d.us ≡ wish us)

  start_timer-Told :
      (active : Bool) (d : OpData Us) (w : World)
      → Told d.timer_interval d.us (start_timer G O self active d w).0
  unfolding start_timer
  start_timer-Told true d w = (refl, refl)
  start_timer-Told false d w = (refl, refl)

  pub schedule_timer-Told :
      (d : OpData Us) (w : World) → Told d.timer_interval d.us (schedule_timer G O self d w).0
  unfolding schedule_timer
  schedule_timer-Told d w = start_timer-Told _ d _

  wish-create_privkey :
      (accountname protocol : Bytes) (us : Us) (w : World)
      → wish (create_privkey G O home self accountname protocol us w).0 ≡ wish us
  unfolding create_privkey
  wish-create_privkey accountname protocol us w =
      if_path-elim (λ (r : Us × World). wish r.0 ≡ wish us) (state_path home (codes "keys")) refl
        (λ path. wish-privkey_generate path accountname protocol us w)

  wish-create_instag :
      (accountname protocol : Bytes) (us : Us) (w : World)
      → wish (create_instag G O home self accountname protocol us w).0 ≡ wish us
  unfolding create_instag
  wish-create_instag accountname protocol us w =
      if_path-elim (λ (r : Us × World). wish r.0 ≡ wish us) (state_path home (codes "instags")) refl
        (λ path. wish-instag_generate path accountname protocol us w)

  handle-Told :
      (op : Op) (d : OpData Us) (w : World)
      → Told (asked op d.timer_interval) d.us (handle G O home self op d w).1
  unfolding handle timer_control
  handle-Told (op_timer_control interval) d w =
      schedule_timer-Told (record d { timer_interval = interval }) w
  handle-Told (op_create_privkey accountname protocol) d w =
      (refl, wish-create_privkey accountname protocol d.us w)
  handle-Told (op_create_instag accountname protocol) d w =
      (refl, wish-create_instag accountname protocol d.us w)
  handle-Told (op_inject_message accountname protocol recipient message) d w = (refl, refl)
  handle-Told op_ask_policy d w = (refl, refl)
  handle-Told (op_max_message_size c) d w = (refl, refl)
  handle-Told (op_handle_msg_event event c message) d w = (refl, refl)
  handle-Told (op_is_logged_in accountname protocol recipient) d w = (refl, refl)
  handle-Told (op_gone_secure c) d w = (refl, refl)
  handle-Told (op_still_secure c is_reply) d w = (refl, refl)
  handle-Told (op_handle_smp_event event c question) d w = (refl, refl)
  handle-Told op_write_fingerprints d w = (refl, refl)
  handle-Told (op_new_fingerprint accountname net tgt fp) d w = (refl, refl)

  -- Whatever libotr asks for in a run.
  pub run-Heard :
      {A : Type 0} (r : Run Us A) (d : OpData Us) (w : World)
      → Honest wish d.timer_interval r
      → Heard (run G O home self r d w).1
  unfolding run
  run-Heard (done a us) d w honest = sym honest
  run-Heard (call op us k) d w honest =
      let (answer, d', w') = handle G O home self op (record d { us = us }) w in
      let (interval, kept) = handle-Told op (record d { us = us }) w in
      run-Heard (k answer d'.us) d' w' (
        subst (λ (n : ℕ). Honest wish n (k answer d'.us)) (sym interval) (honest answer d'.us kept))
