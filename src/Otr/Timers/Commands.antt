-- ===== src/Otr/Timers/Commands.antt =====
-- The timer of otr-extension/glirc-otr.cpp behind its commands.
use irc_core.Base.{
  codes, ℕ, ◌≡◌, refl, ◌∙◌, sym, Bool, true, false, ◌||◌, Option, none, some, List, [], ◌∷◌, Bytes,
  if-elim,
}
use irc_core.Client.{Client, Command}
use irc_core.Otr.Case.{normalize_case}
use irc_core.Otr.Libotr.{Libotr}
use irc_core.Otr.Session.{OpData, is_empty, current_focus, get_current_context, my_nick}
use irc_core.Otr.Callbacks.{print_status}
use irc_core.Otr.Methods.{
  message_disconnect_all_instances, message_initiate_smp, message_respond_smp,
}
use irc_core.Otr.CommandTable.{
  Func, cmd_status, cmd_secret, cmd_ask, cmd_start, cmd_end, cmd_trust, cmd_untrust, cmd_version,
  cmd_help, CmdImpl, cmd_impls,
}
use irc_core.Otr.Commands.{
  start_session, propose, end_session, end_as, tell_ended, on_context, ask, secret, respond, mark,
  set_trust, local_line, remote_line, status_lines, status, version, help, perform, enter_command,
  command_entrypoint, say,
}
use irc_core.Otr.Timers.{Timers, write_fingerprints-pending}
use irc_core.Otr.Timers.Events.{Fine, Fine-world, run-Fine, my_nick-pending}

module _ (G : Client) (O : Libotr G.World) (home : Option Bytes) (self : ℕ)
    (T : Timers G O self) where
  open G use {World}
  open O use {Us, context}
  open T use {
    wishes, pending, pending-print, pending-inject_chat, pending-send_message, pending-is_channel,
    pending-current_focus, pending-free_string,
  }
  open wishes use {wish-set_trust, honest-disconnect, honest-initiate_smp, honest-respond_smp}

  abbrev Good : OpData Us × World → Type 0
  Good = Fine G O home self T

  world : (d : OpData Us) {w w' : World} → pending w' ≡ pending w → Good (d, w) → Good (d, w')
  world = Fine-world G O home self T

  current_focus-pending : (w : World) → pending (current_focus G w).1 ≡ pending w
  unfolding current_focus
  current_focus-pending w =
      pending-free_string _ _ ∙ pending-free_string _ _ ∙ pending-current_focus w

  get_current_context-pending :
      (us : Us) (w : World) → pending (get_current_context G O us w).1 ≡ pending w
  unfolding get_current_context
  get_current_context-pending us w =
      let ((net, tgt), w') = current_focus G w in
      if-elim (λ (r : Option ℕ × World). pending r.1 ≡ pending w) (is_empty net || is_empty tgt)
        (current_focus-pending w)
        (if-elim (λ (r : Option ℕ × World). pending r.1 ≡ pending w) (is_empty (my_nick G net w').0)
          (my_nick-pending G O home self T net w' ∙ current_focus-pending w)
          (my_nick-pending G O home self T net w' ∙ current_focus-pending w))

  on_context-Fine :
      (d : OpData Us) (without : World → OpData Us × World)
      (with_one : ℕ → World → OpData Us × World) (r : Option ℕ × World)
      → Good (d, r.1)
      → ((w : World) → Good (d, w) → Good (without w))
      → ((c : ℕ) (w : World) → Good (d, w) → Good (with_one c w))
      → Good (on_context G O home self without with_one r)
  on_context-Fine d without with_one (none, w) good h k = h w good
  on_context-Fine d without with_one (some c, w) good h k = k c w good

  say-pending :
      (us : Us) (c : ℕ) (text : Bytes) (w : World)
      → pending (say G O home self us c text w) ≡ pending w
  unfolding print_status
  say-pending us c text w = pending-inject_chat _ _ _ _ w

  propose-Fine :
      (net tgt : Bytes) (d : OpData Us) (c : Bool × World)
      → Good (d, c.1)
      → Good (propose G O home self net tgt d c)
  propose-Fine net tgt d (true, w) good = world d (pending-print _ _ w) good
  propose-Fine net tgt d (false, w) good = world d (pending-send_message _ w) good

  start_session-Fine :
      (d : OpData Us) (w : World) → Good (d, w) → Good (start_session G O home self d w)
  unfolding start_session
  start_session-Fine d w good =
      let ((net, tgt), w') = current_focus G w in
      let good' : Good (d, w') = world d (current_focus-pending w) good in
      if-elim Good (is_empty net || is_empty tgt) (world d (pending-print _ _ w') good')
        (propose-Fine net tgt d _ (world d (pending-is_channel net tgt w') good'))

  tell_ended-Fine :
      (net tgt : Bytes) (r : Unit {0} × OpData Us × World)
      → Good (r.1, r.2)
      → Good (tell_ended G O home self net tgt r)
  tell_ended-Fine net tgt (done, d, w) good = world d (pending-inject_chat _ _ _ _ w) good

  end_as-Fine :
      (net tgt : Bytes) (d : OpData Us) (me : Bytes × World)
      → Good (d, me.1)
      → Good (end_as G O home self net tgt d me)
  unfolding message_disconnect_all_instances
  end_as-Fine net tgt d (me, w) good =
      let account = normalize_case me in
      if-elim Good (is_empty me) good (
        tell_ended-Fine net tgt (message_disconnect_all_instances G O home self account net tgt d w)
          (run-Fine G O home self T _ d w (honest-disconnect _ _ _ d.us) good))

  end_session-Fine :
      (d : OpData Us) (w : World) → Good (d, w) → Good (end_session G O home self d w)
  unfolding end_session
  end_session-Fine d w good =
      let ((net, tgt), w') = current_focus G w in
      let good' : Good (d, w') = world d (current_focus-pending w) good in
      if-elim Good (is_empty net || is_empty tgt) good'
        (end_as-Fine net _ d _ (world d (my_nick-pending G O home self T net w') good'))

  in_context :
      (d : OpData Us) (w : World) → Good (d, w) → Good (d, (get_current_context G O d.us w).1)
  in_context d w good = world d (get_current_context-pending d.us w) good

  ask-Fine :
      (parameters : Bytes) (d : OpData Us) (w : World)
      → Good (d, w)
      → Good (ask G O home self parameters d w)
  unfolding ask message_initiate_smp
  ask-Fine parameters d w good =
      on_context-Fine d _ _ (get_current_context G O d.us w) (in_context d w good) (λ w' h. h)
        (λ c w' h. run-Fine G O home self T _ d w' (honest-initiate_smp c parameters d.us) h)

  respond-Fine :
      (c : ℕ) (parameters : Bytes) (expected : Bool) (d : OpData Us) (w : World)
      → Good (d, w)
      → Good (respond G O home self c parameters expected d w)
  unfolding respond message_respond_smp
  respond-Fine c parameters true d w good =
      run-Fine G O home self T _ d w (honest-respond_smp c parameters d.us) good
  respond-Fine c parameters false d w good = good

  secret-Fine :
      (parameters : Bytes) (d : OpData Us) (w : World)
      → Good (d, w)
      → Good (secret G O home self parameters d w)
  unfolding secret
  secret-Fine parameters d w good =
      on_context-Fine d _ _ (get_current_context G O d.us w) (in_context d w good) (λ w' h. h)
        (λ c w' h. respond-Fine c parameters _ d w' h)

  mark-Fine :
      (trust told : Bytes) (c : ℕ) (fp : Option ℕ) (d : OpData Us) (w : World)
      → Good (d, w)
      → Good (mark G O home self trust told c fp d w)
  unfolding mark
  mark-Fine trust told c none d w good = good
  mark-Fine trust told c (some fp) d w (one, armed, heard) = (
    say-pending _ c _ _ ∙ write_fingerprints-pending G O home self T _ w ∙ one,
    armed,
    heard ∙ sym (wish-set_trust fp trust d.us),
  )

  set_trust-Fine :
      (trust told : Bytes) (d : OpData Us) (w : World)
      → Good (d, w)
      → Good (set_trust G O home self trust told d w)
  unfolding set_trust
  set_trust-Fine trust told d w good =
      on_context-Fine d _ _ (get_current_context G O d.us w) (in_context d w good) (λ w' h. h)
        (λ c w' h. mark-Fine trust told c _ d w' h)

  local_line-pending :
      (myfp : Option Bytes) (us : Us) (c : ℕ) (w : World)
      → pending (local_line G O home self myfp us c w) ≡ pending w
  local_line-pending none us c w = refl
  local_line-pending (some fp) us c w = say-pending us c _ w

  remote_line-pending :
      (fp : Option ℕ) (us : Us) (c : ℕ) (w : World)
      → pending (remote_line G O home self fp us c w) ≡ pending w
  remote_line-pending none us c w = refl
  remote_line-pending (some fp) us c w = say-pending us c _ w

  status_lines-pending :
      (us : Us) (c : ℕ) (w : World) → pending (status_lines G O home self us c w) ≡ pending w
  status_lines-pending us c w =
      say-pending us c _ _
      ∙ say-pending us c _ _
      ∙ remote_line-pending _ us c _
      ∙ local_line-pending _ us c w

  status-Fine : (d : OpData Us) (w : World) → Good (d, w) → Good (status G O home self d w)
  unfolding status
  status-Fine d w good =
      on_context-Fine d _ _ (get_current_context G O d.us w) (in_context d w good)
        (λ w' h. world d (pending-print _ _ w') h)
        (λ c w' h. world d (status_lines-pending d.us c w') h)

  help-pending : (cs : List CmdImpl) (w : World) → pending (help G O home self cs w) ≡ pending w
  unfolding help
  help-pending [] w = refl
  help-pending (c ∷ cs) w = help-pending cs _ ∙ pending-print _ _ w

  perform-Fine :
      (f : Func) (parameters : Bytes) (d : OpData Us) (w : World)
      → Good (d, w)
      → Good (perform G O home self f parameters d w)
  unfolding perform version
  perform-Fine cmd_status parameters d w good = status-Fine d w good
  perform-Fine cmd_secret parameters d w good = secret-Fine parameters d w good
  perform-Fine cmd_ask parameters d w good = ask-Fine parameters d w good
  perform-Fine cmd_start parameters d w good = start_session-Fine d w good
  perform-Fine cmd_end parameters d w good = end_session-Fine d w good
  perform-Fine cmd_trust parameters d w good =
      set_trust-Fine (codes "manual") (codes "Fingerprint trusted") d w good
  perform-Fine cmd_untrust parameters d w good =
      set_trust-Fine [] (codes "Fingerprint untrusted") d w good
  perform-Fine cmd_version parameters d w good = world d (pending-print _ _ w) good
  perform-Fine cmd_help parameters d w good = world d (help-pending cmd_impls w) good

  enter_command-Fine :
      (c : Option CmdImpl) (parameters : Bytes) (d : OpData Us) (w : World)
      → Good (d, w)
      → Good (enter_command G O home self c parameters d w)
  unfolding enter_command
  enter_command-Fine none parameters d w good = world d (pending-print _ _ w) good
  enter_command-Fine (some c) parameters d w good = perform-Fine c.func parameters d w good

  pub command_entrypoint-Fine :
      (cmd : Command) (d : OpData Us) (w : World)
      → Good (d, w)
      → Good (command_entrypoint G O home self cmd d w)
  unfolding command_entrypoint
  command_entrypoint-Fine cmd d w good = enter_command-Fine _ _ d w good
