-- ===== src/Otr/Outgoing/Commands.antt =====
-- What the commands of otr-extension/glirc-otr.cpp send to the server.
use irc_core.Base.{
  inl, codes, ℕ, ◌≡◌, refl, ◌∙◌, sym, subst, Bool, true, false, ◌||◌, Option, none, some, List, [],
  ◌∷◌, Bytes, if-elim, c_string,
}
use irc_core.Client.{Client, Message, Command}
use irc_core.Otr.Case.{normalize_case}
use irc_core.Otr.Libotr.{Libotr}
use irc_core.Otr.Session.{OpData, is_empty, is_channel, current_focus, get_current_context, my_nick}
use irc_core.Otr.Callbacks.{print_status}
use irc_core.Otr.Methods.{
  message_disconnect_all_instances, message_initiate_smp, message_respond_smp,
}
use irc_core.Otr.CommandTable.{
  Func, cmd_status, cmd_secret, cmd_ask, cmd_start, cmd_end, cmd_trust, cmd_untrust, cmd_version,
  cmd_help, CmdImpl, cmd_impls,
}
use irc_core.Otr.Commands.{
  start_session, propose, end_session, end_as, on_context, ask, secret, respond, mark, set_trust,
  local_line, remote_line, status_lines, status, version, help, perform, enter_command,
  command_entrypoint, say,
}
use irc_core.Otr.Observed.{see-write_to_file}
use irc_core.Otr.Outgoing.{Outbox, sent, Grown, proper, Grown-trans, unseen, run-Grown}
use irc_core.Otr.Outgoing.Events.{Sends, my_nick-Sends}

module _ (G : Client) (O : Libotr G.World) (home : Option Bytes) (self : ℕ)
    (B : Outbox G O self) where
  open G use {World}
  open O use {Us}
  open B use {
    observer, sent-send, sent-print, sent-is_channel, sent-current_focus, sent-free_string,
  }

  abbrev Adds : World → World → Type 0
  Adds = Sends G O home self B

  abbrev seen : World → List Message
  seen = sent G O home self B

  quietly : (w : World) {w' : World} → seen w' ≡ seen w → Adds w w'
  quietly w e = unseen G O home self B w e

  then : {w w' w'' : World} → Adds w w' → Adds w' w'' → Adds w w''
  then g h = Grown-trans G O home self B g h

  current_focus-sent : (w : World) → seen (current_focus G w).1 ≡ seen w
  unfolding current_focus
  current_focus-sent w = sent-free_string _ _ ∙ sent-free_string _ _ ∙ sent-current_focus w

  focus-Adds : (w : World) → Adds w (current_focus G w).1
  focus-Adds w = quietly w (current_focus-sent w)

  get_current_context-Adds : (us : Us) (w : World) → Adds w (get_current_context G O us w).1
  unfolding get_current_context
  get_current_context-Adds us w =
      let ((net, tgt), w') = current_focus G w in
      let asked = then (focus-Adds w) (my_nick-Sends G O home self B net w') in
      if-elim (λ (r : Option ℕ × World). Adds w r.1) (is_empty net || is_empty tgt) (focus-Adds w)
        (if-elim (λ (r : Option ℕ × World). Adds w r.1) (is_empty (my_nick G net w').0) asked asked)

  on_context-Adds :
      (w : World) (without : World → OpData Us × World) (with_one : ℕ → World → OpData Us × World)
      (r : Option ℕ × World)
      → Adds w r.1
      → ((w' : World) → Adds w' (without w').1)
      → ((c : ℕ) (w' : World) → Adds w' (with_one c w').1)
      → Adds w (on_context G O home self without with_one r).1
  on_context-Adds w without with_one (none, w') g h k = then g (h w')
  on_context-Adds w without with_one (some c, w') g h k = then g (k c w')

  say-sent :
      (us : Us) (c : ℕ) (text : Bytes) (w : World) → seen (say G O home self us c text w) ≡ seen w
  unfolding print_status
  say-sent us c text w = observer.see-inject_chat _ _ _ _ w

  -- The query is proposed in its readable form.
  propose-Adds :
      (net tgt : Bytes) (d : OpData Us) (channel : Bool) (w : World)
      → Adds w (propose G O home self net tgt d (channel, w)).1
  propose-Adds net tgt d true w = quietly w (sent-print _ _ w)
  propose-Adds net tgt d false w =
      subst (Grown G O home self B (seen w)) (sym (sent-send _ w))
        (Grown.more _ (proper (c_string net) (c_string tgt) _ refl (inl refl)) Grown.same)

  start_session-Adds : (d : OpData Us) (w : World) → Adds w (start_session G O home self d w).1
  unfolding start_session
  start_session-Adds d w =
      let ((net, tgt), w') = current_focus G w in
      let (channel, w'') = is_channel G net tgt w' in
      if-elim (λ (r : OpData Us × World). Adds w r.1) (is_empty net || is_empty tgt)
        (then (focus-Adds w) (quietly w' (sent-print _ _ w')))
        (then (then (focus-Adds w) (quietly w' (sent-is_channel net tgt w')))
          (propose-Adds net tgt d channel w''))

  end_as-Adds :
      (net tgt : Bytes) (d : OpData Us) (me : Bytes) (w : World)
      → Adds w (end_as G O home self net tgt d (me, w)).1
  unfolding message_disconnect_all_instances
  end_as-Adds net tgt d me w =
      let (done, d', w') =
        message_disconnect_all_instances G O home self (normalize_case me) net tgt d w in
      if-elim (λ (r : OpData Us × World). Adds w r.1) (is_empty me) Grown.same
        (then (run-Grown G O home self B _ d w) (quietly w' (observer.see-inject_chat _ _ _ _ w')))

  end_session-Adds : (d : OpData Us) (w : World) → Adds w (end_session G O home self d w).1
  unfolding end_session
  end_session-Adds d w =
      let ((net, tgt), w') = current_focus G w in
      let (me, w'') = my_nick G net w' in
      if-elim (λ (r : OpData Us × World). Adds w r.1) (is_empty net || is_empty tgt) (focus-Adds w)
        (then (then (focus-Adds w) (my_nick-Sends G O home self B net w'))
          (end_as-Adds net (normalize_case tgt) d me w''))

  ask-Adds :
      (parameters : Bytes) (d : OpData Us) (w : World) → Adds w (ask G O home self parameters d w).1
  unfolding ask message_initiate_smp
  ask-Adds parameters d w =
      on_context-Adds w _ _ (get_current_context G O d.us w) (get_current_context-Adds d.us w)
        (λ w'. Grown.same) (λ c w'. run-Grown G O home self B _ d w')

  respond-Adds :
      (c : ℕ) (parameters : Bytes) (expected : Bool) (d : OpData Us) (w : World)
      → Adds w (respond G O home self c parameters expected d w).1
  unfolding respond message_respond_smp
  respond-Adds c parameters true d w = run-Grown G O home self B _ d w
  respond-Adds c parameters false d w = Grown.same

  secret-Adds :
      (parameters : Bytes) (d : OpData Us) (w : World)
      → Adds w (secret G O home self parameters d w).1
  unfolding secret
  secret-Adds parameters d w =
      on_context-Adds w _ _ (get_current_context G O d.us w) (get_current_context-Adds d.us w)
        (λ w'. Grown.same) (λ c w'. respond-Adds c parameters _ d w')

  mark-Adds :
      (trust told : Bytes) (c : ℕ) (fp : Option ℕ) (d : OpData Us) (w : World)
      → Adds w (mark G O home self trust told c fp d w).1
  unfolding mark
  mark-Adds trust told c none d w = Grown.same
  mark-Adds trust told c (some fp) d w =
      quietly w (say-sent _ c _ _ ∙ see-write_to_file G O home self observer _ w)

  set_trust-Adds :
      (trust told : Bytes) (d : OpData Us) (w : World)
      → Adds w (set_trust G O home self trust told d w).1
  unfolding set_trust
  set_trust-Adds trust told d w =
      on_context-Adds w _ _ (get_current_context G O d.us w) (get_current_context-Adds d.us w)
        (λ w'. Grown.same) (λ c w'. mark-Adds trust told c _ d w')

  local_line-sent :
      (myfp : Option Bytes) (us : Us) (c : ℕ) (w : World)
      → seen (local_line G O home self myfp us c w) ≡ seen w
  local_line-sent none us c w = refl
  local_line-sent (some fp) us c w = say-sent us c _ w

  remote_line-sent :
      (fp : Option ℕ) (us : Us) (c : ℕ) (w : World)
      → seen (remote_line G O home self fp us c w) ≡ seen w
  remote_line-sent none us c w = refl
  remote_line-sent (some fp) us c w = say-sent us c _ w

  status_lines-sent :
      (us : Us) (c : ℕ) (w : World) → seen (status_lines G O home self us c w) ≡ seen w
  status_lines-sent us c w =
      say-sent us c _ _ ∙ say-sent us c _ _ ∙ remote_line-sent _ us c _ ∙ local_line-sent _ us c w

  status-Adds : (d : OpData Us) (w : World) → Adds w (status G O home self d w).1
  unfolding status
  status-Adds d w =
      on_context-Adds w _ _ (get_current_context G O d.us w) (get_current_context-Adds d.us w)
        (λ w'. quietly w' (sent-print _ _ w')) (λ c w'. quietly w' (status_lines-sent d.us c w'))

  help-sent : (cs : List CmdImpl) (w : World) → seen (help G O home self cs w) ≡ seen w
  unfolding help
  help-sent [] w = refl
  help-sent (c ∷ cs) w = help-sent cs _ ∙ sent-print _ _ w

  perform-Adds :
      (f : Func) (parameters : Bytes) (d : OpData Us) (w : World)
      → Adds w (perform G O home self f parameters d w).1
  unfolding perform version
  perform-Adds cmd_status parameters d w = status-Adds d w
  perform-Adds cmd_secret parameters d w = secret-Adds parameters d w
  perform-Adds cmd_ask parameters d w = ask-Adds parameters d w
  perform-Adds cmd_start parameters d w = start_session-Adds d w
  perform-Adds cmd_end parameters d w = end_session-Adds d w
  perform-Adds cmd_trust parameters d w =
      set_trust-Adds (codes "manual") (codes "Fingerprint trusted") d w
  perform-Adds cmd_untrust parameters d w = set_trust-Adds [] (codes "Fingerprint untrusted") d w
  perform-Adds cmd_version parameters d w = quietly w (sent-print _ _ w)
  perform-Adds cmd_help parameters d w = quietly w (help-sent cmd_impls w)

  enter_command-Adds :
      (c : Option CmdImpl) (parameters : Bytes) (d : OpData Us) (w : World)
      → Adds w (enter_command G O home self c parameters d w).1
  unfolding enter_command
  enter_command-Adds none parameters d w = quietly w (sent-print _ _ w)
  enter_command-Adds (some c) parameters d w = perform-Adds c.func parameters d w

  pub command_entrypoint-Sends :
      (cmd : Command) (d : OpData Us) (w : World)
      → Sends G O home self B w (command_entrypoint G O home self cmd d w).1
  unfolding command_entrypoint
  command_entrypoint-Sends cmd d w = enter_command-Adds _ _ d w
