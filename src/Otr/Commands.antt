-- ===== src/Otr/Commands.antt =====
-- otr-extension/glirc-otr.cpp: the commands of the extension, and their entry point.
use irc_core.Base.{
  ℕ, Bool, true, false, ◌||◌, Option, none, some, List, [], ◌∷◌, ◌++◌, Bytes, codes, c_string,
  if◌then◌else◌,
}
use irc_core.Client.{Client, outgoing, Command, normal_message, error_message}
use irc_core.Otr.Case.{normalize_case}
use irc_core.Otr.Libotr.{Libotr}
use irc_core.Otr.Session.{OpData, is_empty, is_channel, current_focus, my_nick, get_current_context}
use irc_core.Otr.Texts.{
  plugin_user, query_text, bold, green, red, bracketed, instance_line, status_text,
}
use irc_core.Otr.Callbacks.{print_status, write_fingerprints}
use irc_core.Otr.Methods.{
  message_disconnect_all_instances, message_initiate_smp, message_respond_smp,
}
use irc_core.Otr.CommandLine.{split_command}
use irc_core.Otr.CommandTable.{
  Func, cmd_status, cmd_secret, cmd_ask, cmd_start, cmd_end, cmd_trust, cmd_untrust, cmd_version,
  cmd_help, CmdImpl, cmd_impls, find_impl, help_line,
}

module _ (G : Client) (O : Libotr G.World) (home : Option Bytes) (self : ℕ) where
  open G use {World, glirc_print, glirc_send_message, glirc_inject_chat}
  open O use {
    Us, context, fingerprint_at, otrl_context_is_fingerprint_trusted, otrl_context_set_trust,
    otrl_privkey_hash_to_human, otrl_privkey_fingerprint, otrl_version,
  }

  -- What a command leaves.
  abbrev pub After : Type 0
  After = OpData Us × World

  abbrev pub say : Us → ℕ → Bytes → World → World
  say = print_status G O home self

  abbrev pub print_error : Bytes → World → World
  print_error text w = glirc_print error_message (some text) w

  abbrev pub propose : Bytes → Bytes → OpData Us → Bool × World → After
  propose net tgt d (channel, w) =
      if channel then (d, print_error (codes "OTR: User chat not focused") w) else (
        d,
        (glirc_send_message
            (outgoing (c_string net) (codes "PRIVMSG") (c_string tgt ∷ query_text ∷ [])) w).1,
      )

  unfoldable pub start_session : OpData Us → World → After
  start_session d w =
      let ((net, tgt), w') = current_focus G w in
      if is_empty net || is_empty tgt
      then (d, print_error (codes "OTR: User chat not focused") w')
      else propose net tgt d (is_channel G net tgt w')

  abbrev pub tell_ended : Bytes → Bytes → Unit {0} × OpData Us × World → After
  tell_ended net tgt (done, d, w) =
      (d, (glirc_inject_chat net plugin_user tgt (red (codes "Session terminated")) w).1)

  abbrev pub end_as : Bytes → Bytes → OpData Us → Bytes × World → After
  end_as net tgt d (me, w) =
      if is_empty me
      then (d, w)
      else tell_ended net tgt
          (message_disconnect_all_instances G O home self (normalize_case me) net tgt d w)

  unfoldable pub end_session : OpData Us → World → After
  end_session d w =
      let ((net, tgt), w') = current_focus G w in
      if is_empty net || is_empty tgt
      then (d, w')
      else end_as net (normalize_case tgt) d (my_nick G net w')

  abbrev pub quiet : Unit {0} × OpData Us × World → After
  quiet (done, d, w) = (d, w)

  -- What is done without a context for the current window, and with one.
  abbrev pub on_context : (World → After) → (ℕ → World → After) → Option ℕ × World → After
  on_context without with_one (none, w) = without w
  on_context without with_one (some c, w) = with_one c w

  unfoldable pub ask : Bytes → OpData Us → World → After
  ask parameters d w =
      on_context (λ w'. (d, w'))
        (λ c w'. quiet (message_initiate_smp G O home self c parameters d w'))
        (get_current_context G O d.us w)

  -- `context->smstate && context->smstate->secret`
  abbrev pub expects_secret : Option Bool → Bool
  expects_secret none = false
  expects_secret (some secret) = secret

  unfoldable pub respond : ℕ → Bytes → Bool → OpData Us → World → After
  respond c parameters true d w = quiet (message_respond_smp G O home self c parameters d w)
  respond c parameters false d w = (d, w)

  unfoldable pub secret : Bytes → OpData Us → World → After
  unfolding respond
  secret parameters d w =
      on_context (λ w'. (d, w'))
        (λ c w'. respond c parameters (expects_secret (context d.us c).smstate) d w')
        (get_current_context G O d.us w)

  -- The trust of a context's fingerprint is set, written to the file, and reported.
  unfoldable pub mark : Bytes → Bytes → ℕ → Option ℕ → OpData Us → World → After
  mark trust told c none d w = (d, w)
  mark trust told c (some fp) d w =
      let us = otrl_context_set_trust fp trust d.us in
      let human = otrl_privkey_hash_to_human (fingerprint_at us fp).fingerprint in
      (
        record d { us = us },
        say us c (told ++ codes " " ++ bracketed (bold human))
            (write_fingerprints G O home self us w),
      )

  unfoldable pub set_trust : Bytes → Bytes → OpData Us → World → After
  unfolding mark
  set_trust trust told d w =
      on_context (λ w'. (d, w'))
        (λ c w'. mark trust told c (context d.us c).active_fingerprint d w')
        (get_current_context G O d.us w)

  abbrev pub local_line : Option Bytes → Us → ℕ → World → World
  local_line none us c w = w
  local_line (some myfp) us c w = say us c (codes "Local  fingerprint " ++ bracketed (bold myfp)) w

  abbrev pub remote_trust : Bool → Bytes → Bytes
  remote_trust true trust = green trust
  remote_trust false trust = red (codes "untrusted")

  abbrev pub remote_line : Option ℕ → Us → ℕ → World → World
  remote_line none us c w = w
  remote_line (some fp) us c w =
      let f = fingerprint_at us fp in
      say us c
        (codes "Remote fingerprint "
          ++ bracketed (bold (otrl_privkey_hash_to_human f.fingerprint))
          ++ codes " "
          ++ bracketed (remote_trust (otrl_context_is_fingerprint_trusted us (some fp)) f.trust))
        w

  abbrev pub status_lines : Us → ℕ → World → World
  status_lines us c w =
      let ctx = context us c in
      let local = local_line (otrl_privkey_fingerprint us ctx.accountname ctx.protocol) us c w in
      let remote = remote_line ctx.active_fingerprint us c local in
      let ids =
        say us c (instance_line ctx.our_instance ctx.their_instance ctx.protocol_version) remote in
      say us c (codes "Connection state " ++ bracketed (status_text ctx.msgstate)) ids

  unfoldable pub status : OpData Us → World → After
  status d w =
      on_context (λ w'. (d, print_error (codes "No OTR context for current window") w'))
        (λ c w'. (d, status_lines d.us c w')) (get_current_context G O d.us w)

  unfoldable pub version : OpData Us → World → After
  version d w = (
    d,
    glirc_print normal_message
        (some (
          codes "Extension "
          ++ bracketed (bold (codes "1.1"))
          ++ codes " libotr "
          ++ bracketed (bold otrl_version)))
        w,
  )

  unfoldable pub help : List CmdImpl → World → World
  help [] w = w
  help (c ∷ cs) w = help cs (glirc_print normal_message (some (help_line c)) w)

  -- `entry->func(opdata, parameters)`
  unfoldable pub perform : Func → Bytes → OpData Us → World → After
  unfolding start_session end_session ask secret set_trust status version help
  perform cmd_status parameters d w = status d w
  perform cmd_secret parameters d w = secret parameters d w
  perform cmd_ask parameters d w = ask parameters d w
  perform cmd_start parameters d w = start_session d w
  perform cmd_end parameters d w = end_session d w
  perform cmd_trust parameters d w = set_trust (codes "manual") (codes "Fingerprint trusted") d w
  perform cmd_untrust parameters d w = set_trust [] (codes "Fingerprint untrusted") d w
  perform cmd_version parameters d w = version d w
  perform cmd_help parameters d w = (d, help cmd_impls w)

  unfoldable pub enter_command : Option CmdImpl → Bytes → OpData Us → World → After
  unfolding perform
  enter_command none parameters d w = (d, print_error (codes "OTR: Unknown command") w)
  enter_command (some c) parameters d w = perform c.func parameters d w

  unfoldable pub command_entrypoint : Command → OpData Us → World → After
  unfolding enter_command find_impl
  command_entrypoint cmd d w =
      let (name, parameters) = split_command cmd.command in
      enter_command (find_impl name cmd_impls) parameters d w
