-- ===== src/Otr/Observed.antt =====
-- What one sees of the client's state while libotr calls otr-extension/glirc-otr.cpp back: most
-- operations only show texts and write files, which an observer may not see.
use irc_core.Base.{codes, ◌≡◌, refl, ◌∙◌, Bool-cases, inl, inr, ℕ, Option, none, some, Bytes}
use irc_core.Client.{Client}
use irc_core.Otr.Libotr.{Libotr, SmpEvent}
use irc_core.Otr.Texts.{asks_secret}
use irc_core.Otr.Callbacks.{
  if_path-elim, state_path, print_status, smp_lines, msg_lines, write_fingerprints, create_privkey,
  create_instag,
}

-- To show a text, to ask whether someone is there, and libotr's work on its files change nothing that
-- `see` tells.
pub record Observer (G : Client) (O : Libotr G.World) (B : Type 0) : Type 0 where
  pub see : G.World → B
  pub see-inject_chat :
      (net src tgt text : Bytes) (w : G.World)
      → see (G.glirc_inject_chat net src tgt text w).1 ≡ see w
  pub see-is_logged_on :
      (net tgt : Bytes) (w : G.World) → see (G.glirc_is_logged_on net tgt w).1 ≡ see w
  pub see-write_fingerprints :
      (path : Bytes) (us : O.Us) (w : G.World)
      → see (O.otrl_privkey_write_fingerprints path us w) ≡ see w
  pub see-privkey_generate :
      (path accountname protocol : Bytes) (us : O.Us) (w : G.World)
      → see (O.otrl_privkey_generate path accountname protocol us w).1 ≡ see w
  pub see-instag_generate :
      (path accountname protocol : Bytes) (us : O.Us) (w : G.World)
      → see (O.otrl_instag_generate path accountname protocol us w).1 ≡ see w

module _ (G : Client) (O : Libotr G.World) (home : Option Bytes) (self : ℕ) {B : Type 0}
    (V : Observer G O B) where
  open G use {World}
  open O use {Us}
  open V use {
    see, see-inject_chat, see-write_fingerprints, see-privkey_generate, see-instag_generate,
  }

  pub see-smp_lines :
      (us : Us) (event : SmpEvent) (c : ℕ) (question message : Option Bytes) (w : World)
      → see (smp_lines G O home self us event c question message w) ≡ see w
  unfolding smp_lines print_status
  see-smp_lines us event c question none w = refl
  see-smp_lines us event c question (some message) w = elim (Bool-cases (asks_secret event)) [
    | inl asks ↦ rw asks (see-inject_chat _ _ _ _ _ ∙ see-inject_chat _ _ _ _ w)
    | inr asks ↦ rw asks (see-inject_chat _ _ _ _ w)
  ]

  pub see-msg_lines :
      (us : Us) (c : ℕ) (message desc : Option Bytes) (w : World)
      → see (msg_lines G O home self us c message desc w) ≡ see w
  unfolding msg_lines print_status
  see-msg_lines us c message none w = refl
  see-msg_lines us c message (some desc) w = see-inject_chat _ _ _ _ w

  pub see-write_to_file :
      (us : Us) (w : World) → see (write_fingerprints G O home self us w) ≡ see w
  unfolding write_fingerprints
  see-write_to_file us w =
      if_path-elim (λ (w' : World). see w' ≡ see w) (state_path home (codes "fingerprints")) refl
        (λ path. see-write_fingerprints path us w)

  pub see-create_privkey :
      (accountname protocol : Bytes) (us : Us) (w : World)
      → see (create_privkey G O home self accountname protocol us w).1 ≡ see w
  unfolding create_privkey
  see-create_privkey accountname protocol us w =
      if_path-elim (λ (r : Us × World). see r.1 ≡ see w) (state_path home (codes "keys")) refl
        (λ path. see-privkey_generate path accountname protocol us w)

  pub see-create_instag :
      (accountname protocol : Bytes) (us : Us) (w : World)
      → see (create_instag G O home self accountname protocol us w).1 ≡ see w
  unfolding create_instag
  see-create_instag accountname protocol us w =
      if_path-elim (λ (r : Us × World). see r.1 ≡ see w) (state_path home (codes "instags")) refl
        (λ path. see-instag_generate path accountname protocol us w)
