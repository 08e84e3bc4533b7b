-- ===== src/Otr/Trust.antt =====
-- otr-extension/glirc-otr.cpp: whom the user trusts after `/extension OTR trust` and `untrust`.
use irc_core.Base.{ℕ, ◌==◌, ◌≡◌, Bool, Option, some, [], ◌++◌, Bytes, codes, if◌then◌else◌}
use irc_core.Client.{Client, Command}
use irc_core.Otr.Libotr.{Libotr}
use irc_core.Otr.Session.{OpData}
use irc_core.Otr.Texts.{bold, bracketed}
use irc_core.Otr.Callbacks.{print_status, write_fingerprints}

-- The texts of trust, and of the report.
abbrev pub trust_text_of : Bool → Bytes
trust_text_of trusting = if trusting then codes "manual" else []

abbrev pub report_of : Bool → Bytes
report_of trusting = if trusting then codes "Fingerprint trusted" else codes "Fingerprint untrusted"

-- The command that makes the user trust or distrust.
abbrev pub trust_command : Bool → Command
trust_command trusting = record { command = if trusting then codes "trust" else codes "untrust" }

module _ (G : Client) (O : Libotr G.World) (home : Option Bytes) (self : ℕ) where
  open G use {World}
  open O use {
    Us, context, fingerprint_at, otrl_context_is_fingerprint_trusted, otrl_context_set_trust,
    otrl_privkey_hash_to_human, trusted-empty, trusted-text, set_trust-self, set_trust-other,
  }

  -- The user trusts a fingerprint.
  abbrev pub trusts : Us → ℕ → Bool
  trusts us fp = otrl_context_is_fingerprint_trusted us (some fp)

  -- What a command leaves that sets the trust of `fp`, the fingerprint of the context `c`; `q` is any
  -- fingerprint.
  abbrev pub Trusting : Bool → ℕ → ℕ → ℕ → OpData Us → World → OpData Us × World → Type 0
  Trusting trusting c fp q d w (d', w') =
      (trusts d'.us q ≡ (if fp == q then trusting else trusts d.us q))
      × (w'
          ≡ print_status G O home self d'.us c
              (report_of trusting
                ++ codes " "
                ++ bracketed
                    (bold (otrl_privkey_hash_to_human (fingerprint_at d.us fp).fingerprint)))
              (write_fingerprints G O home self d'.us w))
