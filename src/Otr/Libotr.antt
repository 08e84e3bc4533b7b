-- ===== src/Otr/Libotr.antt =====
-- libotr, which is not code of this repository: its types, as far as otr-extension looks into them,
-- and the functions that the extension calls, as the parameter `Libotr`.
--
-- libotr calls the extension back through the table `ops`. What one of its message functions does is
-- a `Run`: it calls an operation with the state of the library, goes on from the answer and from the
-- state that the operation left, and is done after finitely many calls. A pointer into the library's
-- state is an address.
use irc_core.Base.{ℕ, ◌≡◌, ◌≢◌, Bool, true, false, Option, none, some, [], ◌∷◌, Bytes}

pub data SmpEvent : Type 0 where
  smp_none smp_error smp_abort smp_cheated smp_ask_for_answer smp_ask_for_secret smp_in_progress
        smp_success smp_failure :
      SmpEvent
  -- a number from 9 on
  smp_other : ℕ → SmpEvent

pub data MsgEvent : Type 0 where
  msg_none msg_encryption_required msg_encryption_error msg_connection_ended msg_setup_error
        msg_reflected msg_resent msg_not_in_private msg_unreadable msg_malformed msg_heartbeat_rcvd
        msg_heartbeat_sent msg_general_err msg_unencrypted msg_unrecognized msg_other_instance :
      MsgEvent

pub data MessageType : Type 0 where
  nototr tagged_plaintext query : MessageType
  other_type : ℕ → MessageType

pub data MsgState : Type 0 where
  plaintext encrypted finished : MsgState

-- `ConnContext`. Of `smstate` it matters whether it is NULL, and whether it has a `secret`.
pub record ConnContext : Type 0 where
  pub username : Bytes
  pub accountname : Bytes
  pub protocol : Bytes
  pub active_fingerprint : Option ℕ
  pub smstate : Option Bool
  pub our_instance : ℕ
  pub their_instance : ℕ
  pub protocol_version : ℕ
  pub msgstate : MsgState

pub record Fingerprint : Type 0 where
  pub fingerprint : Bytes
  pub trust : Bytes

-- The operations of `OtrlMessageAppOps` that the extension offers, with the arguments that it reads.
pub data Op : Type 0 where
  op_ask_policy : Op
  op_inject_message : Bytes → Bytes → Bytes → Bytes → Op
  op_max_message_size : ℕ → Op
  op_handle_msg_event : MsgEvent → ℕ → Option Bytes → Op
  op_is_logged_in : Bytes → Bytes → Bytes → Op
  op_timer_control : ℕ → Op
  op_gone_secure : ℕ → Op
  op_still_secure : ℕ → Bool → Op
  op_handle_smp_event : SmpEvent → ℕ → Option Bytes → Op
  op_write_fingerprints : Op
  op_new_fingerprint : Bytes → Bytes → Bytes → Bytes → Op
  op_create_privkey : Bytes → Bytes → Op
  op_create_instag : Bytes → Bytes → Op

pub data Answer : Type 0 where
  nothing : Answer
  number : ℕ → Answer
  minus_one : Answer

pub data Run (Us A : Type 0) : Type 0 where
  done : A → Us → Run Us A
  call : Op → Us → (Answer → Us → Run Us A) → Run Us A

pub record Libotr (W : Type 0) : Type 1 where
  -- `OtrlUserState`
  pub Us : Type 0
  pub otrl_userstate_create : Us
  -- To free the state may change memory of the client.
  pub otrl_userstate_free : Us → W → W
  pub otrl_policy_default : ℕ
  pub otrl_policy_send_whitespace_tag : ℕ
  pub context : Us → ℕ → ConnContext
  pub fingerprint_at : Us → ℕ → Fingerprint
  -- With no context made where there is none.
  pub otrl_context_find : Us → Bytes → Bytes → Bytes → Option ℕ
  -- A fingerprint is trusted if it has a trust text that is not empty.
  pub otrl_context_is_fingerprint_trusted : Us → Option ℕ → Bool
  pub trusted-none : (us : Us) → otrl_context_is_fingerprint_trusted us none ≡ false
  pub trusted-empty :
      (us : Us) (fp : ℕ)
      → (fingerprint_at us fp).trust ≡ []
      → otrl_context_is_fingerprint_trusted us (some fp) ≡ false
  pub trusted-text :
      (us : Us) (fp c : ℕ) (cs : Bytes)
      → (fingerprint_at us fp).trust ≡ c ∷ cs
      → otrl_context_is_fingerprint_trusted us (some fp) ≡ true
  pub otrl_context_set_trust : ℕ → Bytes → Us → Us
  pub set_trust-self :
      (us : Us) (fp : ℕ) (trust : Bytes)
      → fingerprint_at (otrl_context_set_trust fp trust us) fp
        ≡ record (fingerprint_at us fp) { trust = trust }
  pub set_trust-other :
      (us : Us) (fp q : ℕ) (trust : Bytes)
      → fp ≢ q
      → fingerprint_at (otrl_context_set_trust fp trust us) q ≡ fingerprint_at us q
  pub set_trust-context :
      (us : Us) (fp c : ℕ) (trust : Bytes)
      → context (otrl_context_set_trust fp trust us) c ≡ context us c
  pub otrl_privkey_hash_to_human : Bytes → Bytes
  pub otrl_privkey_fingerprint : Us → Bytes → Bytes → Option Bytes
  pub otrl_version : Bytes
  pub otrl_proto_message_type : Bytes → MessageType
  -- Files, by their paths
  pub otrl_privkey_write_fingerprints : Bytes → Us → W → W
  pub otrl_privkey_generate : Bytes → Bytes → Bytes → Us → W → Us × W
  pub otrl_instag_generate : Bytes → Bytes → Bytes → Us → W → Us × W
  pub otrl_privkey_read : Bytes → Us → W → Us × W
  pub otrl_instag_read : Bytes → Us → W → Us × W
  pub otrl_privkey_read_fingerprints : Bytes → Us → W → Us × W
  -- Of `sending` the result says whether there was an error, of `receiving` whether the message was
  -- internal to the protocol; the text is the one that takes the message's place.
  pub otrl_message_sending : Bytes → Bytes → Bytes → Bytes → Us → Run Us (Bool × Option Bytes)
  pub otrl_message_receiving : Bytes → Bytes → Bytes → Bytes → Us → Run Us (Bool × Option Bytes)
  pub otrl_message_disconnect_all_instances : Bytes → Bytes → Bytes → Us → Run Us (Unit {0})
  pub otrl_message_initiate_smp : ℕ → Bytes → Us → Run Us (Unit {0})
  pub otrl_message_respond_smp : ℕ → Bytes → Us → Run Us (Unit {0})
  pub otrl_message_poll : Us → Run Us (Unit {0})
