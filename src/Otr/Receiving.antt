-- ===== src/Otr/Receiving.antt =====
-- What otr-extension/glirc-otr.cpp does with a message from the server: `message_entrypoint`, with what
-- libotr makes of a private message's text.
use irc_core.Base.{
  ℕ, subst, if-elim, ◌≡◌, refl, ◌≢◌, inl, inr, Bool, true, false, Bool-cases, Option, none, some,
  List, [], ◌∷◌, Bytes, codes, c_string, arith, bytes_eq, bytes_eq_refl, eq_of_bytes_eq, length,
}
use irc_core.Client.{Client, ProcessResult, pass_message, drop_message, Message}
use irc_core.Otr.Case.{normalize_case}
use irc_core.Otr.Libotr.{Libotr, MessageType, nototr, tagged_plaintext, query, other_type}
use irc_core.Otr.Session.{OpData}
use irc_core.Otr.Callbacks.{run}
use irc_core.Otr.Methods.{is_some, new_text, message_receiving}
use irc_core.Otr.Events.{
  rebuild_userinfo, has_batch, in_batch, finish_receiving, receive, two_params, with_params,
  batch_result, process_privmsg, message_entrypoint,
}

-- A tag "batch" is among the message's tags.
pub data Tagged : List (Bytes × Bytes) → Type 0 where
  here : (value : Bytes) (tags : List (Bytes × Bytes)) → Tagged ((codes "batch", value) ∷ tags)
  there : (tag : Bytes × Bytes) {tags : List (Bytes × Bytes)} → Tagged tags → Tagged (tag ∷ tags)

has_batch-Tagged : (tags : List (Bytes × Bytes)) → has_batch tags ≡ true → Tagged tags
has_batch-Tagged [] h = cc
has_batch-Tagged ((key, value) ∷ tags) h = elim (Bool-cases (bytes_eq (codes "batch") key)) [
  | inl e ↦
      subst (λ (k : Bytes). Tagged ((k, value) ∷ tags)) (eq_of_bytes_eq (codes "batch") key e)
        (Tagged.here value tags)
  | inr e ↦
      let again : has_batch tags ≡ true = rw e at h in
      Tagged.there (key, value) (has_batch-Tagged tags again)
]

Tagged-has_batch : {tags : List (Bytes × Bytes)} → Tagged tags → has_batch tags ≡ true
Tagged-has_batch (here value tags) = refl
Tagged-has_batch (there (key, value) t) =
    if-elim (λ (b : Bool). b ≡ true) (bytes_eq (codes "batch") key) refl (Tagged-has_batch t)

-- A text that is no part of the protocol, or carries only the offer to use it.
pub data Readable : MessageType → Type 0 where
  plain : Readable nototr
  offer : Readable tagged_plaintext

not_itself : (b : Bytes) → ¬ (bytes_eq b b ≡ false)
not_itself b h = let same = bytes_eq_refl b in cc

query_not : ¬ Readable query
query_not r = elim r [ ]

other_not : (n : ℕ) → ¬ Readable (other_type n)
other_not n r = elim r [ ]

module _ (G : Client) (O : Libotr G.World) (home : Option Bytes) (self : ℕ) where
  open G use {World, glirc_inject_chat, glirc_is_channel}
  open O use {Us, otrl_proto_message_type, otrl_message_receiving}

  -- libotr's answer to a message.
  abbrev pub decoded :
      Message → Bytes → Bytes → OpData Us → World → (Bool × Option Bytes) × OpData Us × World
  decoded msg target message d w =
      run G O home self
        (otrl_message_receiving (c_string (normalize_case target)) (c_string msg.network)
          (c_string (normalize_case msg.prefix_nick)) (c_string message) d.us)
        d w

  -- What is to become of a message, and what it leaves.
  pub data Handled (msg : Message) (d : OpData Us) (w : World)
      : ProcessResult × OpData Us × World → Type 0 where
    other_command : msg.command ≢ codes "PRIVMSG" → Handled msg d w (pass_message, d, w)
    other_params :
        msg.command ≡ codes "PRIVMSG" → length msg.params ≢ 2 → Handled msg d w (pass_message, d, w)
    old_readable :
        (target message : Bytes)
        → msg.command ≡ codes "PRIVMSG"
        → msg.params ≡ target ∷ message ∷ []
        → Tagged msg.tags
        → Readable (otrl_proto_message_type (c_string message))
        → Handled msg d w (pass_message, d, w)
    old_secret :
        (target message : Bytes)
        → msg.command ≡ codes "PRIVMSG"
        → msg.params ≡ target ∷ message ∷ []
        → Tagged msg.tags
        → ¬ Readable (otrl_proto_message_type (c_string message))
        → Handled msg d w (drop_message, d, w)
    to_channel :
        (target message : Bytes) (w' : World)
        → msg.command ≡ codes "PRIVMSG"
        → msg.params ≡ target ∷ message ∷ []
        → ¬ Tagged msg.tags
        → glirc_is_channel msg.network target w ≡ (true, w')
        → Handled msg d w (pass_message, d, w')
    untouched :
        (target message : Bytes) (w' : World) (d'' : OpData Us) (w'' : World)
        → msg.command ≡ codes "PRIVMSG"
        → msg.params ≡ target ∷ message ∷ []
        → ¬ Tagged msg.tags
        → glirc_is_channel msg.network target w ≡ (false, w')
        → decoded msg target message d w' ≡ ((false, none), d'', w'')
        → Handled msg d w (pass_message, d'', w'')
    internal :
        (target message : Bytes) (w' : World) (newmsg : Option Bytes) (d'' : OpData Us)
        (w'' : World)
        → msg.command ≡ codes "PRIVMSG"
        → msg.params ≡ target ∷ message ∷ []
        → ¬ Tagged msg.tags
        → glirc_is_channel msg.network target w ≡ (false, w')
        → decoded msg target message d w' ≡ ((true, newmsg), d'', w'')
        → Handled msg d w (drop_message, d'', w'')
    replaced :
        (target message : Bytes) (w' : World) (text : Bytes) (d'' : OpData Us) (w'' : World)
        → msg.command ≡ codes "PRIVMSG"
        → msg.params ≡ target ∷ message ∷ []
        → ¬ Tagged msg.tags
        → glirc_is_channel msg.network target w ≡ (false, w')
        → decoded msg target message d w' ≡ ((false, some text), d'', w'')
        → Handled msg d w (
          drop_message,
          d'',
          (glirc_inject_chat msg.network (rebuild_userinfo msg) msg.prefix_nick text w'').1,
        )

  module _ (msg : Message) (target message : Bytes) (d : OpData Us) (w : World)
      (private : msg.command ≡ codes "PRIVMSG") (two : msg.params ≡ target ∷ message ∷ []) where
    finish_receiving-Handled :
        (w' : World) (internal : Bool) (newmsg : Option Bytes) (d'' : OpData Us) (w'' : World)
        → ¬ Tagged msg.tags
        → glirc_is_channel msg.network target w ≡ (false, w')
        → decoded msg target message d w' ≡ ((internal, newmsg), d'', w'')
        → Handled msg d w (
            finish_receiving G O home self msg
              ((internal, is_some newmsg, new_text newmsg), d'', w''))
    finish_receiving-Handled w' true newmsg d'' w'' n c h =
        Handled.internal target message w' newmsg d'' w'' private two n c h
    finish_receiving-Handled w' false none d'' w'' n c h =
        Handled.untouched target message w' d'' w'' private two n c h
    finish_receiving-Handled w' false (some text) d'' w'' n c h =
        Handled.replaced target message w' text d'' w'' private two n c h

    receive-Handled :
        (c : Bool × World)
        → ¬ Tagged msg.tags
        → glirc_is_channel msg.network target w ≡ c
        → Handled msg d w (receive G O home self msg target message d c)
    unfolding message_receiving
    receive-Handled (true, w') n h = Handled.to_channel target message w' private two n h
    receive-Handled (false, w') n h =
        let ((kept, newmsg), d'', w'') = decoded msg target message d w' in
        finish_receiving-Handled w' kept newmsg d'' w'' n h refl

    batch_result-Handled :
        (t : MessageType)
        → otrl_proto_message_type (c_string message) ≡ t
        → Tagged msg.tags
        → Handled msg d w (batch_result t, d, w)
    batch_result-Handled nototr h tag =
        Handled.old_readable target message private two tag (rw h Readable.plain)
    batch_result-Handled tagged_plaintext h tag =
        Handled.old_readable target message private two tag (rw h Readable.offer)
    batch_result-Handled query h tag =
        Handled.old_secret target message private two tag (λ r. query_not (subst Readable h r))
    batch_result-Handled (other_type n) h tag =
        Handled.old_secret target message private two tag (λ r. other_not n (subst Readable h r))

    two_params-Handled : Handled msg d w (two_params G O home self msg target message d w)
    unfolding in_batch
    two_params-Handled = elim (Bool-cases (has_batch msg.tags)) [
      | inl e ↦ rw e (
          batch_result-Handled (otrl_proto_message_type (c_string message)) refl
            (has_batch-Tagged msg.tags e))
      | inr e ↦ rw e (
          receive-Handled (glirc_is_channel msg.network target w)
            (λ t. let yes_tagged = Tagged-has_batch t in cc) refl)
    ]

  with_params-Handled :
      (msg : Message) (params : List Bytes) (d : OpData Us) (w : World)
      → msg.command ≡ codes "PRIVMSG"
      → msg.params ≡ params
      → Handled msg d w (with_params G O home self msg params d w)
  with_params-Handled msg [] d w private h = Handled.other_params private (rw h (omega arith))
  with_params-Handled msg (target ∷ []) d w private h =
      Handled.other_params private (rw h (omega arith))
  with_params-Handled msg (target ∷ message ∷ []) d w private h =
      two_params-Handled msg target message d w private h
  with_params-Handled msg (a ∷ b ∷ c ∷ params) d w private h =
      Handled.other_params private (rw h (omega arith))

  -- A message is dropped exactly in these cases, all of a PRIVMSG with two parameters: it stems from a
  -- batch and belongs to the protocol; or it is private, from no batch, and libotr, asked with the
  -- names in lower case, takes it for one of its own, or puts another text in its place, which is then
  -- shown under the sender's name. Else it passes. The state of the
  -- extension and the client's change only by the question whether the target is a channel, by libotr's
  -- run, and by what is shown.
  pub message_entrypoint-Handled :
      (msg : Message) (d : OpData Us) (w : World)
      → Handled msg d w (message_entrypoint G O home self msg d w)
  unfolding message_entrypoint process_privmsg
  message_entrypoint-Handled msg d w = elim (Bool-cases (bytes_eq msg.command (codes "PRIVMSG"))) [
    | inl e ↦ rw e (
        with_params-Handled msg msg.params d w (eq_of_bytes_eq msg.command (codes "PRIVMSG") e)
          refl)
    | inr e ↦
        rw e
          (Handled.other_command (λ h. let same = rw h at e in not_itself (codes "PRIVMSG") same))
  ]
