-- ===== src/Otr/Sending.antt =====
-- What otr-extension/glirc-otr.cpp lets the client send: `chat_entrypoint`, with what libotr makes of
-- the user's text.
use irc_core.Base.{
  ℕ, ◌%◌, map, sym, ap, ◌∙◌, ◌≡◌, refl, ◌↔◌, ◌⊎◌, inl, inr, Bool, true, false, Option, none, some,
  [], ◌∷◌, Bytes, c_string,
}
use irc_core.Client.{Client, pass_message, Chat}
use irc_core.Otr.Case.{normalize_case, irc_lower, normalize_case-lower}
use irc_core.Otr.Libotr.{Libotr}
use irc_core.Otr.Session.{OpData, is_empty, my_nick}
use irc_core.Otr.Callbacks.{run}
use irc_core.Otr.Methods.{is_some, message_sending}
use irc_core.Otr.Events.{finish_sending, send_as, chat_to, chat_entrypoint}

-- The text may go out as it is.
abbrev pub Harmless : Bytes → Bool × Option Bytes → Type 0
Harmless me (err, newmsg) = (is_empty me ≡ false) × (err ≡ false) × (newmsg ≡ none)

module _ (G : Client) (O : Libotr G.World) (home : Option Bytes) (self : ℕ) where
  open G use {World, glirc_is_channel}
  open O use {Us, otrl_message_sending}

  -- libotr's answer to a text of the user `me`.
  abbrev pub protected :
      Chat → OpData Us → Bytes → World → (Bool × Option Bytes) × OpData Us × World
  protected chat d me w =
      run G O home self
        (otrl_message_sending (c_string (normalize_case me)) (c_string chat.network)
          (c_string (normalize_case chat.target)) (c_string chat.message) d.us)
        d w

  finish_sending-pass :
      (network target me : Bytes) (d : OpData Us) (w : World) (err : Bool) (newmsg : Option Bytes)
      → is_empty me ≡ false
      → let left = finish_sending G O home self network target ((err, is_some newmsg), d, w) in
        (left.0 ≡ pass_message) ↔ Harmless me (err, newmsg)
  finish_sending-pass network target me d w true newmsg h = (λ e. cc, λ e. cc)
  finish_sending-pass network target me d w false none h = (λ e. (h, refl, refl), λ e. refl)
  finish_sending-pass network target me d w false (some t) h = (λ e. cc, λ e. cc)

  send_as-pass :
      (chat : Chat) (d : OpData Us) (me : Bytes) (w : World)
      → let (answer, d', left) = protected chat d me w in
        ((send_as G O home self chat d (me, w)).0 ≡ pass_message) ↔ Harmless me answer
  unfolding message_sending
  send_as-pass chat d [] w = (λ e. cc, λ e. cc)
  send_as-pass chat d (c ∷ cs) w =
      let ((err, newmsg), d', w') = protected chat d (c ∷ cs) w in
      finish_sending-pass chat.network (normalize_case chat.target) (c ∷ cs) d' w' err newmsg refl

  chat_to-pass :
      (chat : Chat) (d : OpData Us) (channel : Bool) (w : World)
      → let (me, w') = my_nick G chat.network w in
        let (answer, d', left) = protected chat d me w' in
        ((chat_to G O home self chat d (channel, w)).0 ≡ pass_message)
        ↔ ((channel ≡ true) ⊎ Harmless me answer)
  chat_to-pass chat d true w = (λ e. inl refl, λ e. refl)
  chat_to-pass chat d false w =
      let (me, w') = my_nick G chat.network w in
      let (there, back) = send_as-pass chat d me w' in
      (λ e. inr (there e), λ e. elim e [ inl p ↦ cc | inr h ↦ back h ])

  -- The client sends what the user types as it is exactly when it goes to a channel, or when the
  -- user's nick is known and libotr, asked with the names in lower case, neither fails nor puts another
  -- text in its place.
  pub chat_entrypoint-pass :
      (chat : Chat) (d : OpData Us) (w : World)
      → let (channel, w') = glirc_is_channel chat.network chat.target w in
        let (me, w'') = my_nick G chat.network w' in
        let (answer, d', left) = protected chat d me w'' in
        ((chat_entrypoint G O home self chat d w).0 ≡ pass_message)
        ↔ ((channel ≡ true) ⊎ Harmless me answer)
  unfolding chat_entrypoint
  chat_entrypoint-pass chat d w =
      let (channel, w') = glirc_is_channel chat.network chat.target w in
      chat_to-pass chat d channel w'

  chat_to-lower :
      (chat : Chat) (target : Bytes) (d : OpData Us) (c : Bool × World)
      → normalize_case chat.target ≡ normalize_case target
      → chat_to G O home self chat d c ≡ chat_to G O home self (record chat { target = target }) d c
  chat_to-lower chat target d (true, w) h = refl
  chat_to-lower chat target d (false, w) h = rw h refl

  -- A text to a nick, and the same text to the nick in other letters that are the same in lower case,
  -- are handled alike, if the client takes both for a channel or neither.
  pub chat_entrypoint-lower :
      (chat : Chat) (target : Bytes) (d : OpData Us) (w : World)
      → map (λ x. irc_lower (x % 256)) chat.target ≡ map (λ x. irc_lower (x % 256)) target
      → glirc_is_channel chat.network chat.target w ≡ glirc_is_channel chat.network target w
      → chat_entrypoint G O home self chat d w
        ≡ chat_entrypoint G O home self (record chat { target = target }) d w
  unfolding chat_entrypoint
  chat_entrypoint-lower chat target d w same alike =
      let folded =
        (normalize_case-lower chat.target).0 ∙ same ∙ sym (normalize_case-lower target).0 in
      chat_to-lower chat target d _ folded
      ∙ ap (chat_to G O home self (record chat { target = target }) d) alike
