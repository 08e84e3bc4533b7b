-- ===== src/Otr/Timers/Polling.antt =====
-- otr-extension/glirc-otr.cpp goes on polling libotr for as long as libotr asks for it.
use irc_core.Base.{
  ℕ, zero, suc, ◌<◌, ◌≡◌, ◌∙◌, refl, ap, Bool, true, false, Option, List, [], ◌∷◌, Bytes, ltb,
  arith, if◌then◌else◌, Bool-cases, inl, inr,
}
use irc_core.Client.{Client}
use irc_core.Otr.Libotr.{Libotr}
use irc_core.Otr.Session.{OpData, start_timer, schedule_timer, timer_finished}
use irc_core.Otr.Methods.{message_poll}
use irc_core.Otr.Events.{timer_entrypoint}
use irc_core.Otr.Timers.{Timers, delay}
use irc_core.Otr.Timers.Events.{Fine, timer_entrypoint-Fine}
use irc_core.Otr.Timers.Reach.{Reached, Reached-Fine}

module _ (G : Client) (O : Libotr G.World) (home : Option Bytes) (self : ℕ)
    (T : Timers G O self) where
  open G use {World}
  open O use {Us}
  open T use {pending, wishes}
  open wishes use {wish}

  -- libotr is polled, with no timer pending.
  abbrev pub poll : OpData Us → World → OpData Us
  poll d w = (message_poll G O home self (record d { timer_active = false }) w).1

  abbrev pub Left : OpData Us → OpData Us × World → Type 0
  Left d (d', w) = (d'.us ≡ d.us) × (d'.timer_interval ≡ d.timer_interval)

  start_timer-Left : (b : Bool) (d : OpData Us) (w : World) → Left d (start_timer G O self b d w)
  unfolding start_timer
  start_timer-Left true d w = (refl, refl)
  start_timer-Left false d w = (refl, refl)

  timer_entrypoint-Left :
      (d : OpData Us) (w : World) → Left (poll d w) (timer_entrypoint G O home self d w)
  unfolding timer_entrypoint schedule_timer timer_finished
  timer_entrypoint-Left d w = start_timer-Left _ _ _

  -- `fire` is what the client is in when it has dropped the timer and calls the extension for it.
  -- libotr is polled this many times, or wishes before not to be polled any more. A round leaves
  -- libotr's state and the interval that the extension keeps as the poll left them.
  pub data Polled (fire : World → World) : ℕ → OpData Us × World → Type 0 where
    enough : {s : OpData Us × World} → Polled fire zero s
    ended :
        {n : ℕ} {d : OpData Us} {w : World} → wish d.us ≡ 0 → pending w ≡ [] → Polled fire n (d, w)
    round :
        {n : ℕ} {d : OpData Us} {w : World}
        → 0 < wish d.us
        → pending w ≡ (d.timer_id, delay (wish d.us)) ∷ []
        → Left (poll d (fire w)) (timer_entrypoint G O home self d (fire w))
        → Polled fire n (timer_entrypoint G O home self d (fire w))
        → Polled fire (suc n) (d, w)

  none_left : (n m : ℕ) → n ≡ m → ltb 0 n ≡ false → m ≡ 0
  none_left n m e h = ground arith

  there_one :
      {b : Bool} {timers : List (ℕ × ℕ)} (tid interval wished : ℕ)
      → timers ≡ (if b then (tid, delay interval) ∷ [] else [])
      → b ≡ true
      → interval ≡ wished
      → timers ≡ (tid, delay wished) ∷ []
  there_one tid interval wished one active heard =
      one
      ∙ ap (λ (b : Bool). if b then (tid, delay interval) ∷ [] else []) active
      ∙ ap (λ (n : ℕ). (tid, delay n) ∷ []) heard

  wanted : (n m : ℕ) → n ≡ m → ltb 0 n ≡ true → 0 < m
  wanted n m e h = ground arith

  module _ (fire : World → World)
      (fires : (w : World) (tid ms : ℕ) → pending w ≡ (tid, ms) ∷ [] → pending (fire w) ≡ []) where
    Fine-Polled : (n : ℕ) (s : OpData Us × World) → Fine G O home self T s → Polled fire n s
    Fine-Polled zero s fine = enough
    Fine-Polled (suc n) (d, w) (one, armed, heard) = elim (Bool-cases (ltb 0 d.timer_interval)) [
      | inl asked ↦
          let there : pending w ≡ (d.timer_id, delay (wish d.us)) ∷ [] =
            there_one d.timer_id d.timer_interval (wish d.us) one (armed ∙ asked) heard in
          round (wanted d.timer_interval (wish d.us) heard asked) there
            (timer_entrypoint-Left d (fire w))
            (Fine-Polled n _
              (timer_entrypoint-Fine G O home self T d (fire w) (fires w d.timer_id _ there) heard))
      | inr silent ↦ ended (none_left d.timer_interval (wish d.us) heard silent) (
          one
          ∙ ap (λ (b : Bool). if b then (d.timer_id, delay d.timer_interval) ∷ [] else [])
              (armed ∙ silent))
    ]

    -- The client has no timer for the extension at the start, and drops the one that fires. From every
    -- state that is reached, libotr is then polled any number of times, each time that the client's
    -- one timer for the extension fires, as long as libotr wishes to be polled, by the interval that
    -- it has last asked for and for which this timer is set; once it does not, the client has no timer for
    -- the extension. The client's timers and libotr's wishes are as `Timers` has them.
    pub Reached-Polled :
        (w : World) (s : OpData Us × World) (n : ℕ)
        → pending w ≡ []
        → Reached G O home self T w s
        → Polled fire n s
    Reached-Polled w s n none_yet reached =
        Fine-Polled n s (Reached-Fine G O home self T w s none_yet reached)
