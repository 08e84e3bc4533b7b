-- ===== src/Library/Timers/Due.antt =====
-- lua-extension/glirc-lib.c: a timer from `set_timer` to `on_timer`.
use irc_core.Base.{ℕ, some, ◌≡◌, ap, sym, ◌∙◌, [], ◌∷◌}
use irc_core.Client.{Client}
use irc_core.Lua.Value.{CFunction, Value, nil, update}
use irc_core.Lua.Api.{Lua, Outcome, returned}
use irc_core.Lua.Auxlib.{Auxlib}
use irc_core.Thread.{new_thread_state}
use irc_core.Library.Timers.{
  thread_state_size, signed, set_timer, set_timer_lem, on_timer, on_timer_lem, call_back,
}

module _ (G : Client) (L : Lua G.World) (X : Auxlib L) where
  open G use {World, glirc_set_timer}
  open L use {State, view}
  open X use {integer_of}

  -- `set_timer`, with an integer and a value, asks the client for a timer with the integer as its
  -- delay, and returns the timer's identifier. Whatever happens until the timer is due, as long as its
  -- thread state is left alone, the value is then called with no arguments, the thread state is gone,
  -- and the stack is left as it was.
  pub set_timer-on_timer :
      (bodies : CFunction → State → World → Outcome State World ℕ) (s s₁ s₂ : State)
      (w w₁ w₂ : World) (a v : Value) (n : ℕ)
      → (view s).stack ≡ v ∷ a ∷ []
      → integer_of a ≡ some n
      → set_timer G L X s w ≡ returned 1 s₁ w₁
      → let st = (new_thread_state L thread_state_size s).0 in
        (view s₂).registry st ≡ (view s₁).registry st
        → (view s₂).user_values st ≡ (view s₁).user_values st
        → let (tid, w') = glirc_set_timer n st w in
          (w₁ ≡ w')
          × ((view s₁).stack ≡ signed tid ∷ a ∷ [])
          × (s' : State) × (view s' ≡ record (view s₂) {
            stack = v ∷ (view s₂).stack;
            registry = update (view s₂).registry st nil;
          })
          × (on_timer G L bodies st s₂ w₂ ≡ call_back G L bodies s' w₂)
          × ((view (on_timer G L bodies st s₂ w₂).0).stack ≡ (view s₂).stack)
  set_timer-on_timer bodies s s₁ s₂ w w₁ w₂ a v n args is_n does held value =
      let st = (new_thread_state L thread_state_size s).0 in
      let (tid, w') = glirc_set_timer n st w in
      let (s₀, ran, left, registered, kept, tables) = set_timer_lem G L X s w a v n args is_n in
      let ends : ◌≡◌ {A = Outcome State World ℕ} (returned 1 s₀ w') (returned 1 s₁ w₁) =
        sym ran ∙ does in
      let state : s₀ ≡ s₁ = cc in
      let world : w' ≡ w₁ = cc in
      let there = held ∙ ap (λ (x : State). (view x).registry st) (sym state) ∙ registered in
      let same = value ∙ ap (λ (x : State). (view x).user_values st) (sym state) ∙ kept in
      let (s', seen, called, stack) = on_timer_lem G L bodies st s₂ w₂ there in
      (
        sym world,
        ap (λ (x : State). (view x).stack) (sym state) ∙ left,
        s',
        seen
            ∙ ap
                (λ (u : Value). record (view s₂) {
                  stack = u ∷ (view s₂).stack;
                  registry = update (view s₂).registry st nil;
                })
                same,
        called,
        stack,
      )
