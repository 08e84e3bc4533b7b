-- ===== src/Library/System/Done.antt =====
-- lua-extension/glirc-lib.c: a command of `system` from its start in a thread to the call of its callback.
use irc_core.Base.{Bytes, ℕ, ◌+◌, ◌≡◌, ap, sym, ◌∙◌, c_string, [], ◌∷◌, length}
use irc_core.Client.{Client}
use irc_core.Lua.Value.{CFunction, Value, nil, str, update}
use irc_core.Lua.Api.{Lua, Outcome, returned}
use irc_core.Lua.Auxlib.{Auxlib}
use irc_core.Thread.{new_thread_state}
use irc_core.Library.System.{
  system_state_size, system, system_lem, pass_result, finish_system, finish_system_lem,
}

-- `struct system_state`; `base` is the address of the thread state.
pub record SystemState : Type 0 where
  pub base : ℕ
  pub result : Value
  pub command : Bytes

-- What `system` gives to its thread: the thread state's address and the command.
abbrev pub thread_for : ℕ → Bytes → Value → SystemState
thread_for st command junk = record { base = st; result = junk; command = command }

module _ (G : Client) (L : Lua G.World) (X : Auxlib L) where
  open G use {World, glirc_thread}
  open L use {State, view}

  -- `system` of the C library, which runs a command and gives its status.
  module _ (shell : Bytes → World → Value × World) where
    unfoldable pub start_system : SystemState → World → SystemState × World
    start_system st w = let (status, w') = shell st.command w in (record st { result = status }, w')

    -- The client runs the thread and then calls the extension back.
    abbrev pub run_thread :
        (CFunction → State → World → Outcome State World ℕ)
        → SystemState
        → State
        → World
        → State × World
    run_thread bodies st s w =
        let (st', w') = start_system st w in finish_system G L bodies st'.base st'.result s w'

    -- A call of `system` with a command and a value has the client run a thread for the command.
    -- Whatever happens before this thread is done, as long as the thread state is left alone, the
    -- value is then called with the status of the command, up to its first zero byte; the thread state
    -- is gone, and the stack is as it was.
    pub system-run_thread :
        (bodies : CFunction → State → World → Outcome State World ℕ) (s s₁ s₂ : State)
        (w w₁ w₂ : World) (command : Bytes) (v junk : Value)
        → (view s).stack ≡ v ∷ str command ∷ []
        → system G L X s w ≡ returned 0 s₁ w₁
        → let st = (new_thread_state L (system_state_size + length command + 1) s).0 in
          (view s₂).registry st ≡ (view s₁).registry st
          → (view s₂).user_values st ≡ (view s₁).user_values st
          → let (status, w₃) = shell (c_string command) w₂ in
            let thread = thread_for st (c_string command) junk in
            (w₁ ≡ glirc_thread (c_string command) st w)
            × (s' : State) × (view s' ≡ record (view s₂) {
              stack = status ∷ v ∷ (view s₂).stack;
              registry = update (view s₂).registry st nil;
            })
            × (run_thread bodies thread s₂ w₂ ≡ pass_result G L bodies s' w₃)
            × ((view (run_thread bodies thread s₂ w₂).0).stack ≡ (view s₂).stack)
    unfolding start_system
    system-run_thread bodies s s₁ s₂ w w₁ w₂ command v junk args does held value =
        let st = (new_thread_state L (system_state_size + length command + 1) s).0 in
        let (s₀, ran, left, registered, kept, fits) = system_lem G L X s w command v args in
        let (status, w₃) = shell (c_string command) w₂ in
        let ends : ◌≡◌ {A = Outcome State World ℕ}
            (returned 0 s₀ (glirc_thread (c_string command) st w)) (returned 0 s₁ w₁) =
          sym ran ∙ does in
        let state : s₀ ≡ s₁ = cc in
        let world : glirc_thread (c_string command) st w ≡ w₁ = cc in
        let there = held ∙ ap (λ (x : State). (view x).registry st) (sym state) ∙ registered in
        let same = value ∙ ap (λ (x : State). (view x).user_values st) (sym state) ∙ kept in
        let (s', seen, finished, stack) = finish_system_lem G L bodies st status s₂ w₃ there in
        (
          sym world,
          s',
          seen
              ∙ ap
                  (λ (u : Value). record (view s₂) {
                    stack = status ∷ u ∷ (view s₂).stack;
                    registry = update (view s₂).registry st nil;
                  })
                  same,
          finished,
          stack,
        )
