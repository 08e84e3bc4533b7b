-- ===== src/Library/System.antt =====
-- lua-extension/glirc-lib.c: commands that run in a thread of their own. The command's callback is kept
-- by a thread state, of which `struct system_state` is a longer one; the thread keeps the command and
-- its result with it.
pub mod Done
use irc_core.Base.{
  length-c_string, c_string, Bytes, ℕ, ◌+◌, ◌≤◌, ◌≡◌, refl, ap, ◌∙◌, Bool, true, false, List, [],
  ◌∷◌, ◌++◌, length, map, reverse, get_elem?, arith, if◌then◌else◌,
}
use irc_core.Client.{Client, error_message}
use irc_core.Lua.Value.{CFunction, Value, nil, str, userdata, View, update, update_self}
use irc_core.Lua.Api.{Lua, Outcome, returned}
use irc_core.Lua.Run.{and_then, ◌>>=◌, ◌>>◌}
use irc_core.Lua.Laws.{at_push, at_pop}
use irc_core.Lua.Auxlib.{arg_with, Auxlib, given}
use irc_core.Thread.{
  new_thread_state, thread_state_value, free_thread_state, new_thread_state_lem,
  thread_state_value_lem, free_thread_state_lem,
}
use irc_core.Library.{Code}

-- `sizeof (struct system_state)` and the offset of its field `command`
abbrev pub system_state_size : ℕ
system_state_size = 16

abbrev pub command_offset : ℕ
command_offset = 12

module _ (G : Client) (L : Lua G.World) where
  open G use {World, glirc_print}
  open L use {State, view, lua_push, lua_pop, lua_pcall, lua_tolstring, tolstring_lem, pcall-stack}

  -- An error is printed and taken off the stack.
  pop_error : Bool → State → World → State × World
  pop_error true s w = (s, w)
  pop_error false s w =
      let (msg, s') = lua_tolstring s in (lua_pop 1 s', glirc_print error_message msg w)

  pub pass_result :
      (CFunction → State → World → Outcome State World ℕ) → State → World → State × World
  unfolding pop_error
  pass_result bodies s w = let (ok, s', w') = lua_pcall bodies 1 0 s w in pop_error ok s' w'

  -- `result` is the integer that `system` gave.
  pub finish_system :
      (CFunction → State → World → Outcome State World ℕ)
      → ℕ
      → Value
      → State
      → World
      → State × World
  unfolding pass_result
  finish_system bodies st result s w =
      pass_result bodies (lua_push result (free_thread_state L st (thread_state_value L st s))) w

  stack-pop_error :
      (ok : Bool) (s : State) (w : World) (results xs : List Value)
      → (view s).stack ≡ results ++ xs
      → length results ≡ (if ok then 0 else 1)
      → (view (pop_error ok s w).0).stack ≡ xs
  unfolding pop_error
  stack-pop_error true s w [] xs e n = e
  stack-pop_error true s w (v ∷ vs) xs e n = absurd (omega arith)
  stack-pop_error false s w [] xs e n = absurd (omega arith)
  stack-pop_error false s w (v ∷ u ∷ vs) xs e n = absurd (omega arith)
  stack-pop_error false s w (v ∷ []) xs e n =
      let (v', text, popped) = tolstring_lem s v xs e in
      ap (λ (x : View). x.stack) (at_pop L popped 1)

  -- When a command is done, and the registry keeps its thread state, the callback is called with the
  -- result alone, in a state in which the registry no longer has the thread state; and whatever the
  -- callback does, the stack is left as it was.
  pub finish_system_lem :
      (bodies : CFunction → State → World → Outcome State World ℕ) (st : ℕ) (result : Value)
      (s : State) (w : World)
      → (view s).registry st ≡ userdata st
      → (s' : State) × (view s' ≡ record (view s) {
        stack = result ∷ (view s).user_values st ∷ (view s).stack;
        registry = update (view s).registry st nil;
      })
        × (finish_system bodies st result s w ≡ pass_result bodies s' w)
        × ((view (finish_system bodies st result s w).0).stack ≡ (view s).stack)
  unfolding finish_system pass_result
  finish_system_lem bodies st result s w live =
      let value = thread_state_value_lem L st {s = s} refl live in
      let pushed = at_push L (free_thread_state_lem L st value) result in
      let (results, e, n) =
        pcall-stack bodies 1 0 _ w (result ∷ []) ((view s).user_values st) (view s).stack
          (ap (λ (x : View). x.stack) pushed) refl in
      (_, pushed, refl, stack-pop_error _ _ _ results (view s).stack e n)

module _ (G : Client) (L : Lua G.World) (X : Auxlib L) where
  open G use {World, glirc_thread}
  open L use {State, view}
  open X use {
    lual_checklstring, checklstring-str, lual_checkany, checkany-present, lual_checktype_none,
    checktype_none-absent,
  }

  -- The thread state has room for the command behind its fields.
  run_command : Bytes → Code G L X ℕ
  run_command command s w =
      let (st, s') = new_thread_state L (system_state_size + length command + 1) s in
      returned 0 s' (glirc_thread (c_string command) st w)

  abbrev check_callback : Bytes → Code G L X ℕ
  check_callback command = do lual_checkany 2; lual_checktype_none 3; run_command command

  pub system : Code G L X ℕ
  unfolding run_command
  system = do command ← lual_checklstring 1; check_callback command

  pub system_lem :
      (s : State) (w : World) (command : Bytes) (v : Value)
      → (view s).stack ≡ v ∷ str command ∷ []
      → let size = system_state_size + length command + 1 in
        let st = (new_thread_state L size s).0 in
        (s' : State) × (system s w ≡ returned 0 s' (glirc_thread (c_string command) st w))
        × ((view s').stack ≡ str command ∷ [])
        × ((view s').registry st ≡ userdata st)
        × ((view s').user_values st ≡ v)
        × (command_offset + length (c_string command) + 1 ≤ size)
  unfolding system run_command
  system_lem s w command v args =
      let size = system_state_size + length command + 1 in
      let st = (new_thread_state L size s).0 in
      let two : length (given L s) ≡ 2 =
        ap (λ (x : List Value). length (map (λ v. arg_with (L.text_of v) v) (reverse x))) args in
      let kept = new_thread_state_lem L size {s = s} refl args in
      (
        _,
        ap (λ o. and_then o check_callback)
              (checklstring-str 0 s w command
                (ap (λ (x : List Value). get_elem? (reverse x) 0) args))
            ∙ ap (λ o. and_then o (λ _. lual_checktype_none 3 >> run_command command))
                (checkany-present 2 s w (omega arith) (omega arith))
            ∙ ap (λ o. and_then o (λ _. run_command command))
                (checktype_none-absent 3 s w (omega arith)),
        ap (λ (x : View). x.stack) kept,
        ap (λ (x : View). x.registry st) kept ∙ update_self (view s).registry st (userdata st),
        ap (λ (x : View). x.user_values st) kept ∙ update_self (view s).user_values st v,
        omega (arith, length-c_string command),
      )
