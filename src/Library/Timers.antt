-- ===== src/Library/Timers.antt =====
-- lua-extension/glirc-lib.c: timers. A timer's callback is kept by a thread state, whose address the
-- client keeps with the timer and hands to `on_timer` when it is due.
pub mod Due
use irc_core.Base.{
  codes, Bytes, ℕ, ◌-◌, ◌^◌, ◌≡◌, refl, ap, ◌∙◌, Bool, true, false, Option, none, some, List, [],
  ◌∷◌, ◌++◌, length, arith, ltb, if◌then◌else◌, reverse, map, get_elem?,
}
use irc_core.Client.{Client, error_message}
use irc_core.Lua.Value.{
  CFunction, Value, nil, integer, negative, userdata, View, update, update_self, below,
}
use irc_core.Lua.Api.{Lua, Outcome, returned}
use irc_core.Lua.Run.{and_then, ◌>>=◌, ◌>>◌, return, lua}
use irc_core.Lua.Laws.{at_push, at_remove}
use irc_core.Lua.Auxlib.{arg_with, Raised, Auxlib, given}
use irc_core.Thread.{
  new_thread_state, thread_state_value, free_thread_state, new_thread_state_lem,
  thread_state_value_lem, free_thread_state_lem,
}
use irc_core.Library.{Code, ask}

-- "no such timer"
abbrev no_such_timer : Bytes
no_such_timer = codes "no such timer"

-- The signed integer of a 64-bit word; `negative n` is -(n + 1).
abbrev pub signed : ℕ → Value
signed n = if ltb n (2 ^ 63) then integer n else negative (2 ^ 64 - 1 - n)

-- `sizeof (struct thread_state)`
abbrev thread_state_size : ℕ
thread_state_size = 8

module _ (G : Client) (L : Lua G.World) where
  open G use {World, glirc_print}
  open L use {State, view, lua_pcall, lua_tolstring, lua_remove, tolstring_lem, pcall-stack}

  -- An error is printed and taken off the stack.
  report_error : Bool → State → World → State × World
  report_error true s w = (s, w)
  report_error false s w =
      let (msg, s') = lua_tolstring s in (lua_remove (below 1) s', glirc_print error_message msg w)

  pub call_back :
      (CFunction → State → World → Outcome State World ℕ) → State → World → State × World
  unfolding report_error
  call_back bodies s w = let (ok, s', w') = lua_pcall bodies 0 0 s w in report_error ok s' w'

  pub on_timer :
      (CFunction → State → World → Outcome State World ℕ) → ℕ → State → World → State × World
  unfolding call_back
  on_timer bodies st s w = call_back bodies (free_thread_state L st (thread_state_value L st s)) w

  stack-report_error :
      (ok : Bool) (s : State) (w : World) (results xs : List Value)
      → (view s).stack ≡ results ++ xs
      → length results ≡ (if ok then 0 else 1)
      → (view (report_error ok s w).0).stack ≡ xs
  unfolding report_error
  stack-report_error true s w [] xs e n = e
  stack-report_error true s w (v ∷ vs) xs e n = absurd (omega arith)
  stack-report_error false s w [] xs e n = absurd (omega arith)
  stack-report_error false s w (v ∷ u ∷ vs) xs e n = absurd (omega arith)
  stack-report_error false s w (v ∷ []) xs e n =
      let (v', text, popped) = tolstring_lem s v xs e in
      ap (λ (x : View). x.stack) (at_remove L popped (below 1))

  -- A timer that is due, with a thread state that the registry keeps: the callback is called with no
  -- arguments, in a state in which the registry no longer has the thread state; and whatever the
  -- callback does, the stack is left as it was.
  pub on_timer_lem :
      (bodies : CFunction → State → World → Outcome State World ℕ) (st : ℕ) (s : State) (w : World)
      → (view s).registry st ≡ userdata st
      → (s' : State) × (view s' ≡ record (view s) {
        stack = (view s).user_values st ∷ (view s).stack;
        registry = update (view s).registry st nil;
      })
        × (on_timer bodies st s w ≡ call_back bodies s' w)
        × ((view (on_timer bodies st s w).0).stack ≡ (view s).stack)
  unfolding on_timer call_back
  on_timer_lem bodies st s w live =
      let value = thread_state_value_lem L st {s = s} refl live in
      let freed = free_thread_state_lem L st value in
      let (results, e, n) =
        pcall-stack bodies 0 0 _ w [] ((view s).user_values st) (view s).stack
          (ap (λ (x : View). x.stack) freed) refl in
      (_, freed, refl, stack-report_error _ _ _ results (view s).stack e n)

module _ (G : Client) (L : Lua G.World) (X : Auxlib L) where
  open G use {World, glirc_set_timer, glirc_cancel_timer}
  open L use {State, view, lua_push}
  open X use {
    lual_checkinteger, checkinteger-some, lual_checkany, checkany-present, lual_checktype_none,
    checktype_none-absent, lual_error, error_lem, integer_of,
  }

  -- A new thread state for the value on top.
  wrap : Code G L X ℕ
  wrap s w = let (st, s') = new_thread_state L thread_state_size s in returned st s' w

  abbrev register : ℕ → Code G L X ℕ
  register millis = do
    ts ← wrap
    tid ← ask G L X (glirc_set_timer millis ts)
    lua (lua_push (signed tid))
    return 1

  abbrev check_rest : ℕ → Code G L X ℕ
  check_rest millis = do lual_checkany 2; lual_checktype_none 3; register millis

  pub set_timer : Code G L X ℕ
  unfolding wrap
  set_timer = do millis ← lual_checkinteger 1; check_rest millis

  release : Option ℕ → Code G L X ℕ
  release none = lual_error ℕ no_such_timer
  release (some st) = do lua (free_thread_state L st); return 0

  abbrev cancel : ℕ → Code G L X ℕ
  cancel tid = do lual_checktype_none 2; st ← ask G L X (glirc_cancel_timer tid); release st

  pub cancel_timer : Code G L X ℕ
  unfolding release
  cancel_timer = do tid ← lual_checkinteger 1; cancel tid

  -- `glirc.set_timer(n, v)` keeps `v` in a new thread state, hands the thread state's address to the
  -- client with the delay, and returns the timer's identifier alone. The thread state is live, so that
  -- `on_timer` of that address finds `v`.
  pub set_timer_lem :
      (s : State) (w : World) (a v : Value) (n : ℕ)
      → (view s).stack ≡ v ∷ a ∷ []
      → integer_of a ≡ some n
      → let st = (new_thread_state L thread_state_size s).0 in
        let (tid, w') = glirc_set_timer n st w in
        (s' : State) × (set_timer s w ≡ returned 1 s' w')
        × ((view s').stack ≡ signed tid ∷ a ∷ [])
        × ((view s').registry st ≡ userdata st)
        × ((view s').user_values st ≡ v)
        × ((t : ℕ) → (view s').tables t ≡ (view s).tables t)
  unfolding set_timer wrap
  set_timer_lem s w a v n args is_n =
      let st = (new_thread_state L thread_state_size s).0 in
      let two : length (given L s) ≡ 2 =
        ap (λ (x : List Value). length (map (λ v. arg_with (L.text_of v) v) (reverse x))) args in
      let kept = new_thread_state_lem L thread_state_size {s = s} refl args in
      let pushed = at_push L kept (signed (glirc_set_timer n st w).0) in
      (
        _,
        ap (λ o. and_then o check_rest)
              (checkinteger-some 0 s w a n (ap (λ (x : List Value). get_elem? (reverse x) 0) args)
                is_n)
            ∙ ap (λ o. and_then o (λ _. lual_checktype_none 3 >> register n))
                (checkany-present 2 s w (omega arith) (omega arith))
            ∙ ap (λ o. and_then o (λ _. register n)) (checktype_none-absent 3 s w (omega arith)),
        ap (λ (x : View). x.stack) pushed,
        ap (λ (x : View). x.registry st) pushed ∙ update_self (view s).registry st (userdata st),
        ap (λ (x : View). x.user_values st) pushed ∙ update_self (view s).user_values st v,
        λ t. ap (λ (x : View). x.tables t) pushed,
      )

  -- How `glirc.cancel_timer` ends: the thread state of the timer is dropped from the registry, and
  -- nothing else changes; an unknown timer is an error.
  abbrev pub Cancels : Option ℕ → Outcome State World ℕ → State → World → Type 0
  Cancels none o s w = Raised o w
  Cancels (some st) o s w =
      (s' : State) × (o ≡ returned 0 s' w)
      × (view s' ≡ record (view s) { registry = update (view s).registry st nil })

  release_lem :
      (st : Option ℕ) (s : State) (w : World) {o : Outcome State World ℕ}
      → o ≡ release st s w
      → Cancels st o s w
  unfolding release
  release_lem none s w e = let (v, s', r) = error_lem ℕ no_such_timer s w in (v, s', e ∙ r)
  release_lem (some st) s w e = (_, e, free_thread_state_lem L st {s = s} refl)

  -- `glirc.cancel_timer` with one integer asks the client to cancel the timer, and then drops the
  -- callback that was kept for it; for a timer that the client does not know it raises an error.
  pub cancel_timer_lem :
      (s : State) (w : World) (a : Value) (tid : ℕ)
      → (view s).stack ≡ a ∷ []
      → integer_of a ≡ some tid
      → let (st, w') = glirc_cancel_timer tid w in Cancels st (cancel_timer s w) s w'
  unfolding cancel_timer
  cancel_timer_lem s w a tid args is_n =
      let one : length (given L s) ≡ 1 =
        ap (λ (x : List Value). length (map (λ v. arg_with (L.text_of v) v) (reverse x))) args in
      release_lem _ s _ (
        ap (λ o. and_then o cancel)
          (checkinteger-some 0 s w a tid (ap (λ (x : List Value). get_elem? (reverse x) 0) args)
            is_n)
        ∙ ap (λ o. and_then o (λ _ s w. let (st, w') = glirc_cancel_timer tid w in release st s w'))
            (checktype_none-absent 2 s w (omega arith)))
