-- ===== src/Warn/Refused.antt =====
-- The warning function of glirc-warn.c when memory may be refused.
use irc_core.Base.{
  Bytes, ℕ, ◌+◌, ◌^◌, ◌≤◌, ◌<◌, ◌≡◌, refl, Bool, true, false, Option, none, some, arith, ◌==◌, ◌++◌,
  length, length-append, inl, inr, Bool-cases, [],
}
use irc_core.Warn.{
  Buffer, WarningState, warning, warning_prefix, is_control, control, Warned, free_buffer,
  add_to_buffer, finish, continue, start, gc_warning_st,
}
use irc_core.Warn.Text.{Holds, unset, add_to_buffer_lem}
use irc_core.Warn.Messages.{buffer-control}

-- The call ends without a fault, and the buffer holds a text of at most `n` bytes.
abbrev pub Safe : Warned → ℕ → Type 0
Safe w n =
    (st : WarningState) × (out : Option Bytes) × (ys : Bytes) × (w ≡ some (st, out))
    × Holds st.buffer ys
    × (length ys ≤ n)

add-Holds :
    (granted : Bool) (junk : ℕ → ℕ) (msg : Bytes) {b : Buffer} (xs : Bytes)
    → Holds b xs
    → length xs + length msg < 2 ^ 62
    → (b' : Buffer) × (ys : Bytes) × (add_to_buffer granted junk b msg ≡ some b')
      × Holds b' ys
      × (length ys ≤ length xs + length msg)
add-Holds granted junk msg {b} xs holds need =
    let (b', e, kept) = add_to_buffer_lem granted junk msg holds need in
    elim kept [
      | inl h ↦ (b', xs ++ msg, e, h, omega (arith, length-append xs msg))
      | inr (no', same, full) ↦ (b', xs, e, rw same holds, omega arith)
    ]

finish-Safe :
    (st : WarningState) (xs : Bytes) (tocont : Bool)
    → Holds st.buffer xs
    → Safe (finish st tocont) (length xs)
unfolding finish free_buffer
finish-Safe st xs true holds = (st, none, xs, refl, holds, omega arith)
finish-Safe st xs false holds = (_, _, [], refl, unset, omega arith)

continue-Safe :
    (granted : Bool) (junk : ℕ → ℕ) (st : WarningState) (xs msg : Bytes) (tocont : Bool)
    → Holds st.buffer xs
    → length xs + length msg < 2 ^ 62
    → Safe (continue granted junk st msg tocont) (length xs + length msg)
unfolding continue
continue-Safe granted junk st xs msg tocont holds need =
    let (b, ys, e, h, le) = add-Holds granted junk msg xs holds need in
    let (st', out, zs, e', h', le') = finish-Safe (record st { buffer = b }) ys tocont h in
    (st', out, zs, rw (e, continue) e', h', omega arith)

start-Safe :
    (granted : Bool × Bool) (junk : ℕ → ℕ) (st : WarningState) (xs msg : Bytes) (tocont : Bool)
    → Holds st.buffer xs
    → length xs + length msg < 2 ^ 61
    → Safe (start granted junk st msg tocont) (length xs + 16 + length msg)
unfolding start
start-Safe granted junk st xs msg tocont holds need =
    let (b, ys, e, h, le) = add-Holds granted.0 junk warning_prefix xs holds (omega arith) in
    let (st', out, zs, e', h', le') =
      continue-Safe granted.1 junk (record st { buffer = b }) ys msg tocont h (omega arith) in
    (st', out, zs, rw (e, start) e', h', omega arith)

-- Whichever allocations are refused, a call of the warning function on a buffer that holds a text,
-- within 2^61 bytes, ends without a fault, and the buffer then holds a text that has grown by at
-- most the prefix and the message.
pub warning-Safe :
    (granted : Bool × Bool) (junk : ℕ → ℕ) (st : WarningState) (xs msg : Bytes) (tocont : Bool)
    → Holds st.buffer xs
    → length xs + length msg < 2 ^ 61
    → Safe (warning granted junk st msg tocont) (length xs + 16 + length msg)
unfolding warning
warning-Safe granted junk st xs msg tocont holds need = elim (Bool-cases (st.buffer.cursor == 0)) [
  | inr busy ↦
      let (st', out, zs, e, h, le) =
        continue-Safe granted.1 junk st xs msg tocont holds (omega arith) in
      (st', out, zs, rw busy e, h, omega arith)
  | inl idle ↦ elim (Bool-cases (is_control msg)) [
    | inl ctl ↦ (control st msg, none, xs, rw (idle, ctl), rw buffer-control holds, omega arith)
    | inr plain ↦ elim (Bool-cases st.enabled) [
      | inl on ↦
          let (st', out, zs, e, h, le) = start-Safe granted junk st xs msg tocont holds need in
          (st', out, zs, simp (idle, plain, on) e, h, le)
      | inr off ↦ (st, none, xs, simp (idle, plain, off), holds, omega arith)
    ]
  ]
]

-- The finaliser of the warning state leaves an empty buffer.
gc_warning_st-Holds :
    (st : WarningState)
    → Holds (gc_warning_st st).buffer [] × ((gc_warning_st st).enabled ≡ st.enabled)
unfolding gc_warning_st free_buffer
gc_warning_st-Holds st = (unset, refl)
