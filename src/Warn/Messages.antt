-- ===== src/Warn/Messages.antt =====
-- The warning function of glirc-warn.c against what a reader of the console sees: whole messages.
use irc_core.Base.{
  Bytes, ℕ, ◌+◌, ◌^◌, ◌<◌, ◌≡◌, refl, Bool, true, false, not, ◌&&◌, ◌||◌, Option, none, some, arith,
  Bool-cases, inl, inr, [], ◌∷◌, ◌++◌, length, bytes_eq, if◌then◌else◌, ◌==◌, subst,
}
use irc_core.Warn.{
  Buffer, init_buffer, WarningState, warning, warning_prefix, is_control, control, off_message,
  on_message, free_buffer, add_to_buffer, finish, continue, start, Warned,
}
use irc_core.Warn.Text.{Holds, unset, add_to_buffer_lem, take-cursor, cursor-length}

-- The text of the message that is being gathered (empty between messages), and the switch.
pub record Collector : Type 0 where
  pub pending : Bytes
  pub enabled : Bool

-- A control message is the only thing that turns the switch.
unfoldable pub switch : Bool → Bytes → Bool
switch e msg = (e || bytes_eq msg on_message) && not (bytes_eq msg off_message)

unfoldable pub deliver : Collector → Bytes → Bool → Collector × Option Bytes
deliver c text true = (record c { pending = text }, none)
deliver c text false = (record c { pending = [] }, some text)

unfoldable pub collect : Collector → Bytes → Bool → Collector × Option Bytes
unfolding deliver is_control
collect c msg tocont = elim c.pending [
  | [] ↦
      if is_control msg
      then (record c { enabled = switch c.enabled msg }, none)
      else if c.enabled
      then deliver c (warning_prefix ++ msg) tocont
      else (c, none)
  | x ∷ xs ↦ deliver c ((x ∷ xs) ++ msg) tocont
]

pub record Represents (st : WarningState) (c : Collector) : Type 0 where
  pub holds : Holds st.buffer c.pending
  pub same : st.enabled ≡ c.enabled

add_granted :
    (junk : ℕ → ℕ) (msg : Bytes) {b : Buffer} {xs : Bytes}
    → Holds b xs
    → length xs + length msg < 2 ^ 62
    → (b' : Buffer) × (add_to_buffer true junk b msg ≡ some b') × Holds b' (xs ++ msg)
add_granted junk msg holds need =
    let (b', e, kept) = add_to_buffer_lem true junk msg holds need in
    elim kept [ inl h ↦ (b', e, h) | inr r ↦ absurd (cc (r.0)) ]

abbrev pub Agrees : Warned → Collector × Option Bytes → Type 0
Agrees w (c, out) = (st : WarningState) × (w ≡ some (st, out)) × Represents st c

finish-Agrees :
    (st : WarningState) (c : Collector) (text : Bytes) (tocont : Bool)
    → Holds st.buffer text
    → st.enabled ≡ c.enabled
    → Agrees (finish st tocont) (deliver c text tocont)
unfolding finish deliver free_buffer
finish-Agrees st c text true holds same = (st, refl, record { holds = holds; same = same })
finish-Agrees st c text false holds same = (
  record st { buffer = init_buffer },
  rw (take-cursor holds),
  record { holds = unset; same = same },
)

continue-Agrees :
    (junk : ℕ → ℕ) (st : WarningState) (c : Collector) (text msg : Bytes) (tocont : Bool)
    → Holds st.buffer text
    → st.enabled ≡ c.enabled
    → length text + length msg < 2 ^ 62
    → Agrees (continue true junk st msg tocont) (deliver c (text ++ msg) tocont)
unfolding continue
continue-Agrees junk st c text msg tocont holds same need =
    let (b, e, h) = add_granted junk msg holds need in
    rw (e, continue) (finish-Agrees (record st { buffer = b }) c (text ++ msg) tocont h same)

-- The prefix is added, then the message.
start-Agrees :
    (junk : ℕ → ℕ) (st : WarningState) (c : Collector) (msg : Bytes) (tocont : Bool)
    → Holds st.buffer []
    → st.enabled ≡ c.enabled
    → length msg < 2 ^ 61
    → Agrees (start (true, true) junk st msg tocont) (deliver c (warning_prefix ++ msg) tocont)
unfolding start
start-Agrees junk st c msg tocont holds same need =
    let (b, e, h) = add_granted junk warning_prefix holds (omega arith) in
    rw (e, start)
      (continue-Agrees junk (record st { buffer = b }) c warning_prefix msg tocont h same
        (omega arith))

control-switch :
    (st : WarningState) (msg : Bytes) → (control st msg).enabled ≡ switch st.enabled msg
unfolding control switch
control-switch st msg = ground arith

pub buffer-control : (st : WarningState) (msg : Bytes) → (control st msg).buffer ≡ st.buffer
unfolding control
buffer-control st msg = ground arith

abbrev state : Buffer → Bool → WarningState
state b e = record { buffer = b; enabled = e }

-- A message that is no control message, between messages.
plain-Agrees :
    (junk : ℕ → ℕ) (b : Buffer) (e : Bool) (msg : Bytes) (tocont : Bool)
    → Holds b []
    → length msg < 2 ^ 61
    → let c : Collector = record { pending = []; enabled = e } in
      Agrees
        (if not e then some (state b e, none) else start (true, true) junk (state b e) msg tocont)
        (if e then deliver c (warning_prefix ++ msg) tocont else (c, none))
plain-Agrees junk b true msg tocont holds need =
    start-Agrees junk (state b true) (record { pending = []; enabled = true }) msg tocont holds refl
      need
plain-Agrees junk b false msg tocont holds need =
    (state b false, refl, record { holds = holds; same = refl })

-- A call between messages.
idle-Agrees :
    (junk : ℕ → ℕ) (b : Buffer) (e : Bool) (msg : Bytes) (tocont : Bool)
    → Holds b []
    → length msg < 2 ^ 61
    → Agrees
        (warning (true, true) junk (state b e) msg tocont)
        (collect (record { pending = []; enabled = e }) msg tocont)
unfolding warning collect
idle-Agrees junk b e msg tocont holds need =
    let idle : (b.cursor == 0) ≡ true = ground (arith, cursor-length holds) in
    elim (Bool-cases (is_control msg)) [
      | inl ctl ↦
          rw (idle, ctl)
            (
              control (state b e) msg,
              refl,
              record { holds = rw buffer-control holds; same = control-switch (state b e) msg },
            )
      | inr plain ↦ rw (idle, plain) (plain-Agrees junk b e msg tocont holds need)
    ]

-- A call inside a message.
busy-Agrees :
    (junk : ℕ → ℕ) (st : WarningState) (c : Collector) (x : ℕ) (xs msg : Bytes) (tocont : Bool)
    → Holds st.buffer (x ∷ xs)
    → st.enabled ≡ c.enabled
    → length (x ∷ xs) + length msg < 2 ^ 61
    → Agrees (warning (true, true) junk st msg tocont) (deliver c ((x ∷ xs) ++ msg) tocont)
unfolding warning
busy-Agrees junk st c x xs msg tocont holds same need =
    let busy : (st.buffer.cursor == 0) ≡ false = ground (arith, cursor-length holds) in
    rw busy (continue-Agrees junk st c (x ∷ xs) msg tocont holds same (omega arith))

agrees :
    (junk : ℕ → ℕ) (b : Buffer) (e : Bool) (pending msg : Bytes) (tocont : Bool)
    → Holds b pending
    → length pending + length msg < 2 ^ 61
    → Agrees
        (warning (true, true) junk (state b e) msg tocont)
        (collect (record { pending = pending; enabled = e }) msg tocont)
unfolding collect
agrees junk b e [] msg tocont holds need = idle-Agrees junk b e msg tocont holds (omega arith)
agrees junk b e (x ∷ xs) msg tocont holds need =
    busy-Agrees junk (state b e) (record { pending = x ∷ xs; enabled = e }) x xs msg tocont holds
      refl need

-- With memory at hand, and a text of less than 2^61 bytes, a call of the warning function on a state
-- that represents a collector does
-- what the collector does: the same message is printed, or none, and the new state represents the
-- new collector.
pub warning-collect :
    (junk : ℕ → ℕ) (st : WarningState) (c : Collector) (msg : Bytes) (tocont : Bool)
    → Represents st c
    → length c.pending + length msg < 2 ^ 61
    → Agrees (warning (true, true) junk st msg tocont) (collect c msg tocont)
warning-collect junk st c msg tocont rep need =
    subst
      (λ (e : Bool).
        Agrees (warning (true, true) junk st msg tocont)
          (collect (record { pending = c.pending; enabled = e }) msg tocont))
      rep.same (agrees junk st.buffer st.enabled c.pending msg tocont rep.holds need)

-- With warnings off, between messages, a call that is no control message changes nothing.
pub warning_off :
    (junk : ℕ → ℕ) (st : WarningState) (msg : Bytes) (tocont : Bool)
    → Represents st (record { pending = []; enabled = false })
    → is_control msg ≡ false
    → warning (true, true) junk st msg tocont ≡ some (st, none)
unfolding warning
warning_off junk st msg tocont rep plain =
    let idle : (st.buffer.cursor == 0) ≡ true = ground (arith, cursor-length rep.holds) in
    rw (idle, plain, rep.same)
