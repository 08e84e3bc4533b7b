-- ===== src/Warn/Whole.antt =====
-- Whole messages. The interpreter hands a message of several pieces to the warning function of
-- glirc-warn.c piece by piece, and sets `tocont` for all but the last.
use irc_core.Base.{
  Bytes, ℕ, ◌+◌, ◌^◌, ◌<◌, ◌≡◌, Bool, true, false, Option, none, some, arith, List, [], ◌∷◌, ◌++◌,
  length, ap, length-append, append_assoc, append-nil,
}
use irc_core.Warn.{WarningState, warning, warning_prefix, is_control, Warned}
use irc_core.Warn.Messages.{Collector, Represents, collect, deliver, warning-collect, warning_off}

-- The pieces joined.
abbrev pub joined : List Bytes → Bytes
joined [] = []
joined (p ∷ ps) = p ++ joined ps

abbrev texts : Option Bytes → List Bytes
texts none = []
texts (some text) = text ∷ []

abbrev pub Printed : Type 0
Printed = Option (WarningState × List Bytes)

abbrev print_behind : Option Bytes → Printed → Printed
print_behind out none = none
print_behind out (some (st, later)) = some (st, texts out ++ later)

abbrev and_then : Warned → (WarningState → Printed) → Printed
and_then none next = none
and_then (some (st, out)) next = print_behind out (next st)

-- The state behind the calls for a message of the pieces `p ∷ ps`, and the texts that they print.
pub warn : (ℕ → ℕ) → WarningState → Bytes → List Bytes → Printed
warn junk st p [] = and_then (warning (true, true) junk st p false) (λ st'. some (st', []))
warn junk st p (q ∷ ps) = and_then (warning (true, true) junk st p true) (λ st'. warn junk st' q ps)

abbrev pub idle : Bool → Collector
idle e = record { pending = []; enabled = e }

abbrev busy : ℕ → Bytes → Collector
busy x xs = record { pending = x ∷ xs; enabled = true }

warn-busy :
    (junk : ℕ → ℕ) (x : ℕ) (xs p : Bytes) (ps : List Bytes) (st : WarningState)
    → Represents st (busy x xs)
    → length (x ∷ xs) + length (joined (p ∷ ps)) < 2 ^ 61
    → (st' : WarningState) × (warn junk st p ps ≡ some (st', ((x ∷ xs) ++ joined (p ∷ ps)) ∷ []))
      × Represents st' (idle true)
unfolding warn collect deliver
warn-busy junk x xs p [] st rep need =
    let (st', e, rep') =
      warning-collect junk st (busy x xs) p false rep (omega (arith, length-append p [])) in
    (st', rw (e, append-nil), rep')
warn-busy junk x xs p (q ∷ ps) st rep need =
    let (st', e, rep') =
      warning-collect junk st (busy x xs) p true rep
        (omega (arith, length-append p (joined (q ∷ ps)))) in
    let (st'', e', rep'') =
      warn-busy junk x (xs ++ p) q ps st' rep'
        (omega (arith, length-append p (joined (q ∷ ps)), length-append xs p)) in
    (st'', rw (e, e', append_assoc), rep'')

abbrev prefix_tail : Bytes
prefix_tail =
    b'7' ∷ b'L' ∷ b'u' ∷ b'a' ∷ b' ' ∷ b'w' ∷ b'a' ∷ b'r' ∷ b'n' ∷ b'i' ∷ b'n' ∷ b'g' ∷ 15 ∷ b':'
    ∷ b' ' ∷ []

collect-plain :
    (p : Bytes) (tocont : Bool)
    → is_control p ≡ false
    → collect (idle true) p tocont ≡ deliver (idle true) (warning_prefix ++ p) tocont
unfolding collect
collect-plain p tocont plain = rw plain

-- The first piece of a message.
warning-plain :
    (junk : ℕ → ℕ) (st : WarningState) (p : Bytes) (tocont : Bool)
    → Represents st (idle true)
    → is_control p ≡ false
    → length p < 2 ^ 61
    → let out = deliver (idle true) (warning_prefix ++ p) tocont in
      (st' : WarningState) × (warning (true, true) junk st p tocont ≡ some (st', out.1))
      × Represents st' out.0
unfolding deliver
warning-plain junk st p true rep plain need =
    rw (collect-plain p true plain) at
      (warning-collect junk st (idle true) p true rep (omega arith))
warning-plain junk st p false rep plain need =
    rw (collect-plain p false plain) at
      (warning-collect junk st (idle true) p false rep (omega arith))

abbrev pub AllPlain : List Bytes → Type 0
AllPlain [] = Unit
AllPlain (p ∷ ps) = (is_control p ≡ false) × AllPlain ps

-- Between messages, with warnings on and memory at hand, a message whose first piece is no control message, of
-- less than 2^60 bytes, is printed once, whole, behind the prefix, and the collector is left empty and on.
pub warn_lem :
    (junk : ℕ → ℕ) (st : WarningState) (p : Bytes) (ps : List Bytes)
    → Represents st (idle true)
    → is_control p ≡ false
    → length (joined (p ∷ ps)) < 2 ^ 60
    → (st' : WarningState) × (warn junk st p ps
        ≡ some (st', (warning_prefix ++ joined (p ∷ ps)) ∷ []))
      × Represents st' (idle true)
unfolding warn deliver
warn_lem junk st p [] rep plain need =
    let (st', e, rep') =
      warning-plain junk st p false rep plain (omega (arith, length-append p [])) in
    (st', rw (e, ap (λ (t : Bytes). warning_prefix ++ t) (append-nil p)), rep')
warn_lem junk st p (q ∷ ps) rep plain need =
    let (st', e, rep') =
      warning-plain junk st p true rep plain (omega (arith, length-append p (joined (q ∷ ps)))) in
    let (st'', e', rep'') =
      warn-busy junk 3 (prefix_tail ++ p) q ps st' rep'
        (omega (arith, length-append p (joined (q ∷ ps)), length-append prefix_tail p)) in
    (st'', rw (e, e', append_assoc), rep'')

-- Between messages and with warnings off, a message none of whose pieces is a control message prints nothing and leaves
-- the state as it is.
warn_off :
    (junk : ℕ → ℕ) (st : WarningState) (p : Bytes) (ps : List Bytes)
    → Represents st (idle false)
    → AllPlain (p ∷ ps)
    → warn junk st p ps ≡ some (st, [])
unfolding warn
warn_off junk st p [] rep plain = rw (warning_off junk st p false rep plain.0)
warn_off junk st p (q ∷ ps) rep plain =
    rw (warning_off junk st p true rep plain.0, warn_off junk st q ps rep plain.1)
