-- ===== src/Examples/Warnings.antt =====
-- The warning buffer and the warning function at concrete inputs.
use irc_core.Base.{Bytes, ℕ, ◌≡◌, refl, ◌⊎◌, true, false, some, [], ◌∷◌, ◌++◌, ◌-◌, leb, arith}
use irc_core.Warn.{
  Buffer, init_buffer, WarningState, is_control, setup_warnings, add_to_buffer, warning,
  warning_prefix,
}
use irc_core.Warn.Text.{Holds, unset, add_to_buffer_lem}
use irc_core.Warn.Messages.{Represents, collect, warning-collect, Agrees}
use irc_core.Warn.Whole.{warn, warn_lem, joined, idle}
use irc_core.Warn.Refused.{Safe, warning-Safe}

abbrev junk : ℕ → ℕ
junk n = 7

-- "hi" and "!"
abbrev hi : Bytes
hi = b'h' ∷ b'i' ∷ []

abbrev bang : Bytes
bang = b'!' ∷ []

abbrev off : WarningState
off = record { buffer = init_buffer; enabled = false }

add_to_buffer_lem_example :
    (b' : Buffer) × (add_to_buffer true junk init_buffer hi ≡ some b')
    × (Holds b' hi ⊎ ((true ≡ false) × (b' ≡ init_buffer) × (leb (0 - 0) 2 ≡ true)))
add_to_buffer_lem_example = add_to_buffer_lem true junk hi unset (omega arith)

setup-Represents : Represents setup_warnings (idle true)
unfolding setup_warnings
setup-Represents = record { holds = unset; same = refl }

off-Represents : Represents off (idle false)
off-Represents = record { holds = unset; same = refl }

warning-collect_example :
    Agrees (warning (true, true) junk setup_warnings hi true) (collect (idle true) hi true)
warning-collect_example =
    warning-collect junk setup_warnings (idle true) hi true setup-Represents (omega arith)

warn_lem_example :
    (st : WarningState) × (warn junk setup_warnings hi (bang ∷ [])
      ≡ some (st, (warning_prefix ++ joined (hi ∷ bang ∷ [])) ∷ []))
    × Represents st (idle true)
unfolding is_control
warn_lem_example = warn_lem junk setup_warnings hi (bang ∷ []) setup-Represents refl (omega arith)

warning-Safe_example : Safe (warning (false, true) junk setup_warnings hi false) 18
warning-Safe_example =
    warning-Safe (false, true) junk setup_warnings [] hi false setup-Represents.holds (omega arith)
