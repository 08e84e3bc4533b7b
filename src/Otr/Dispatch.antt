-- ===== src/Otr/Dispatch.antt =====
-- otr-extension/glirc-otr.cpp: which function a command of the user calls.
use irc_core.Base.{
  ℕ, suc, ◌≡◌, ◌≢◌, refl, ap, ◌∙◌, Bool-cases, inl, inr, Option, none, some, List, [], ◌∷◌, ◌++◌,
  Bytes, codes, arith, bytes_eq, eq_of_bytes_eq,
}
use irc_core.Client.{Client, Command, error_message}
use irc_core.Otr.Libotr.{Libotr}
use irc_core.Otr.Session.{OpData}
use irc_core.Otr.CommandLine.{
  AllVisible, OneLine, Trimmed, spaces, split_command, split_command-print,
}
use irc_core.Otr.CommandTable.{
  Func, cmd_status, cmd_secret, cmd_ask, cmd_start, cmd_end, cmd_trust, cmd_untrust, cmd_version,
  cmd_help, CmdImpl, cmd_impls, find_impl,
}
use irc_core.Otr.Commands.{perform, enter_command, command_entrypoint}

-- The word that the user types for each function: its first byte, and the others.
abbrev pub called : Func → ℕ × Bytes
called cmd_status = (b's', codes "tatus")
called cmd_secret = (b's', codes "ecret")
called cmd_ask = (b'a', codes "sk")
called cmd_start = (b's', codes "tart")
called cmd_end = (b'e', codes "nd")
called cmd_trust = (b't', codes "rust")
called cmd_untrust = (b'u', codes "ntrust")
called cmd_version = (b'v', codes "ersion")
called cmd_help = (b'h', codes "elp")

-- The word for a function, in one piece.
abbrev pub word_for : Func → Bytes
word_for f = let (c, cs) = called f in c ∷ cs

called-AllVisible : (f : Func) → let (c, cs) = called f in AllVisible (c ∷ cs)
called-AllVisible cmd_status = ground arith
called-AllVisible cmd_secret = ground arith
called-AllVisible cmd_ask = ground arith
called-AllVisible cmd_start = ground arith
called-AllVisible cmd_end = ground arith
called-AllVisible cmd_trust = ground arith
called-AllVisible cmd_untrust = ground arith
called-AllVisible cmd_version = ground arith
called-AllVisible cmd_help = ground arith

-- The function that a name finds.
abbrev found : Option CmdImpl → Option Func
found none = none
found (some c) = some c.func

find_impl-called : (f : Func) → found (find_impl (word_for f) cmd_impls) ≡ some f
unfolding find_impl
find_impl-called cmd_status = refl
find_impl-called cmd_secret = refl
find_impl-called cmd_ask = refl
find_impl-called cmd_start = refl
find_impl-called cmd_end = refl
find_impl-called cmd_trust = refl
find_impl-called cmd_untrust = refl
find_impl-called cmd_version = refl
find_impl-called cmd_help = refl

find_impl-skip :
    (name : Bytes) (c : CmdImpl) (cs : List CmdImpl)
    → name ≢ c.name
    → find_impl name cs ≡ none
    → find_impl name (c ∷ cs) ≡ none
unfolding find_impl
find_impl-skip name c cs other h = elim (Bool-cases (bytes_eq name c.name)) [
  | inl e ↦ absurd (other (eq_of_bytes_eq name c.name e))
  | inr e ↦ rw e h
]

find_impl-nil : (name : Bytes) → find_impl name [] ≡ none
unfolding find_impl
find_impl-nil name = refl

find_impl-none : (name : Bytes) → ((f : Func) → name ≢ word_for f) → find_impl name cmd_impls ≡ none
find_impl-none name other = find_impl-skip name _ _ (other cmd_status) (
    find_impl-skip name _ _ (other cmd_secret) (
      find_impl-skip name _ _ (other cmd_ask) (
        find_impl-skip name _ _ (other cmd_start) (
          find_impl-skip name _ _ (other cmd_end) (
            find_impl-skip name _ _ (other cmd_trust) (
              find_impl-skip name _ _ (other cmd_untrust) (
                find_impl-skip name _ _ (other cmd_version)
                  (find_impl-skip name _ _ (other cmd_help) (find_impl-nil name)))))))))

module _ (G : Client) (O : Libotr G.World) (home : Option Bytes) (self : ℕ) where
  open G use {World, glirc_print}
  open O use {Us}

  enter_command-found :
      (c : Option CmdImpl) (f : Func) (parameters : Bytes) (d : OpData Us) (w : World)
      → found c ≡ some f
      → enter_command G O home self c parameters d w ≡ perform G O home self f parameters d w
  unfolding enter_command
  enter_command-found none f parameters d w h = absurd (cc)
  enter_command-found (some c) f parameters d w h = let same : c.func ≡ f = cc in rw same

  -- A command that is read as the word for a function and its parameters.
  pub command_entrypoint-word :
      (f : Func) (cmd : Command) (parameters : Bytes) (d : OpData Us) (w : World)
      → split_command cmd.command ≡ (word_for f, parameters)
      → command_entrypoint G O home self cmd d w ≡ perform G O home self f parameters d w
  unfolding command_entrypoint
  command_entrypoint-word f cmd parameters d w h =
      ap (λ (r : Bytes × Bytes). enter_command G O home self (find_impl r.0 cmd_impls) r.1 d w) h
      ∙ enter_command-found (find_impl (word_for f) cmd_impls) f parameters d w (find_impl-called f)

  -- The name of a function, with any number of spaces before it and at least one behind it, and
  -- parameters on one line that do not begin with a space call this function with these parameters.
  pub command_entrypoint-called :
      (f : Func) (before between : ℕ) (parameters : Bytes) (d : OpData Us) (w : World)
      → OneLine parameters
      → Trimmed parameters
      → let (c, cs) = called f in
        let input = spaces before ++ ((c ∷ cs) ++ (spaces (suc between) ++ parameters)) in
        command_entrypoint G O home self (record { command = input }) d w
        ≡ perform G O home self f parameters d w
  command_entrypoint-called f before between parameters d w one trimmed =
      let (c, cs) = called f in
      command_entrypoint-word f _ parameters d w
        (split_command-print before between c cs parameters (called-AllVisible f) one trimmed)

  -- A command whose first word is the word for no function changes nothing and prints an error.
  pub command_entrypoint-unknown :
      (cmd : Command) (d : OpData Us) (w : World)
      → ((f : Func) → (split_command cmd.command).0 ≢ word_for f)
      → command_entrypoint G O home self cmd d w
        ≡ (d, glirc_print error_message (some (codes "OTR: Unknown command")) w)
  unfolding command_entrypoint enter_command
  command_entrypoint-unknown cmd d w other =
      let (name, parameters) = split_command cmd.command in
      ap (λ (c : Option CmdImpl). enter_command G O home self c parameters d w)
        (find_impl-none name other)
