-- ===== src/Otr/CommandTable.antt =====
-- otr-extension/glirc-otr.cpp: the table of commands, `cmd_impls`.
use irc_core.Base.{
  ℕ, zero, suc, ◌-◌, Option, none, some, List, [], ◌∷◌, ◌++◌, length, Bytes, codes, bytes_eq,
  if◌then◌else◌,
}

-- The functions of the table.
pub data Func : Type 0 where
  cmd_status cmd_secret cmd_ask cmd_start cmd_end cmd_trust cmd_untrust cmd_version cmd_help : Func

-- `struct cmd_impl`
pub record CmdImpl : Type 0 where
  pub name : Bytes
  pub func : Func
  pub doc : Bytes

abbrev impl : Bytes → Func → Bytes → CmdImpl
impl name func doc = record { name = name; func = func; doc = doc }

abbrev pub cmd_impls : List CmdImpl
cmd_impls =
    impl (codes "status") cmd_status (codes "Display the current window's OTR context")
    ∷ impl (codes "secret") cmd_secret (codes "Reply to a peer verification request (1 argument)")
    ∷ impl (codes "ask") cmd_ask (codes "Send a peer verification request (1 argument)")
    ∷ impl (codes "start") cmd_start (codes "Propose to start an OTR session")
    ∷ impl (codes "end") cmd_end (codes "Close the current window's OTR context")
    ∷ impl (codes "trust") cmd_trust (codes "Trust the current remote user's fingerprint")
    ∷ impl (codes "untrust") cmd_untrust
        (codes "Revoke trust in the current remote user's fingerprint")
    ∷ impl (codes "version") cmd_version (codes "Print extension version information")
    ∷ impl (codes "help") cmd_help (codes "Show available commands")
    ∷ []

-- `find_if`
unfoldable pub find_impl : Bytes → List CmdImpl → Option CmdImpl
find_impl name [] = none
find_impl name (c ∷ cs) =
    let rest = find_impl name cs in if bytes_eq name c.name then some c else rest

-- `left << setw(7)`
abbrev pad : ℕ → Bytes
pad zero = []
pad (suc n) = b' ' ∷ pad n

abbrev pub help_line : CmdImpl → Bytes
help_line c = codes "OTR: " ++ c.name ++ pad (7 - length c.name) ++ codes " - " ++ c.doc
