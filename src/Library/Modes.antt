-- ===== src/Library/Modes.antt =====
-- lua-extension/glirc-lib.c: the modes of a channel and its mask lists.
use irc_core.Base.{
  codes, Bytes, ℕ, ◌≡◌, ◌≢◌, refl, ap, ◌∙◌, true, false, Option, none, some, List, [], ◌∷◌, ◌==◌,
  length, arith,
}
use irc_core.Client.{Client}
use irc_core.Lua.Value.{str, name, Fields, no_fields, set_key, View}
use irc_core.Lua.Api.{Lua, Outcome, returned}
use irc_core.Lua.Run.{and_then, ◌>>=◌, ◌>>◌, return, lua, client}
use irc_core.Lua.Auxlib.{Raised, Auxlib, given, text}
use irc_core.Lua.Arguments.{Takes2, Takes2_map, strings2_lem, check_text, absent_text}
use irc_core.Marshal.{import_string_array, string_field}
use irc_core.Marshal.Objects.{Built, Built-create, Built-string}
use irc_core.Library.{Code, ask}
use irc_core.Library.Lists.{Lists, array_lem}

-- "expected single mode character"
abbrev single_mode : Bytes
single_mode = codes "expected single mode character"

-- `*mode`, of the empty string the terminator
abbrev pub first_byte : Bytes → ℕ
first_byte [] = 0
first_byte (c ∷ cs) = c

-- The strings that the client made, each a letter with its argument behind it.
abbrev pub mode_strings : List (ℕ × Bytes) → List Bytes
mode_strings [] = []
mode_strings ((c, value) ∷ modes) = (c ∷ value) ∷ mode_strings modes

-- The fields of a table in which the loop has set the modes: the letter is the name.
pub set_modes : Fields → List (ℕ × Bytes) → Fields
set_modes f [] = f
set_modes f ((c, value) ∷ modes) = set_modes (set_key f (name (c ∷ [])) (str value)) modes

module _ (G : Client) (L : Lua G.World) (X : Auxlib L) where
  open L use {State, view, lua_createtable}
  open X use {lual_checklstring, lual_checktype_none, lual_argcheck, argcheck-true, argcheck-false}

  -- `for (i = 0; modes[i] != NULL; i++)`
  push_modes : List (ℕ × Bytes) → State → State
  push_modes [] s = s
  push_modes ((c, value) ∷ modes) s = push_modes modes (string_field L (c ∷ []) value s)

  modes_or_nothing : Option (List (ℕ × Bytes)) → Code G L X ℕ
  unfolding push_modes
  modes_or_nothing none = return 0
  modes_or_nothing (some modes) = do
    lua lua_createtable
    lua (push_modes modes)
    client (G.glirc_free_strings (mode_strings modes))
    return 1

  pub channel_modes : Code G L X ℕ
  unfolding modes_or_nothing
  channel_modes = do
    net ← lual_checklstring 1
    chan ← lual_checklstring 2
    lual_checktype_none 3
    modes ← ask G L X (G.glirc_channel_modes net chan)
    modes_or_nothing modes

  masks_or_nothing : Option (List Bytes) → Code G L X ℕ
  masks_or_nothing none = return 0
  masks_or_nothing (some masks) = do import_string_array G L masks; return 1

  abbrev read_masks : Bytes → Bytes → Bytes → Code G L X ℕ
  read_masks net chan mode = do
    lual_checktype_none 4
    masks ← ask G L X (G.glirc_channel_masks net chan (first_byte mode))
    masks_or_nothing masks

  abbrev check_mode : Bytes → Bytes → Bytes → Code G L X ℕ
  check_mode net chan mode = do
    lual_argcheck (length mode == 1) 3 single_mode
    read_masks net chan mode

  abbrev mode_argument : Bytes → Bytes → Code G L X ℕ
  mode_argument net chan = do mode ← lual_checklstring 3; check_mode net chan mode

  abbrev chan_argument : Bytes → Code G L X ℕ
  chan_argument net = do chan ← lual_checklstring 2; mode_argument net chan

  pub channel_masks : Code G L X ℕ
  unfolding masks_or_nothing
  channel_masks = do net ← lual_checklstring 1; chan_argument net

  Built-modes :
      (modes : List (ℕ × Bytes)) (s : State) (x : View) (t : ℕ) (f : Fields)
      → Built x (view s) t f []
      → Built x (view (push_modes modes s)) t (set_modes f modes) []
  unfolding push_modes set_modes
  Built-modes [] s x t f b = b
  Built-modes ((c, value) ∷ modes) s x t f b =
      Built-modes modes _ x t (set_key f (name (c ∷ [])) (str value))
        (Built-string L b (c ∷ []) value)

  -- The end of `glirc.channel_modes`: nothing is returned where the client knows no modes, and else
  -- one new table with a field for each mode.
  abbrev pub Modes : Option (List (ℕ × Bytes)) → Outcome State G.World ℕ → State → G.World → Type 0
  Modes none o s w = o ≡ returned 0 s w
  Modes (some modes) o s w =
      (s' : State) × (t : ℕ) × (o ≡ returned 1 s' (G.glirc_free_strings (mode_strings modes) w))
      × Built (view s) (view s') t (set_modes no_fields modes) []

  modes_or_nothing_lem :
      (modes : Option (List (ℕ × Bytes))) (s : State) (w : G.World) {o : Outcome State G.World ℕ}
      → o ≡ modes_or_nothing modes s w
      → Modes modes o s w
  unfolding modes_or_nothing
  modes_or_nothing_lem none s w e = e
  modes_or_nothing_lem (some modes) s w e =
      (_, _, e, Built-modes modes (lua_createtable s) (view s) _ no_fields (Built-create L s))

  -- `glirc.channel_modes` takes a network's name and a channel's. It returns a new table with a field
  -- for each mode that the client knows, named by the mode's letter and with its argument as value,
  -- and gives the strings back to the client; it returns nothing where the client knows none, and on
  -- any other arguments it raises an error and the client is not asked.
  pub channel_modes_lem :
      (s : State) (w : G.World)
      → Takes2 L X (channel_modes s w) s w (λ net chan s'.
        let (modes, w') = G.glirc_channel_modes net chan w in Modes modes (channel_modes s w) s' w')
  unfolding channel_modes
  channel_modes_lem s w =
      Takes2_map L X s (strings2_lem L X _ s w) (λ net chan s' e. modes_or_nothing_lem _ s' _ e)

  -- The end of `glirc.channel_masks`: an array, or nothing.
  abbrev pub Masks : Option (List Bytes) → Outcome State G.World ℕ → State → G.World → Type 0
  Masks none o s w = o ≡ returned 0 s w
  Masks (some masks) o s w = Lists G L X (some masks) o s w

  masks_or_nothing_lem :
      (masks : Option (List Bytes)) (s : State) (w : G.World) {o : Outcome State G.World ℕ}
      → o ≡ masks_or_nothing masks s w
      → Masks masks o s w
  unfolding masks_or_nothing
  masks_or_nothing_lem none s w e = e
  masks_or_nothing_lem (some masks) s w e = array_lem G L X masks s w e

  -- On three strings, `glirc.channel_masks` asks for the masks of the mode's letter where the third
  -- is one byte long, and returns them as a new array, or nothing where the client knows none. Where
  -- the third is of another length it raises an error and the client is not asked.
  pub channel_masks_lem :
      (s : State) (w : G.World) (net chan mode : Bytes)
      → given L s ≡ text net ∷ text chan ∷ text mode ∷ []
      → ((c : ℕ)
          → mode ≡ c ∷ []
          → (s' : State) × (let (masks, w') = G.glirc_channel_masks net chan c w in
              Masks masks (channel_masks s w) s' w'))
        × (length mode ≢ 1 → Raised (channel_masks s w) w)
  unfolding channel_masks
  channel_masks_lem s w net chan mode e =
      let (s₁, r₁, g₁) = check_text L X 0 chan_argument s w e refl in
      let (s₂, r₂, g₂) = check_text L X 1 (mode_argument net) s₁ w g₁ refl in
      let (s₃, r₃, g₃) = check_text L X 2 (check_mode net chan) s₂ w g₂ refl in
      let head : channel_masks s w ≡ check_mode net chan mode s₃ w = r₁ ∙ r₂ ∙ r₃ in
      (
        λ c one.
            let m : first_byte mode ≡ c = rw one refl in
            let ok : (length mode == 1) ≡ true = rw one refl in
            let passed : check_mode net chan mode s₃ w ≡ read_masks net chan mode s₃ w = rw ok (
              ap (λ o. and_then o (λ _. read_masks net chan mode))
                (argcheck-true 3 single_mode s₃ w)) in
            (
              s₃,
              masks_or_nothing_lem _ s₃ _ (
                  head
                  ∙ passed
                  ∙ absent_text L X 4
                      (λ s w.
                        let (masks, w') = G.glirc_channel_masks net chan (first_byte mode) w in
                        masks_or_nothing masks s w')
                      s₃ w g₃ (omega arith)
                  ∙ rw m refl),
            ),
        λ many.
            let bad : (length mode == 1) ≡ false = ground arith in
            let (v, s', r) = argcheck-false 3 single_mode s₃ w in
            (v, s', head ∙ rw bad (ap (λ o. and_then o (λ _. read_masks net chan mode)) r)),
      )
