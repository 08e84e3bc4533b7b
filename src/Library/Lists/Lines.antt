-- ===== src/Library/Lists/Lines.antt =====
-- lua-extension/glirc-lib.c: `list_networks` and `window_lines`.
use irc_core.Base.{
  Bytes, Bool, false, [], ◌≤◌, ◌<◌, length, get_elem?, refl, arith, inl, inr, ℕ, ◌≡◌, ap, ◌∙◌, List,
  ◌∷◌,
}
use irc_core.Client.{Client}
use irc_core.Lua.Api.{Lua}
use irc_core.Lua.Auxlib.{Arg, text, given, arg_truthy, Raised, Auxlib}
use irc_core.Lua.Arguments.{check_text, absent_text, none_cases, Raised-trans}
use irc_core.Library.{Code, client_failure}
use irc_core.Library.Lists.{
  Lists, array_or_error, array_or_error_lem, list_networks, window_lines, lines, lines_of,
  lines_filtered,
}

module _ (G : Client) (L : Lua G.World) (X : Auxlib L) where
  open X use {argument_truthy, argument_truthy_lem, argument_truthy_absent}

  -- `glirc.list_networks` takes no arguments and returns a new array of the client's networks; where
  -- the client fails, and on any argument, it raises an error.
  list_networks_lem :
      (s : L.State) (w : G.World)
      → (length (given L s) ≡ 0
          → let (list, w') = G.glirc_list_networks w in
            Lists G L X list (list_networks G L X s w) s w')
        × (0 < length (given L s) → Raised (list_networks G L X s w) w)
  unfolding list_networks
  list_networks_lem s w =
      let ask_networks : Code G L X ℕ = λ s w.
        let (list, w') = G.glirc_list_networks w in array_or_error G L X client_failure list s w' in
      (
        λ none_given.
            array_or_error_lem G L X client_failure _ s _
              (absent_text L X 1 ask_networks s w refl (omega arith)),
        λ some_given. elim (none_cases L X 1 ask_networks s w) [
          | inl (few, r) ↦ absurd (omega arith)
          | inr r ↦ r
        ],
      )

  -- The third argument, which may be missing.
  abbrev pub flag : List Arg → Bool
  flag [] = false
  flag (a ∷ rest) = arg_truthy a

  flag_lem :
      (s : L.State) (network target : Bytes) (rest : List Arg)
      → given L s ≡ text network ∷ text target ∷ rest
      → argument_truthy 3 s ≡ flag rest
  flag_lem s network target [] e =
      argument_truthy_absent 2 s (ap (λ (xs : List Arg). get_elem? xs 2) e)
  flag_lem s network target (a ∷ rest) e =
      argument_truthy_lem 2 s a (ap (λ (xs : List Arg). get_elem? xs 2) e)

  -- `glirc.window_lines` with a network's name and a target returns a new array of the window's lines,
  -- filtered where there is a third argument that counts as true; it raises an error where the client
  -- fails, and with more than three arguments.
  window_lines_lem :
      (s : L.State) (w : G.World) (network target : Bytes) (rest : List Arg)
      → given L s ≡ text network ∷ text target ∷ rest
      → (length rest ≤ 1
          → (s' : L.State) × (let (list, w') = G.glirc_window_lines network target (flag rest) w in
              Lists G L X list (window_lines G L X s w) s' w'))
        × (1 < length rest → Raised (window_lines G L X s w) w)
  unfolding window_lines
  window_lines_lem s w network target rest e =
      let (s₁, r₁, g₁) = check_text L X 0 (lines_of G L X) s w e refl in
      let (s₂, r₂, g₂) = check_text L X 1 (lines_filtered G L X network) s₁ w g₁ refl in
      let head : window_lines G L X s w ≡ lines G L X network target (flag rest) s₂ w =
        r₁
        ∙ r₂
        ∙ ap (λ (b : Bool). lines G L X network target b s₂ w)
            (flag_lem s₂ network target rest g₂) in
      let answer : Code G L X ℕ = λ s w.
        let (list, w') = G.glirc_window_lines network target (flag rest) w in
        array_or_error G L X client_failure list s w' in
      (
        λ few. (
          s₂,
          array_or_error_lem G L X client_failure _ s₂ _
              (head ∙ absent_text L X 4 answer s₂ w g₂ (omega arith)),
        ),
        λ many. Raised-trans L X head (elim (none_cases L X 4 answer s₂ w) [
          | inl (less, r) ↦ absurd (omega (arith, ap (λ (xs : List Arg). length xs) g₂))
          | inr r ↦ r
        ]),
      )
