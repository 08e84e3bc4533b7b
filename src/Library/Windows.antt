-- ===== src/Library/Windows.antt =====
-- lua-extension/glirc-lib.c: windows, the focus, and yes-or-no questions.
pub mod Current
use irc_core.Base.{
  codes, Bytes, ℕ, ◌<◌, ◌≡◌, refl, ap, ◌∙◌, Bool, true, false, ◌||◌, ◌⊎◌, Option, [], ◌∷◌, ◌==◌,
  length, ltb, arith, inl, inr, Bool-cases,
}
use irc_core.Client.{Client}
use irc_core.Lua.Value.{boolean, View}
use irc_core.Lua.Api.{Lua, returned}
use irc_core.Lua.Run.{and_then, ◌>>=◌, ◌>>◌, return, lua, client}
use irc_core.Lua.Laws.{at_push}
use irc_core.Lua.Auxlib.{Raised, given, Auxlib}
use irc_core.Lua.Arguments.{Takes2, strings2_lem, none_cases, Raised-trans, absent_text}
use irc_core.Lua.Optional.{TakesOptional, optionals, optionals_lem, optionals_accept}
use irc_core.Library.{Code, ask, string_or_empty, optional_len}

-- "target specified without a network"
abbrev no_network : Bytes
no_network = codes "target specified without a network"

module _ (G : Client) (L : Lua G.World) (X : Auxlib L) where
  open X use {
    lual_checklstring, lual_optlstring, lual_checktype_none, lual_argcheck, argcheck-true,
    argcheck-false,
  }

  pub mark_seen : Code G L X ℕ
  mark_seen = do
    network ← lual_optlstring 1
    channel ← lual_optlstring 2
    lual_checktype_none 3
    client (G.glirc_mark_seen network channel)
    return 0

  pub clear_window : Code G L X ℕ
  clear_window = do
    network ← lual_optlstring 1
    channel ← lual_optlstring 2
    lual_checktype_none 3
    client (G.glirc_clear_window network channel)
    return 0

  abbrev focus : G.World → (Option Bytes × Option Bytes) × G.World
  focus w = let (network, target, w') = G.glirc_current_focus w in ((network, target), w')

  pub current_focus : Code G L X ℕ
  current_focus = do
    lual_checktype_none 1
    (network, target) ← ask G L X focus
    lua (L.lua_push (string_or_empty network))
    lua (L.lua_push (string_or_empty target))
    client (G.glirc_free_string network)
    client (G.glirc_free_string target)
    return 2

  -- `network_len > 0 || target_len == 0`
  abbrev pub focus_allowed : Option Bytes → Option Bytes → Bool
  focus_allowed network target = ltb 0 (optional_len network) || optional_len target == 0

  pub set_focus : Code G L X ℕ
  set_focus = do
    network ← lual_optlstring 1
    target ← lual_optlstring 2
    lual_argcheck (focus_allowed network target) 2 no_network
    lual_checktype_none 3
    client (G.glirc_set_focus network target)
    return 0

  pub is_logged_on : Code G L X ℕ
  is_logged_on = do
    network ← lual_checklstring 1
    target ← lual_checklstring 2
    lual_checktype_none 3
    res ← ask G L X (G.glirc_is_logged_on network target)
    lua (L.lua_push (boolean res))
    return 1

  pub is_channel : Code G L X ℕ
  is_channel = do
    network ← lual_checklstring 1
    target ← lual_checklstring 2
    lual_checktype_none 3
    res ← ask G L X (G.glirc_is_channel network target)
    lua (L.lua_push (boolean res))
    return 1

  -- Each of the two questions takes a network's name and a target, both strings, and pushes the
  -- client's answer as a boolean; on any other arguments an error is raised and the client is not
  -- asked.
  yes_no_questions :
      (s : L.State) (w : G.World)
      → Takes2 L X (is_logged_on s w) s w (λ net tgt s'.
        let (b, w') = G.glirc_is_logged_on net tgt w in
        is_logged_on s w ≡ returned 1 (L.lua_push (boolean b) s') w')
        × Takes2 L X (is_channel s w) s w (λ net tgt s'.
          let (b, w') = G.glirc_is_channel net tgt w in
          is_channel s w ≡ returned 1 (L.lua_push (boolean b) s') w')
  unfolding is_logged_on is_channel
  yes_no_questions s w = (strings2_lem L X _ s w, strings2_lem L X _ s w)

  -- The end of the three functions that take optional strings.
  abbrev finish : (G.World → G.World) → Code G L X ℕ
  finish f = do lual_checktype_none 3; client f; return 0

  finish_many :
      (f : G.World → G.World) (s : L.State) (w : G.World)
      → 2 < length (given L s)
      → Raised (finish f s w) w
  finish_many f s w many = elim (none_cases L X {B = ℕ} 3 (client f >> return 0) s w) [
    | inl (few, r) ↦ absurd (omega arith)
    | inr r ↦ r
  ]

  abbrev focus_on : Option Bytes → Option Bytes → Code G L X ℕ
  focus_on a b = do lual_argcheck (focus_allowed a b) 2 no_network; finish (G.glirc_set_focus a b)

  allowed :
      (a b : Option Bytes) (s : L.State) (w : G.World)
      → focus_allowed a b ≡ true
      → focus_on a b s w ≡ finish (G.glirc_set_focus a b) s w
  allowed a b s w ok =
      rw ok (
        ap (λ o. and_then o (λ _. finish (G.glirc_set_focus a b))) (argcheck-true 2 no_network s w))

  refused :
      (a b : Option Bytes) (s : L.State) (w : G.World)
      → focus_allowed a b ≡ false
      → Raised (focus_on a b s w) w
  refused a b s w not_ok =
      let (v, s', r) = argcheck-false 2 no_network s w in
      (v, s', rw not_ok (ap (λ o. and_then o (λ _. finish (G.glirc_set_focus a b))) r))

  window_lem :
      (f : Option Bytes → Option Bytes → G.World → G.World) (s : L.State) (w : G.World)
      → let o = optionals L X (λ a b. finish (f a b)) s w in
        TakesOptional L X o s w (λ net tgt s'. o ≡ returned 0 s' (f net tgt w))
  window_lem f s w =
      let k = λ (a b : Option Bytes). finish (f a b) in
      (
        λ a b both few.
            let (s', r, g) = optionals_accept L X k s w a b both in
            (s', r ∙ absent_text L X 3 (client (f a b) >> return 0) s' w g (omega arith)),
        λ other. elim (optionals_lem L X k s w) [
          | inr (none_is, r) ↦ r
          | inl (a, b, s', both, r, g) ↦
              Raised-trans L X r (finish_many (f a b) s' w (rw g (other a b both)))
        ],
      )

  -- `glirc.mark_seen` and `glirc.clear_window` take a network's name and a window's, each of which
  -- may be nil or left out, and hand them to the client, with NULL for nil; on any other arguments
  -- an error is raised and the client is not called.
  window_functions :
      (s : L.State) (w : G.World)
      → TakesOptional L X
          (mark_seen s w)
          s
          w
          (λ net chan s'. mark_seen s w ≡ returned 0 s' (G.glirc_mark_seen net chan w))
        × TakesOptional L X
            (clear_window s w)
            s
            w
            (λ net chan s'. clear_window s w ≡ returned 0 s' (G.glirc_clear_window net chan w))
  unfolding mark_seen clear_window
  window_functions s w = (window_lem G.glirc_mark_seen s w, window_lem G.glirc_clear_window s w)

  -- `glirc.set_focus` hands a network's name and a target to the client where the name is not empty
  -- or the target is; a target with no network, and any other arguments, raise an error, and the
  -- client's focus is not set.
  pub set_focus_lem :
      (s : L.State) (w : G.World)
      → TakesOptional L X (set_focus s w) s w (λ net tgt s'.
        ((0 < optional_len net) ⊎ (optional_len tgt ≡ 0)
          → set_focus s w ≡ returned 0 s' (G.glirc_set_focus net tgt w))
        × (optional_len net ≡ 0 → 0 < optional_len tgt → Raised (set_focus s w) w))
  unfolding set_focus
  set_focus_lem s w = (
    λ a b both few.
        let (s', r, g) = optionals_accept L X focus_on s w a b both in
        (
          s',
          (
            λ ok.
                r
                ∙ allowed a b s' w (ground arith)
                ∙ absent_text L X 3 (client (G.glirc_set_focus a b) >> return 0) s' w g
                    (omega arith),
            λ no_net some_tgt. Raised-trans L X r (refused a b s' w (ground arith)),
          ),
        ),
    λ other. elim (optionals_lem L X focus_on s w) [
      | inr (none_is, r) ↦ r
      | inl (a, b, s', both, r, g) ↦ Raised-trans L X r (elim (Bool-cases (focus_allowed a b)) [
        | inl ok ↦
            Raised-trans L X (allowed a b s' w ok)
              (finish_many (G.glirc_set_focus a b) s' w (rw g (other a b both)))
        | inr no_focus ↦ refused a b s' w no_focus
      ])
    ],
  )
