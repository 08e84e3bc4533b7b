-- ===== src/Library/Messages.antt =====
-- lua-extension/glirc-lib.c: sending, injecting and printing.
use irc_core.Base.{
  Bytes, ℕ, zero, suc, ◌-◌, ◌≤◌, ◌<◌, ◌≡◌, refl, sym, ap, ◌∙◌, Bool, true, false, some, List, [],
  ◌∷◌, ◌++◌, map, length, length-append, length-map, get_elem?, get_elem?-append, ltb, arith,
  append_assoc,
}
use irc_core.Client.{outgoing, Client, normal_message, error_message}
use irc_core.Lua.Api.{Lua, Outcome, returned}
use irc_core.Lua.Run.{and_then, ◌>>=◌, ◌>>◌, return, client}
use irc_core.Lua.Auxlib.{Arg, text, Raised, given, Auxlib}
use irc_core.Lua.Arguments.{
  Takes1, Takes4, Takes4_map, strings1_lem, strings4_lem, check_text, length-given,
}
use irc_core.Library.{Code, ask, client_failure, too_many_parameters}

module _ (G : Client) (L : Lua G.World) (X : Auxlib L) where
  open X use {lual_checklstring, lual_checktype_none, lual_error, error_lem}

  -- `if (failed) lual_error(L, message)`
  stop_if : Bool → Bytes → Code G L X (Unit {0})
  stop_if true message = lual_error Unit message
  stop_if false message = return tt

  -- `for (i = 0; i < n; i++)`, from argument `suc i` on
  check_params : ℕ → ℕ → Code G L X (List Bytes)
  check_params zero i = return []
  check_params (suc n) i = do
    p ← lual_checklstring (suc i)
    ps ← check_params n (suc i)
    return (p ∷ ps)

  send : Bytes → Bytes → List Bytes → Code G L X ℕ
  unfolding stop_if
  send network command params = do
    failed ← ask G L X (G.glirc_send_message (outgoing network command params))
    stop_if failed client_failure
    return 0

  read_and_send : Bytes → Bytes → ℕ → Code G L X ℕ
  unfolding check_params send
  read_and_send network command n = do params ← check_params n 2; send network command params

  -- with the number of parameters
  read_all : Bytes → Bytes → ℕ → Code G L X ℕ
  unfolding stop_if read_and_send
  read_all network command n = do
    stop_if (ltb 15 n) too_many_parameters
    read_and_send network command n

  abbrev read_params : Bytes → Bytes → Code G L X ℕ
  read_params network command s w = read_all network command (L.lua_gettop s - 2) s w

  abbrev read_command : Bytes → Code G L X ℕ
  read_command network = do command ← lual_checklstring 2; read_params network command

  pub send_message : Code G L X ℕ
  unfolding read_all
  send_message = do network ← lual_checklstring 1; read_command network

  pub inject_chat : Code G L X ℕ
  unfolding stop_if
  inject_chat = do
    net ← lual_checklstring 1
    src ← lual_checklstring 2
    tgt ← lual_checklstring 3
    msg ← lual_checklstring 4
    lual_checktype_none 5
    failed ← ask G L X (G.glirc_inject_chat net src tgt msg)
    stop_if failed client_failure
    return 0

  pub print_string : Code G L X ℕ
  print_string = do
    msg ← lual_checklstring 1
    lual_checktype_none 2
    client (G.glirc_print normal_message (some msg))
    return 0

  pub error : Code G L X ℕ
  error = do
    msg ← lual_checklstring 1
    lual_checktype_none 2
    client (G.glirc_print error_message (some msg))
    return 0

  -- How a function ends whose call of the client failed, or did not.
  abbrev pub Reports : Bool → Outcome L.State G.World ℕ → L.State → G.World → Type 0
  Reports true o s w = Raised o w
  Reports false o s w = o ≡ returned 0 s w

  report :
      (failed : Bool) (s : L.State) (w : G.World) {o : Outcome L.State G.World ℕ}
      → o ≡ (stop_if failed client_failure >> return 0) s w
      → Reports failed o s w
  unfolding stop_if
  report true s w e =
      let (v, s', r) = error_lem Unit client_failure s w in
      (v, s', e ∙ ap (λ o. and_then o (λ _. return 0)) r)
  report false s w e = e

  -- Four strings are handed to the client as they are. The function returns nothing if the client
  -- accepts, and raises an error if it fails; on any other arguments an error is raised and the
  -- client is not called.
  inject_chat_lem :
      (s : L.State) (w : G.World)
      → Takes4 L X (inject_chat s w) s w (λ net src tgt msg s'.
        let (failed, w') = G.glirc_inject_chat net src tgt msg w in
        Reports failed (inject_chat s w) s' w')
  unfolding inject_chat
  inject_chat_lem s w =
      Takes4_map L X s (strings4_lem L X _ s w) (λ net src tgt msg s' e. report _ s' _ e)

  -- Each of `glirc.print` and `glirc.error` takes one string, prints it under its own code, and
  -- returns nothing; on any other arguments an error is raised and nothing is printed.
  print_lem :
      (s : L.State) (w : G.World)
      → Takes1 L X
          (print_string s w)
          s
          w
          (λ msg s'. print_string s w ≡ returned 0 s' (G.glirc_print normal_message (some msg) w))
        × Takes1 L X
            (error s w)
            s
            w
            (λ msg s'. error s w ≡ returned 0 s' (G.glirc_print error_message (some msg) w))
  unfolding print_string error
  print_lem s w = (strings1_lem L X _ s w, strings1_lem L X _ s w)

  abbrev collect : ℕ → ℕ → Bytes → Code G L X (List Bytes)
  collect i n p = do ps ← check_params n (suc i); return (p ∷ ps)

  -- The parameters of a message are read in order.
  check_params_lem :
      (ps : List Bytes) (pre : List Arg) (i : ℕ) (s : L.State) (w : G.World)
      → i ≡ length pre
      → given L s ≡ pre ++ map text ps
      → (s' : L.State) × (check_params (length ps) i s w ≡ returned ps s' w)
        × (given L s' ≡ pre ++ map text ps)
  unfolding check_params
  check_params_lem [] pre i s w at_i e = (s, refl, e)
  check_params_lem (p ∷ ps) pre i s w at_i e =
      let found : get_elem? (pre ++ map text (p ∷ ps)) i ≡ some (text p) =
        rw at_i (get_elem?-append pre (text p) (map text ps)) in
      let (s₁, r₁, g₁) = check_text L X i (collect i (length ps)) s w e found in
      let (s₂, r₂, g₂) =
        check_params_lem ps (pre ++ text p ∷ []) (suc i) s₁ w
          (omega (arith, length-append pre (text p ∷ [])))
          (g₁ ∙ sym (append_assoc pre (text p ∷ []) (map text ps))) in
      (
        s₂,
        r₁ ∙ ap (λ o. and_then o (λ ps'. return (p ∷ ps'))) r₂,
        g₂ ∙ append_assoc pre (text p ∷ []) (map text ps),
      )

  -- Two strings and at most 15 more are sent as the network, the command and the parameters of one
  -- message, in their order, with no prefix and no tags. The function returns nothing if the client
  -- accepts, and raises an error if it fails. With more than 15 parameters it raises an error, and
  -- the client is not called.
  pub send_message_lem :
      (s : L.State) (w : G.World) (network command : Bytes) (params : List Bytes)
      → given L s ≡ text network ∷ text command ∷ map text params
      → (length params ≤ 15
          → (s' : L.State) × (let (failed, w') =
                G.glirc_send_message (outgoing network command params) w in
              Reports failed (send_message s w) s' w'))
        × (15 < length params → Raised (send_message s w) w)
  unfolding send_message
  send_message_lem s w network command params e =
      let (s₁, r₁, g₁) = check_text L X 0 read_command s w e refl in
      let (s₂, r₂, g₂) = check_text L X 1 (read_params network) s₁ w g₁ refl in
      let count : L.lua_gettop s₂ - 2 ≡ length params = omega (
        arith,
        length-given L X s₂,
        ap (λ (xs : List Arg). length xs) g₂,
        length-map params text,
      ) in
      let head : send_message s w ≡ read_all network command (length params) s₂ w =
        r₁ ∙ r₂ ∙ ap (λ (n : ℕ). read_all network command n s₂ w) count in
      (
        λ few.
            let (s₃, r₃, g₃) =
              check_params_lem params (text network ∷ text command ∷ []) 2 s₂ w refl g₂ in
            let fits : ltb 15 (length params) ≡ false = ground arith in
            (s₃, report _ s₃ _ (head ∙ rw fits (ap (λ o. and_then o (send network command)) r₃))),
        λ many.
            let long : ltb 15 (length params) ≡ true = ground arith in
            let (v, s₃, r₃) = error_lem Unit too_many_parameters s₂ w in
            (
              v,
              s₃,
              head
                  ∙ rw long (
                      ap (λ o. and_then o (λ _. read_and_send network command (length params))) r₃),
            ),
      )
