-- ===== src/Library/Lists.antt =====
-- lua-extension/glirc-lib.c: questions to the client that are answered by strings.
pub mod Lines
use irc_core.Base.{
  Bytes, Bool, false, [], ◌≤◌, ◌<◌, length, get_elem?, refl, arith, inl, inr, ℕ, ◌≡◌, ap, ◌∙◌,
  Option, none, some, List, ◌∷◌,
}
use irc_core.Client.{Client}
use irc_core.Lua.Value.{table, Fields}
use irc_core.Lua.Api.{Lua, Outcome, returned}
use irc_core.Lua.Run.{and_then, ◌>>=◌, ◌>>◌, return, lua, client}
use irc_core.Lua.Auxlib.{Arg, text, given, arg_truthy, Raised, Auxlib}
use irc_core.Lua.Arguments.{
  Takes1, Takes2, Takes3, Takes1_map, Takes2_map, strings1_lem, strings2_lem, strings3_lem,
  check_text, absent_text, none_cases, Raised-trans,
}
use irc_core.Lua.Tables.{with_table}
use irc_core.Marshal.{import_string_array}
use irc_core.Marshal.Arrays.{string_or_nil, IsArray, import_string_array_lem}
use irc_core.Library.{Code, ask, no_such_network, no_such_channel, client_failure}

module _ (G : Client) (L : Lua G.World) (X : Auxlib L) where
  open X use {
    lual_checklstring, lual_checktype_none, lual_error, error_lem, argument_truthy,
    argument_truthy_lem, argument_truthy_absent,
  }

  -- `if (list == NULL) { lual_error(L, message); }`, and else the table of the strings is the result.
  array_or_error : Bytes → Option (List Bytes) → Code G L X ℕ
  array_or_error message none = lual_error ℕ message
  array_or_error message (some list) = do import_string_array G L list; return 1

  -- `lua_pushstring`, of which a NULL pushes nil, and the string is given back to the client.
  string_result : Option Bytes → Code G L X ℕ
  string_result b = do lua (L.lua_push (string_or_nil b)); client (G.glirc_free_string b); return 1

  pub list_networks : Code G L X ℕ
  unfolding array_or_error
  list_networks = do
    lual_checktype_none 1
    networks ← ask G L X G.glirc_list_networks
    array_or_error client_failure networks

  pub list_channels : Code G L X ℕ
  unfolding array_or_error
  list_channels = do
    network ← lual_checklstring 1
    lual_checktype_none 2
    channels ← ask G L X (G.glirc_list_channels network)
    array_or_error no_such_network channels

  pub list_channel_users : Code G L X ℕ
  unfolding array_or_error
  list_channel_users = do
    network ← lual_checklstring 1
    channel ← lual_checklstring 2
    lual_checktype_none 3
    users ← ask G L X (G.glirc_list_channel_users network channel)
    array_or_error no_such_channel users

  abbrev lines : Bytes → Bytes → Bool → Code G L X ℕ
  lines network target filtered = do
    lual_checktype_none 4
    res ← ask G L X (G.glirc_window_lines network target filtered)
    array_or_error client_failure res

  abbrev lines_filtered : Bytes → Bytes → Code G L X ℕ
  lines_filtered network target s w = lines network target (argument_truthy 3 s) s w

  abbrev lines_of : Bytes → Code G L X ℕ
  lines_of network = do target ← lual_checklstring 2; lines_filtered network target

  pub window_lines : Code G L X ℕ
  unfolding array_or_error
  window_lines = do network ← lual_checklstring 1; lines_of network

  pub user_account : Code G L X ℕ
  unfolding string_result
  user_account = do
    net ← lual_checklstring 1
    nick ← lual_checklstring 2
    lual_checktype_none 3
    acct ← ask G L X (G.glirc_user_account net nick)
    string_result acct

  pub user_channel_modes : Code G L X ℕ
  unfolding string_result
  user_channel_modes = do
    net ← lual_checklstring 1
    chan ← lual_checklstring 2
    nick ← lual_checklstring 3
    lual_checktype_none 4
    sigils ← ask G L X (G.glirc_user_channel_modes net chan nick)
    string_result sigils

  pub my_nick : Code G L X ℕ
  unfolding string_result
  my_nick = do
    net ← lual_checklstring 1
    lual_checktype_none 2
    nick ← ask G L X (G.glirc_my_nick net)
    string_result nick

  pub resolve_path : Code G L X ℕ
  unfolding string_result
  resolve_path = do
    path ← lual_checklstring 1
    lual_checktype_none 2
    res ← ask G L X (G.glirc_resolve_path path)
    string_result res

  -- How a question for a list ends: with the table of the strings on top of the arguments, or with
  -- an error where there is no list.
  abbrev pub Lists : Option (List Bytes) → Outcome L.State G.World ℕ → L.State → G.World → Type 0
  Lists none o s w = Raised o w
  Lists (some list) o s w =
      (s' : L.State) × (t : ℕ) × (f : Fields) × (o ≡ returned 1 s' (G.glirc_free_strings list w))
      × (L.view s' ≡ with_table (L.view s) (table t ∷ (L.view s).stack) t f)
      × ((L.view s).tables t ≡ none)
      × IsArray f list

  pub array_lem :
      (list : List Bytes) (s : L.State) (w : G.World) {o : Outcome L.State G.World ℕ}
      → o ≡ (import_string_array G L list >> return 1) s w
      → Lists (some list) o s w
  array_lem list s w e =
      let (s', f, ran, at_s', array) = import_string_array_lem G L list s w in
      (
        s',
        L.new_address s,
        f,
        e ∙ ap (λ o. and_then o (λ _. return 1)) ran,
        at_s',
        L.new_address-ne_table s,
        array,
      )

  array_or_error_lem :
      (message : Bytes) (list : Option (List Bytes)) (s : L.State) (w : G.World)
      {o : Outcome L.State G.World ℕ}
      → o ≡ array_or_error message list s w
      → Lists list o s w
  unfolding array_or_error
  array_or_error_lem message none s w e = let (v, s', r) = error_lem ℕ message s w in (v, s', e ∙ r)
  array_or_error_lem message (some list) s w e = array_lem list s w e

  -- `glirc.list_channels` takes a network's name and `glirc.list_channel_users` a channel's too.
  -- The result is a new table, the Lua array of the client's strings in their order, which are then
  -- given back to the client; where the client has no list, and on any other arguments, an error is
  -- raised.
  list_channels_lem :
      (s : L.State) (w : G.World)
      → Takes1 L X (list_channels s w) s w (λ net s'.
        let (list, w') = G.glirc_list_channels net w in Lists list (list_channels s w) s' w')
        × Takes2 L X (list_channel_users s w) s w (λ net chan s'.
          let (list, w') = G.glirc_list_channel_users net chan w in
          Lists list (list_channel_users s w) s' w')
  unfolding list_channels list_channel_users
  list_channels_lem s w = (
    Takes1_map L X s (strings1_lem L X _ s w)
        (λ net s' e. array_or_error_lem no_such_network _ s' _ e),
    Takes2_map L X s (strings2_lem L X _ s w)
        (λ net chan s' e. array_or_error_lem no_such_channel _ s' _ e),
  )

  -- Each question for one string takes its arguments as strings, and pushes the client's answer, or
  -- nil where there is none; the answer is given back to the client. On any other arguments an error
  -- is raised and the client is not asked.
  string_questions :
      (s : L.State) (w : G.World)
      → Takes1 L X (my_nick s w) s w (λ net s'.
        let (b, w') = G.glirc_my_nick net w in
        my_nick s w ≡ returned 1 (L.lua_push (string_or_nil b) s') (G.glirc_free_string b w'))
        × Takes1 L X (resolve_path s w) s w (λ path s'.
          let (b, w') = G.glirc_resolve_path path w in
          resolve_path s w
          ≡ returned 1 (L.lua_push (string_or_nil b) s') (G.glirc_free_string b w'))
        × Takes2 L X (user_account s w) s w (λ net nick s'.
          let (b, w') = G.glirc_user_account net nick w in
          user_account s w
          ≡ returned 1 (L.lua_push (string_or_nil b) s') (G.glirc_free_string b w'))
        × Takes3 L X (user_channel_modes s w) s w (λ net chan nick s'.
          let (b, w') = G.glirc_user_channel_modes net chan nick w in
          user_channel_modes s w
          ≡ returned 1 (L.lua_push (string_or_nil b) s') (G.glirc_free_string b w'))
  unfolding my_nick resolve_path user_account user_channel_modes
  string_questions s w = (
    strings1_lem L X _ s w,
    strings1_lem L X _ s w,
    strings2_lem L X _ s w,
    strings3_lem L X _ s w,
  )
