-- ===== src/Examples/Desk.antt =====
-- A client with timers, whose user writes to "Bob" on one network, and a small libotr that hides texts
-- and asks to be polled.
use irc_core.Base.{
  ℕ, ◌==◌, ◌≡◌, refl, ap, Bool, true, false, not, Option, none, some, List, [], ◌∷◌, Bytes, codes,
  bytes_eq, if◌then◌else◌, arith,
}
use irc_core.Client.{Client, MessageCode, Message}
use irc_core.Lua.Value.{integer, update, update_self, update_ne}
use irc_core.Otr.Libotr.{
  Libotr, Fingerprint, ConnContext, encrypted, nototr, query, op_timer_control, Run, done, call,
}
use irc_core.Otr.Session.{is_empty}
use irc_core.Otr.Timers.{Timers}
use irc_core.Otr.Wishes.{Wishes}

pub data Line : Type 0 where
  printed : MessageCode → Option Bytes → Line
  sent : Message → Line
  injected : Bytes → Bytes → Bytes → Line
  written : Bytes → Line

pub record Desk : Type 0 where
  pub timers : List (ℕ × ℕ)
  pub lines : List Line

abbrev note : Line → Desk → Desk
note l w = record w { lines = l ∷ w.lines }

-- Every timer of this identifier is left out.
abbrev without : ℕ → List (ℕ × ℕ) → List (ℕ × ℕ)
without n [] = []
without n ((m, ms) ∷ ts) = let rest = without n ts in if n == m then rest else (m, ms) ∷ rest

abbrev named_channel : Bytes → Bool
named_channel [] = false
named_channel (c ∷ cs) = c == b'#'

abbrev pub desk : Client
desk = record {
  World = Desk;
  glirc_print = λ code msg w. note (printed code msg) w;
  glirc_send_message = λ msg w. (false, note (sent msg) w);
  glirc_inject_chat = λ network src tgt msg w. (false, note (injected src tgt msg) w);
  glirc_list_networks = λ w. (none, w);
  glirc_list_channels = λ network w. (none, w);
  glirc_list_channel_users = λ network channel w. (none, w);
  glirc_current_focus = λ w. (some (codes "net"), some (codes "Bob"), w);
  glirc_set_focus = λ network target w. w;
  glirc_my_nick =
      λ network w. (if bytes_eq network (codes "net") then some (codes "Alice") else none, w);
  glirc_user_account = λ network nick w. (none, w);
  glirc_user_channel_modes = λ network channel nick w. (none, w);
  glirc_channel_modes = λ network channel w. (none, w);
  glirc_channel_masks = λ network channel mode w. (none, w);
  glirc_mark_seen = λ network channel w. w;
  glirc_clear_window = λ network channel w. w;
  glirc_identifier_cmp = λ a b. integer 0;
  glirc_is_channel = λ network target w. (named_channel target, w);
  glirc_is_logged_on = λ network target w. (false, w);
  glirc_resolve_path = λ path w. (some path, w);
  glirc_window_lines = λ network target filtered w. (none, w);
  glirc_set_timer = λ ms st w. (3, record w { timers = (3, ms) ∷ w.timers });
  glirc_cancel_timer = λ tid w. (none, record w { timers = without tid w.timers });
  glirc_thread = λ command st w. w;
  glirc_free_string = λ s w. w;
  glirc_free_strings = λ ss w. w;
}

-- The trust of each fingerprint, and how often to poll.
pub record Trusts : Type 0 where
  pub trust : ℕ → Bytes
  pub wish : ℕ

abbrev pub empty_trusts : Trusts
empty_trusts = record { trust = λ fp. []; wish = 0 }

abbrev print_at : Trusts → ℕ → Fingerprint
print_at us fp = record { fingerprint = fp ∷ []; trust = us.trust fp }

-- The one conversation.
abbrev talk : ConnContext
talk = record {
  username = codes "bob";
  accountname = codes "alice";
  protocol = codes "net";
  active_fingerprint = some 4;
  smstate = none;
  our_instance = 256;
  their_instance = 257;
  protocol_version = 3;
  msgstate = encrypted;
}

abbrev trusted : Trusts → Option ℕ → Bool
trusted us none = false
trusted us (some fp) = not (is_empty (us.trust fp))

pub trusted_empty : (us : Trusts) (fp : ℕ) → us.trust fp ≡ [] → trusted us (some fp) ≡ false
trusted_empty us fp h = ap (λ (b : Bytes). not (is_empty b)) h

pub trusted_text :
    (us : Trusts) (fp c : ℕ) (cs : Bytes) → us.trust fp ≡ c ∷ cs → trusted us (some fp) ≡ true
trusted_text us fp c cs h = ap (λ (b : Bytes). not (is_empty b)) h

-- A text is hidden, and libotr is to be polled in five seconds.
abbrev hide : Bytes → Trusts → Run Trusts (Bool × Option Bytes)
hide message us =
    call (op_timer_control 5) us
      (λ answer us'. done (false, some (codes "?OTR:")) (record us' { wish = 5 }))

-- A hidden text is shown.
abbrev show : Bytes → Trusts → Run Trusts (Bool × Option Bytes)
show message us =
    done (if bytes_eq message (codes "?OTR:") then (false, some (codes "hi")) else (false, none)) us

abbrev pub small : Libotr Desk
small = record {
  Us = Trusts;
  otrl_userstate_create = empty_trusts;
  otrl_userstate_free = λ us w. w;
  otrl_policy_default = 118;
  otrl_policy_send_whitespace_tag = 16;
  context = λ us c. talk;
  fingerprint_at = print_at;
  otrl_context_find = λ us username accountname protocol. some 1;
  otrl_context_is_fingerprint_trusted = trusted;
  trusted-none = λ us. refl;
  trusted-empty = trusted_empty;
  trusted-text = trusted_text;
  otrl_context_set_trust = λ fp trust us. record us { trust = update us.trust fp trust };
  set_trust-self = λ us fp trust.
      ap (λ (b : Bytes). record (print_at us fp) { trust = b }) (update_self us.trust fp trust);
  set_trust-other = λ us fp q trust ne.
      ap (λ (b : Bytes). record (print_at us q) { trust = b }) (update_ne us.trust fp trust ne);
  set_trust-context = λ us fp c trust. refl;
  otrl_privkey_hash_to_human = λ fp. fp;
  otrl_privkey_fingerprint = λ us accountname protocol. some accountname;
  otrl_version = codes "4.1.1";
  otrl_proto_message_type = λ message. if bytes_eq message (codes "?OTR?") then query else nototr;
  otrl_privkey_write_fingerprints = λ path us w. note (written path) w;
  otrl_privkey_generate = λ path accountname protocol us w. (us, note (written path) w);
  otrl_instag_generate = λ path accountname protocol us w. (us, note (written path) w);
  otrl_privkey_read = λ path us w. (us, w);
  otrl_instag_read = λ path us w. (us, w);
  otrl_privkey_read_fingerprints = λ path us w. (us, w);
  otrl_message_sending = λ accountname protocol username message us. hide message us;
  otrl_message_receiving = λ accountname protocol username message us. show message us;
  otrl_message_disconnect_all_instances = λ accountname protocol username us. done tt us;
  otrl_message_initiate_smp = λ c secret us. done tt us;
  otrl_message_respond_smp = λ c secret us. done tt us;
  otrl_message_poll = λ us. done tt us;
}

without-one : (n ms : ℕ) → without n ((n, ms) ∷ []) ≡ []
without-one n ms = ground arith

pub cancel_law : (tid ms : ℕ) (w : Desk) → w.timers ≡ (tid, ms) ∷ [] → without tid w.timers ≡ []
cancel_law tid ms w h = rw h (without-one tid ms)

abbrev wished : Wishes small
wished = record {
  wish = λ us. us.wish;
  wish-create = refl;
  wish-set_trust = λ fp trust us. refl;
  wish-privkey_generate = λ path accountname protocol us w. refl;
  wish-instag_generate = λ path accountname protocol us w. refl;
  wish-privkey_read = λ path us w. refl;
  wish-instag_read = λ path us w. refl;
  wish-read_fingerprints = λ path us w. refl;
  honest-sending = λ accountname protocol username message us answer us' h. refl;
  honest-receiving = λ accountname protocol username message us. refl;
  honest-disconnect = λ accountname protocol username us. refl;
  honest-initiate_smp = λ c secret us. refl;
  honest-respond_smp = λ c secret us. refl;
  honest-poll = λ us. refl;
}

abbrev pub kept : Timers desk small 9
kept = record {
  wishes = wished;
  pending = λ w. w.timers;
  pending-set = λ ms w. refl;
  pending-cancel = cancel_law;
  pending-print = λ code text w. refl;
  pending-inject_chat = λ net src tgt text w. refl;
  pending-send_message = λ msg w. refl;
  pending-is_logged_on = λ net tgt w. refl;
  pending-is_channel = λ net tgt w. refl;
  pending-my_nick = λ net w. refl;
  pending-current_focus = λ w. refl;
  pending-free_string = λ s w. refl;
  pending-write_fingerprints = λ path us w. refl;
  pending-privkey_generate = λ path accountname protocol us w. refl;
  pending-instag_generate = λ path accountname protocol us w. refl;
  pending-privkey_read = λ path us w. refl;
  pending-instag_read = λ path us w. refl;
  pending-read_fingerprints = λ path us w. refl;
}
