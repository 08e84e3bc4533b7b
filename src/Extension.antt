-- ===== src/Extension.antt =====
-- include/glirc-api.h: `struct glirc_extension`, with which an extension presents itself, and a history
-- of the client's calls.
use irc_core.Base.{Bytes, ℕ, Option, none, some, List, [], ◌∷◌}
use irc_core.Client.{ProcessResult, pass_message, Message, Chat, Command}

-- The result `none` is a fault. A function that is NULL is `none`.
pub record Extension (W : Type 0) : Type 1 where
  -- What the pointer that `start` returns stands for, NULL included.
  pub Session : Type 0
  pub name : Bytes
  pub major_version : ℕ
  pub minor_version : ℕ
  -- With the path of the extension's library and the extension's arguments.
  pub start : Bytes → List Bytes → W → Option (Session × W)
  pub stop : Session → W → Option W
  pub process_message : Option (Message → Session → W → Option (ProcessResult × Session × W))
  pub process_command : Option (Command → Session → W → Option (Session × W))
  pub process_chat : Option (Chat → Session → W → Option (ProcessResult × Session × W))

pub data Event : Type 0 where
  message_event : Message → Event
  command_event : Command → Event
  chat_event : Chat → Event

module _ {W : Type 0} (E : Extension W) where
  open E use {Session, start, stop, process_message, process_command, process_chat}

  abbrev pub Answered : Type 0
  Answered = Option (ProcessResult × Session × W)

  -- A command has no answer.
  abbrev pub unanswered : Option (Session × W) → Answered
  unanswered none = none
  unanswered (some (s, w)) = some (pass_message, s, w)

  -- A function that is missing is not called.
  abbrev pub call_with :
      {A : Type 0} → Option (A → Session → W → Answered) → A → Session → W → Answered
  call_with none a s w = some (pass_message, s, w)
  call_with (some f) a s w = f a s w

  abbrev pub call_command :
      Option (Command → Session → W → Option (Session × W)) → Command → Session → W → Answered
  call_command none c s w = some (pass_message, s, w)
  call_command (some f) c s w = unanswered (f c s w)

  abbrev pub deliver : Event → Session → W → Answered
  deliver (message_event msg) s w = call_with process_message msg s w
  deliver (chat_event chat) s w = call_with process_chat chat s w
  deliver (command_event cmd) s w = call_command process_command cmd s w

  abbrev pub in_front :
      ProcessResult
      → Option (List ProcessResult × Session × W)
      → Option (List ProcessResult × Session × W)
  in_front r none = none
  in_front r (some (rs, s, w)) = some (r ∷ rs, s, w)

  -- One event behind the other, with the answers.
  unfoldable pub deliver_all : List Event → Session → W → Option (List ProcessResult × Session × W)
  deliver_all [] s w = some ([], s, w)
  deliver_all (e ∷ es) s w = elim (deliver e s w) [
    | none ↦ none
    | some (r, s', w') ↦ in_front r (deliver_all es s' w')
  ]
