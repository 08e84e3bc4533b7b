-- ===== src/Sample/Lines.antt =====
-- The file that sample-extension/sample.c leaves behind.
use irc_core.Base.{
  Bytes, ℕ, codes, ◌++◌, ◌≡◌, refl, ap, ◌∙◌, append_assoc, append-nil, Option, none, some, List, [],
  ◌∷◌, sym,
}
use irc_core.Client.{ProcessResult, pass_message, Message}
use irc_core.Extension.{Event, message_event, command_event, chat_event, deliver_all, in_front}
use irc_core.Sample.{Files, output_path, start, stop, process_message, extension}

-- The commands of the messages, one on a line.
abbrev pub command_lines : List Event → Bytes
command_lines [] = []
command_lines (message_event msg ∷ es) = msg.command ++ codes "\n" ++ command_lines es
command_lines (e ∷ es) = command_lines es

-- Every answer lets the event pass.
abbrev pub passes : List Event → List ProcessResult
passes [] = []
passes (e ∷ es) = pass_message ∷ passes es

module _ {W : Type 0} (F : Files W) where
  open F use {
    fopen, text, stored, opened_as, fopen-new, fwrite, fwrite-text, fflush, fflush-stored, fclose,
    fclose-stored,
  }

  -- The events are let through, and their lines are at the end of the open file.
  abbrev Grew : List Event → ℕ → W → Type 0
  Grew es f w =
      (w' : W) × (deliver_all (extension F) es (some f) w ≡ some (passes es, some f, w'))
      × (text f w' ≡ text f w ++ command_lines es)
      × (opened_as f w' ≡ some output_path)

  -- The state in which a message leaves the file.
  abbrev after_message : Message → ℕ → W → W
  after_message msg f w = fflush f (fwrite (codes "\n") f (fwrite msg.command f w))

  after_message_lem :
      (msg : Message) (f : ℕ) (w : W)
      → opened_as f w ≡ some output_path
      → (text f (after_message msg f w) ≡ text f w ++ (msg.command ++ codes "\n"))
        × (opened_as f (after_message msg f w) ≡ some output_path)
  after_message_lem msg f w open_w =
      let (t, o) = fwrite-text msg.command f w output_path open_w in
      let (t', o') = fwrite-text (codes "\n") f _ output_path o in
      let (kept, t'', o'') = fflush-stored f _ output_path o' in
      (
        t''
            ∙ t'
            ∙ ap (λ (b : Bytes). b ++ codes "\n") t
            ∙ append_assoc (text f w) msg.command (codes "\n"),
        o'',
      )

  events-Grew : (es : List Event) (f : ℕ) (w : W) → opened_as f w ≡ some output_path → Grew es f w
  unfolding deliver_all process_message
  events-Grew [] f w open_w = (w, refl, sym (append-nil (text f w)), open_w)
  events-Grew (message_event msg ∷ es) f w open_w =
      let (t, o) = after_message_lem msg f w open_w in
      let (w', all, t', o') = events-Grew es f (after_message msg f w) o in
      (
        w',
        ap (in_front (extension F) pass_message) all,
        t'
            ∙ ap (λ (b : Bytes). b ++ command_lines es) t
            ∙ append_assoc (text f w) (msg.command ++ codes "\n") (command_lines es),
        o',
      )
  events-Grew (command_event cmd ∷ es) f w open_w =
      let (w', all, t, o) = events-Grew es f w open_w in
      (w', ap (in_front (extension F) pass_message) all, t, o)
  events-Grew (chat_event chat ∷ es) f w open_w =
      let (w', all, t, o) = events-Grew es f w open_w in
      (w', ap (in_front (extension F) pass_message) all, t, o)

  -- What is left of the extension's life by the file that was opened for it, or was not.
  abbrev pub Wrote : List Event → Option ℕ × W → Type 0
  Wrote es (some f, w) =
      (w' : W) × (w'' : W) × (deliver_all (extension F) es (some f) w
        ≡ some (passes es, some f, w'))
      × (stop F (some f) w' ≡ some w'')
      × (stored output_path w'' ≡ command_lines es)
  Wrote es (none, w) =
      ((msg : Message) → deliver_all (extension F) (message_event msg ∷ es) none w ≡ none)
      × (stop F none w ≡ none)

  opened-Wrote :
      (es : List Event) (f : ℕ) (w : W)
      → text f w ≡ []
      → opened_as f w ≡ some output_path
      → Wrote es (some f, w)
  unfolding stop
  opened-Wrote es f w empty open_w =
      let (w', all, t, o) = events-Grew es f w open_w in
      (
        w',
        fclose f w',
        all,
        refl,
        fclose-stored f w' output_path o ∙ t ∙ ap (λ (b : Bytes). b ++ command_lines es) empty,
      )

  -- Where its file can be opened, the extension lets all events pass, and when it has stopped, the file
  -- holds the commands of all messages, one on a line, in their order, and nothing else. Where the file
  -- cannot be opened, the first message and the end are calls of the C library with a null pointer.
  pub start-Wrote :
      (path : Bytes) (args : List Bytes) (es : List Event) (w : W)
      → (session : Option ℕ) × (w' : W) × (start F path args w ≡ some (session, w'))
        × Wrote es (session, w')
  unfolding start stop deliver_all process_message
  start-Wrote path args es w = (_, _, refl, opened (fopen output_path w) refl)
    where
      opened : (r : Option ℕ × W) → fopen output_path w ≡ r → Wrote es r
      opened (some f, w') h =
          let (empty, o) = fopen-new output_path w f (ap (λ (r : Option ℕ × W). r.0) h) in
          opened-Wrote es f w' (ap (λ (r : Option ℕ × W). text f r.1) (sym h) ∙ empty)
            (ap (λ (r : Option ℕ × W). opened_as f r.1) (sym h) ∙ o)
      opened (none, w') h = (λ msg. refl, refl)
