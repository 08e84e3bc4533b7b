-- ===== src/Sample.antt =====
-- sample-extension/sample.c: an extension that writes the command of each message to a file. The C
-- library's files are the parameter `Files`.
pub mod Lines
use irc_core.Base.{Bytes, ℕ, codes, ◌++◌, ◌≡◌, Option, none, some, [], ◌∷◌, List, length}
use irc_core.Client.{ProcessResult, pass_message, Message}
use irc_core.Extension.{Extension}

-- `FILE *` is an address. What is written to a file that is open is kept until it is flushed; `stored`
-- is what is found in the file of a name, and `text` what has been written to an open one. Writing
-- does not fail.
pub record Files (W : Type 0) : Type 0 where
  pub fopen : Bytes → W → Option ℕ × W
  pub text : ℕ → W → Bytes
  pub stored : Bytes → W → Bytes
  pub opened_as : ℕ → W → Option Bytes
  pub fopen-new :
      (path : Bytes) (w : W) (f : ℕ)
      → (fopen path w).0 ≡ some f
      → (text f (fopen path w).1 ≡ []) × (opened_as f (fopen path w).1 ≡ some path)
  pub fwrite : Bytes → ℕ → W → W
  pub fwrite-text :
      (b : Bytes) (f : ℕ) (w : W) (path : Bytes)
      → opened_as f w ≡ some path
      → (text f (fwrite b f w) ≡ text f w ++ b) × (opened_as f (fwrite b f w) ≡ some path)
  pub fflush : ℕ → W → W
  pub fflush-stored :
      (f : ℕ) (w : W) (path : Bytes)
      → opened_as f w ≡ some path
      → (stored path (fflush f w) ≡ text f w)
        × (text f (fflush f w) ≡ text f w)
        × (opened_as f (fflush f w) ≡ some path)
  pub fclose : ℕ → W → W
  pub fclose-stored :
      (f : ℕ) (w : W) (path : Bytes)
      → opened_as f w ≡ some path
      → stored path (fclose f w) ≡ text f w

abbrev pub output_path : Bytes
output_path = codes "sample-output.txt"

module _ {W : Type 0} (F : Files W) where
  open F use {fopen, fwrite, fflush, fclose}

  -- The file, or NULL where it could not be opened.
  unfoldable pub start : Bytes → List Bytes → W → Option (Option ℕ × W)
  start path args w = some (fopen output_path w)

  unfoldable pub stop : Option ℕ → W → Option W
  stop none w = none
  stop (some f) w = some (fclose f w)

  -- `fputs` is a write of a text.
  unfoldable pub process_message : Message → Option ℕ → W → Option (ProcessResult × Option ℕ × W)
  process_message msg none w = none
  process_message msg (some f) w =
      some (pass_message, some f, fflush f (fwrite (codes "\n") f (fwrite msg.command f w)))

  abbrev pub extension : Extension W
  extension = record {
    Session = Option ℕ;
    name = codes "sample";
    major_version = 1;
    minor_version = 0;
    start = start;
    stop = stop;
    process_message = some process_message;
    process_command = none;
    process_chat = none;
  }
