-- ===== src/Otr/CommandLine.antt =====
-- otr-extension/glirc-otr.cpp: how `command_entrypoint` reads its input, with the streams of C++.
use irc_core.Base.{
  ◌∙◌, ℕ, Bool, false, ◌||◌, ◌&&◌, [], ◌∷◌, ◌++◌, Bytes, leb, ◌==◌, if◌then◌else◌, ◌≡◌, refl, zero,
  suc,
}

-- `isspace`
abbrev pub is_space : ℕ → Bool
is_space c = c == b' ' || (leb 9 c && leb c 13)

pub skip_space : Bytes → Bytes
skip_space [] = []
skip_space (c ∷ cs) = if is_space c then skip_space cs else c ∷ cs

-- `input >> name`, from the first byte of the name on: the name, and what is left.
pub word : Bytes → Bytes
word [] = []
word (c ∷ cs) = if is_space c then [] else c ∷ word cs

pub behind_word : Bytes → Bytes
behind_word [] = []
behind_word (c ∷ cs) = if is_space c then c ∷ cs else behind_word cs

-- `getline`
pub line : Bytes → Bytes
line [] = []
line (c ∷ cs) = if c == b'\n' then [] else c ∷ line cs

-- `parameters.erase(0, parameters.find_first_not_of(" "))`
pub trim_left : Bytes → Bytes
trim_left [] = []
trim_left (c ∷ cs) = if c == b' ' then trim_left cs else c ∷ cs

-- The name of the command and its parameters.
unfoldable pub split_command : Bytes → Bytes × Bytes
unfolding skip_space word behind_word line trim_left
split_command command =
    let input = skip_space command in (word input, trim_left (line (behind_word input)))

abbrev pub AllVisible : Bytes → Type 0
AllVisible [] = Unit
AllVisible (c ∷ cs) = (is_space c ≡ false) × AllVisible cs

abbrev pub OneLine : Bytes → Type 0
OneLine [] = Unit
OneLine (c ∷ cs) = ((c == b'\n') ≡ false) × OneLine cs

abbrev pub Trimmed : Bytes → Type 0
Trimmed [] = Unit
Trimmed (c ∷ cs) = (c == b' ') ≡ false

-- A number of spaces.
abbrev pub spaces : ℕ → Bytes
spaces zero = []
spaces (suc n) = b' ' ∷ spaces n

skip_space-spaces : (n : ℕ) (cs : Bytes) → skip_space (spaces n ++ cs) ≡ skip_space cs
unfolding skip_space
skip_space-spaces zero cs = refl
skip_space-spaces (suc n) cs = skip_space-spaces n cs

skip_space-visible : (c : ℕ) (cs : Bytes) → is_space c ≡ false → skip_space (c ∷ cs) ≡ c ∷ cs
unfolding skip_space
skip_space-visible c cs h = rw h

word-visible : (name rest : Bytes) → AllVisible name → word (name ++ b' ' ∷ rest) ≡ name
unfolding word
word-visible [] rest h = refl
word-visible (c ∷ cs) rest (visible, h) = rw (visible, word-visible cs rest h)

behind_word-visible :
    (name rest : Bytes) → AllVisible name → behind_word (name ++ b' ' ∷ rest) ≡ b' ' ∷ rest
unfolding behind_word
behind_word-visible [] rest h = refl
behind_word-visible (c ∷ cs) rest (visible, h) = rw (visible, behind_word-visible cs rest h)

line-OneLine : (text : Bytes) → OneLine text → line text ≡ text
unfolding line
line-OneLine [] h = refl
line-OneLine (c ∷ cs) (same, h) = rw (same, line-OneLine cs h)

line-spaces : (n : ℕ) (text : Bytes) → line (spaces n ++ text) ≡ spaces n ++ line text
unfolding line
line-spaces zero text = refl
line-spaces (suc n) text = rw (line-spaces n text)

trim_left-spaces : (n : ℕ) (text : Bytes) → Trimmed text → trim_left (spaces n ++ text) ≡ text
unfolding trim_left
trim_left-spaces zero [] h = refl
trim_left-spaces zero (c ∷ cs) h = rw h
trim_left-spaces (suc n) text h = trim_left-spaces n text h

-- A command line of a name without white space, and parameters on one line that do not begin with
-- a space, with any number of spaces before the name and at least one between the two, is read as
-- this name and these parameters.
pub split_command-print :
    (before between c : ℕ) (cs parameters : Bytes)
    → AllVisible (c ∷ cs)
    → OneLine parameters
    → Trimmed parameters
    → split_command (spaces before ++ ((c ∷ cs) ++ (spaces (suc between) ++ parameters)))
      ≡ (c ∷ cs, parameters)
unfolding split_command
split_command-print before between c cs parameters visible one trimmed =
    let name : Bytes = c ∷ cs in
    let rest : Bytes = spaces between ++ parameters in
    let skipped : skip_space (spaces before ++ (name ++ b' ' ∷ rest)) ≡ name ++ b' ' ∷ rest =
      skip_space-spaces before (name ++ b' ' ∷ rest)
      ∙ skip_space-visible c (cs ++ (b' ' ∷ rest)) visible.0 in
    rw (
      skipped,
      word-visible name rest visible,
      behind_word-visible name rest visible,
      line-spaces between parameters,
      line-OneLine parameters one,
      trim_left-spaces between parameters trimmed,
    )
