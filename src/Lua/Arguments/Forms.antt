-- ===== src/Lua/Arguments/Forms.antt =====
-- Functions that take some strings and no other argument, and what is said of one.
use irc_core.Base.{Bytes, ℕ, ◌≡◌, ◌≢◌, [], ◌∷◌}
use irc_core.Lua.Api.{Lua, Outcome}
use irc_core.Lua.Run.{◌>>=◌, ◌>>◌}
use irc_core.Lua.Auxlib.{text, Raised, given, Auxlib}

module _ {W : Type 0} (L : Lua W) (X : Auxlib L) where
  open X use {
    lual_checklstring, checklstring-text, checklstring-other, lual_checktype_none,
    checktype_none-absent, checktype_none-present,
  }

  -- One string, two, three and four, and no more.
  abbrev pub strings1 :
      (Bytes → L.State → W → Outcome L.State W ℕ) → L.State → W → Outcome L.State W ℕ
  strings1 k = do a ← lual_checklstring 1; lual_checktype_none 2; k a

  abbrev pub strings2 :
      (Bytes → Bytes → L.State → W → Outcome L.State W ℕ) → L.State → W → Outcome L.State W ℕ
  strings2 k = do a ← lual_checklstring 1; b ← lual_checklstring 2; lual_checktype_none 3; k a b

  abbrev pub strings3 :
      (Bytes → Bytes → Bytes → L.State → W → Outcome L.State W ℕ)
      → L.State
      → W
      → Outcome L.State W ℕ
  strings3 k = do
    a ← lual_checklstring 1
    b ← lual_checklstring 2
    c ← lual_checklstring 3
    lual_checktype_none 4
    k a b c

  abbrev pub strings4 :
      (Bytes → Bytes → Bytes → Bytes → L.State → W → Outcome L.State W ℕ)
      → L.State
      → W
      → Outcome L.State W ℕ
  strings4 k = do
    a ← lual_checklstring 1
    b ← lual_checklstring 2
    c ← lual_checklstring 3
    d ← lual_checklstring 4
    lual_checktype_none 5
    k a b c d

  -- On the strings asked for, `R` holds of them and of the state behind the checks; on any other arguments it raises an error,
  -- and the client's state is as before.
  abbrev pub Takes1 : Outcome L.State W ℕ → L.State → W → (Bytes → L.State → Type 0) → Type 0
  Takes1 o s w R =
      ((a : Bytes) → given L s ≡ text a ∷ [] → (s' : L.State) × R a s' × (given L s' ≡ text a ∷ []))
      × (((a : Bytes) → given L s ≢ text a ∷ []) → Raised o w)

  abbrev pub Takes2 :
      Outcome L.State W ℕ → L.State → W → (Bytes → Bytes → L.State → Type 0) → Type 0
  Takes2 o s w R =
      ((a b : Bytes)
        → given L s ≡ text a ∷ text b ∷ []
        → (s' : L.State) × R a b s' × (given L s' ≡ text a ∷ text b ∷ []))
      × (((a b : Bytes) → given L s ≢ text a ∷ text b ∷ []) → Raised o w)

  abbrev pub Takes3 :
      Outcome L.State W ℕ → L.State → W → (Bytes → Bytes → Bytes → L.State → Type 0) → Type 0
  Takes3 o s w R =
      ((a b c : Bytes)
        → given L s ≡ text a ∷ text b ∷ text c ∷ []
        → (s' : L.State) × R a b c s' × (given L s' ≡ text a ∷ text b ∷ text c ∷ []))
      × (((a b c : Bytes) → given L s ≢ text a ∷ text b ∷ text c ∷ []) → Raised o w)

  abbrev pub Takes4 :
      Outcome L.State W ℕ
      → L.State
      → W
      → (Bytes → Bytes → Bytes → Bytes → L.State → Type 0)
      → Type 0
  Takes4 o s w R =
      ((a b c d : Bytes)
        → given L s ≡ text a ∷ text b ∷ text c ∷ text d ∷ []
        → (s' : L.State) × R a b c d s' × (given L s' ≡ text a ∷ text b ∷ text c ∷ text d ∷ []))
      × (((a b c d : Bytes) → given L s ≢ text a ∷ text b ∷ text c ∷ text d ∷ []) → Raised o w)

  pub Takes4_map :
      {o : Outcome L.State W ℕ} (s : L.State) {w : W}
      {R R' : Bytes → Bytes → Bytes → Bytes → L.State → Type 0}
      → Takes4 o s w R
      → ((a b c d : Bytes) (s' : L.State) → R a b c d s' → R' a b c d s')
      → Takes4 o s w R'
  Takes4_map s (accepts, refuses) f =
      (λ a b c d e. let (s', r, g) = accepts a b c d e in (s', f a b c d s' r, g), refuses)

  pub Takes2_map :
      {o : Outcome L.State W ℕ} (s : L.State) {w : W} {R R' : Bytes → Bytes → L.State → Type 0}
      → Takes2 o s w R
      → ((a b : Bytes) (s' : L.State) → R a b s' → R' a b s')
      → Takes2 o s w R'
  Takes2_map s (accepts, refuses) f =
      (λ a b e. let (s', r, g) = accepts a b e in (s', f a b s' r, g), refuses)

  pub Takes1_map :
      {o : Outcome L.State W ℕ} (s : L.State) {w : W} {R R' : Bytes → L.State → Type 0}
      → Takes1 o s w R
      → ((a : Bytes) (s' : L.State) → R a s' → R' a s')
      → Takes1 o s w R'
  Takes1_map s (accepts, refuses) f =
      (λ a e. let (s', r, g) = accepts a e in (s', f a s' r, g), refuses)
