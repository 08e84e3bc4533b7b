-- ===== src/Lua/Optional.antt =====
-- The argument checks of the C functions that take up to two optional strings.
use irc_core.Base.{
  Bytes, ℕ, suc, ◌≤◌, ◌<◌, ◌≡◌, refl, ap, ◌∙◌, Option, none, some, List, ◌⊎◌, inl, inr, length,
  get_elem?,
}
use irc_core.Lua.Api.{Lua, Outcome}
use irc_core.Lua.Run.{and_then, ◌>>=◌}
use irc_core.Lua.Auxlib.{Arg, optional, Raised, given, Auxlib}
use irc_core.Lua.Arguments.{Raised-trans}

option_cases : (o : Option (Option Bytes)) → (o ≡ none) ⊎ ((b : Option Bytes) × (o ≡ some b))
option_cases none = inl refl
option_cases (some b) = inr (b, refl)

module _ {W : Type 0} (L : Lua W) (X : Auxlib L) where
  open X use {lual_optlstring, optlstring-some, optlstring-none, lual_checktype_none}

  opt_text :
      (i : ℕ) (m : Option Bytes → L.State → W → Outcome L.State W ℕ) (s : L.State) (w : W)
      (b : Option Bytes) {xs : List Arg}
      → given L s ≡ xs
      → optional (get_elem? xs i) ≡ some b
      → (s' : L.State) × ((lual_optlstring (suc i) >>= m) s w ≡ m b s' w) × (given L s' ≡ xs)
  opt_text i m s w b e h =
      let (s', ran, same) =
        optlstring-some i s w b (ap (λ (ys : List Arg). optional (get_elem? ys i)) e ∙ h) in
      (s', ap (λ o. and_then o m) ran, same ∙ e)

  opt_none :
      (i : ℕ) (m : Option Bytes → L.State → W → Outcome L.State W ℕ) (s : L.State) (w : W)
      {xs : List Arg}
      → given L s ≡ xs
      → optional (get_elem? xs i) ≡ none
      → Raised ((lual_optlstring (suc i) >>= m) s w) w
  opt_none i m s w e h =
      let (v, s', ran) =
        optlstring-none i s w (ap (λ (ys : List Arg). optional (get_elem? ys i)) e ∙ h) in
      (v, s', ap (λ o. and_then o m) ran)

  abbrev rest_1 :
      (Option Bytes → Option Bytes → L.State → W → Outcome L.State W ℕ)
      → Option Bytes
      → L.State
      → W
      → Outcome L.State W ℕ
  rest_1 k a = lual_optlstring 2 >>= k a

  abbrev pub optionals :
      (Option Bytes → Option Bytes → L.State → W → Outcome L.State W ℕ)
      → L.State
      → W
      → Outcome L.State W ℕ
  optionals k = do a ← lual_optlstring 1; b ← lual_optlstring 2; k a b

  -- The first two arguments are strings, nil or absent, with `a` and `b` for what they are.
  abbrev pub AreOptional : List Arg → Option Bytes → Option Bytes → Type 0
  AreOptional xs a b = (optional (get_elem? xs 0) ≡ some a) × (optional (get_elem? xs 1) ≡ some b)

  -- Both are read, or the reading of one raises an error.
  pub optionals_lem :
      (k : Option Bytes → Option Bytes → L.State → W → Outcome L.State W ℕ) (s : L.State) (w : W)
      → ((a b : Option Bytes) × (s' : L.State) × AreOptional (given L s) a b
          × (optionals k s w ≡ k a b s' w)
          × (given L s' ≡ given L s))
        ⊎ (((a b : Option Bytes) → ¬ AreOptional (given L s) a b) × Raised (optionals k s w) w)
  optionals_lem k s w = elim (option_cases (optional (get_elem? (given L s) 0))) [
    | inl no_a ↦ inr ((λ a b both. cc (both.0)), opt_none 0 (rest_1 k) s w refl no_a)
    | inr (a, is_a) ↦
        let (s₁, r₁, g₁) = opt_text 0 (rest_1 k) s w a refl is_a in
        elim (option_cases (optional (get_elem? (given L s) 1))) [
          | inl no_b ↦
              inr ((λ a b both. cc (both.1)), Raised-trans L X r₁ (opt_none 1 (k a) s₁ w g₁ no_b))
          | inr (b, is_b) ↦
              let (s₂, r₂, g₂) = opt_text 1 (k a) s₁ w b g₁ is_b in
              inl (a, b, s₂, (is_a, is_b), r₁ ∙ r₂, g₂)
        ]
  ]

  pub optionals_accept :
      (k : Option Bytes → Option Bytes → L.State → W → Outcome L.State W ℕ) (s : L.State) (w : W)
      (a b : Option Bytes)
      → AreOptional (given L s) a b
      → (s' : L.State) × (optionals k s w ≡ k a b s' w) × (given L s' ≡ given L s)
  optionals_accept k s w a b (is_a, is_b) =
      let (s₁, r₁, g₁) = opt_text 0 (rest_1 k) s w a refl is_a in
      let (s₂, r₂, g₂) = opt_text 1 (k a) s₁ w b g₁ is_b in (s₂, r₁ ∙ r₂, g₂)

  -- With at most two arguments that are strings or nil, `R` holds of them and of the state behind
  -- the checks; with any others an error is raised, and the client's state is as before.
  abbrev pub TakesOptional :
      Outcome L.State W ℕ → L.State → W → (Option Bytes → Option Bytes → L.State → Type 0) → Type 0
  TakesOptional o s w R =
      ((a b : Option Bytes)
        → AreOptional (given L s) a b
        → length (given L s) ≤ 2
        → (s' : L.State) × R a b s')
      × (((a b : Option Bytes) → AreOptional (given L s) a b → 2 < length (given L s)) → Raised o w)
