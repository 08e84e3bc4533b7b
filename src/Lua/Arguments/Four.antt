-- ===== src/Lua/Arguments/Four.antt =====
-- Functions that take four strings.
use irc_core.Base.{
  Bytes, ℕ, ◌<◌, ◌≡◌, refl, sym, ap, subst, ◌∙◌, some, List, [], ◌∷◌, inl, inr, length, get_elem?,
  arith,
}
use irc_core.Lua.Api.{Lua, Outcome}
use irc_core.Lua.Run.{◌>>=◌, ◌>>◌}
use irc_core.Lua.Auxlib.{Arg, text, given, Auxlib}
use irc_core.Lua.Arguments.Steps.{check_cases, check_text, none_cases, Raised-trans, absent_text}
use irc_core.Lua.Arguments.Forms.{strings4, Takes4}

four_texts :
    (xs : List Arg) (a b c d : Bytes)
    → get_elem? xs 0 ≡ some (text a)
    → get_elem? xs 1 ≡ some (text b)
    → get_elem? xs 2 ≡ some (text c)
    → get_elem? xs 3 ≡ some (text d)
    → length xs < 5
    → xs ≡ text a ∷ text b ∷ text c ∷ text d ∷ []
four_texts [] a b c d h0 h1 h2 h3 less = cc
four_texts (x ∷ []) a b c d h0 h1 h2 h3 less = cc
four_texts (x ∷ y ∷ []) a b c d h0 h1 h2 h3 less = cc
four_texts (x ∷ y ∷ z ∷ []) a b c d h0 h1 h2 h3 less = cc
four_texts (x ∷ y ∷ z ∷ u ∷ []) a b c d h0 h1 h2 h3 less = cc
four_texts (x ∷ y ∷ z ∷ u ∷ t ∷ xs) a b c d h0 h1 h2 h3 less = absurd (omega arith)

module _ {W : Type 0} (L : Lua W) (X : Auxlib L) where
  open X use {
    lual_checklstring, checklstring-text, checklstring-other, lual_checktype_none,
    checktype_none-absent, checktype_none-present,
  }

  abbrev rest4_3 :
      (Bytes → Bytes → Bytes → Bytes → L.State → W → Outcome L.State W ℕ)
      → Bytes
      → Bytes
      → Bytes
      → Bytes
      → L.State
      → W
      → Outcome L.State W ℕ
  rest4_3 k a b c d = lual_checktype_none 5 >> k a b c d

  abbrev rest4_2 :
      (Bytes → Bytes → Bytes → Bytes → L.State → W → Outcome L.State W ℕ)
      → Bytes
      → Bytes
      → Bytes
      → L.State
      → W
      → Outcome L.State W ℕ
  rest4_2 k a b c = lual_checklstring 4 >>= rest4_3 k a b c

  abbrev rest4_1 :
      (Bytes → Bytes → Bytes → Bytes → L.State → W → Outcome L.State W ℕ)
      → Bytes
      → Bytes
      → L.State
      → W
      → Outcome L.State W ℕ
  rest4_1 k a b = lual_checklstring 3 >>= rest4_2 k a b

  abbrev rest4_0 :
      (Bytes → Bytes → Bytes → Bytes → L.State → W → Outcome L.State W ℕ)
      → Bytes
      → L.State
      → W
      → Outcome L.State W ℕ
  rest4_0 k a = lual_checklstring 2 >>= rest4_1 k a

  pub strings4_lem :
      (k : Bytes → Bytes → Bytes → Bytes → L.State → W → Outcome L.State W ℕ) (s : L.State) (w : W)
      → Takes4 L X (strings4 L X k s w) s w (λ a b c d s'. strings4 L X k s w ≡ k a b c d s' w)
  strings4_lem k s w = (
    λ a b c d e.
        let (s1, r1, g1) = check_text L X 0 (rest4_0 k) s w e refl in
        let (s2, r2, g2) = check_text L X 1 (rest4_1 k a) s1 w g1 refl in
        let (s3, r3, g3) = check_text L X 2 (rest4_2 k a b) s2 w g2 refl in
        let (s4, r4, g4) = check_text L X 3 (rest4_3 k a b c) s3 w g3 refl in
        (s4, r1 ∙ r2 ∙ r3 ∙ r4 ∙ absent_text L X 5 (k a b c d) s4 w g4 (omega arith), g4),
    λ other. elim (check_cases L X 0 (rest4_0 k) s w) [
      | inr r ↦ r
      | inl (a, s1, h1, r1, g1) ↦ elim (check_cases L X 1 (rest4_1 k a) s1 w) [
        | inr r ↦ Raised-trans L X (r1) r
        | inl (b, s2, h2, r2, g2) ↦ elim (check_cases L X 2 (rest4_2 k a b) s2 w) [
          | inr r ↦ Raised-trans L X (r1 ∙ r2) r
          | inl (c, s3, h3, r3, g3) ↦ elim (check_cases L X 3 (rest4_3 k a b c) s3 w) [
            | inr r ↦ Raised-trans L X (r1 ∙ r2 ∙ r3) r
            | inl (d, s4, h4, r4, g4) ↦ elim (none_cases L X 5 (k a b c d) s4 w) [
              | inr r ↦ Raised-trans L X (r1 ∙ r2 ∙ r3 ∙ r4) r
              | inl (few, r) ↦
                  let few' : length (given L s) < 5 =
                    subst (λ (xs : List Arg). length xs < 5) (g4 ∙ g3 ∙ g2 ∙ g1) few in
                  absurd (
                    other a b c d (
                      four_texts (given L s) a b c d h1
                        (ap (λ (xs : List Arg). get_elem? xs 1) (sym (g1)) ∙ h2)
                        (ap (λ (xs : List Arg). get_elem? xs 2) (sym (g2 ∙ g1)) ∙ h3)
                        (ap (λ (xs : List Arg). get_elem? xs 3) (sym (g3 ∙ g2 ∙ g1)) ∙ h4) few'))
            ]
          ]
        ]
      ]
    ],
  )
