-- ===== src/Lua/Arguments/Three.antt =====
-- Functions that take three strings.
use irc_core.Base.{
  Bytes, ℕ, ◌<◌, ◌≡◌, refl, sym, ap, subst, ◌∙◌, some, List, [], ◌∷◌, inl, inr, length, get_elem?,
  arith,
}
use irc_core.Lua.Api.{Lua, Outcome}
use irc_core.Lua.Run.{◌>>=◌, ◌>>◌}
use irc_core.Lua.Auxlib.{Arg, text, given, Auxlib}
use irc_core.Lua.Arguments.Steps.{check_cases, check_text, none_cases, Raised-trans, absent_text}
use irc_core.Lua.Arguments.Forms.{strings3, Takes3}

three_texts :
    (xs : List Arg) (a b c : Bytes)
    → get_elem? xs 0 ≡ some (text a)
    → get_elem? xs 1 ≡ some (text b)
    → get_elem? xs 2 ≡ some (text c)
    → length xs < 4
    → xs ≡ text a ∷ text b ∷ text c ∷ []
three_texts [] a b c h0 h1 h2 less = cc
three_texts (x ∷ []) a b c h0 h1 h2 less = cc
three_texts (x ∷ y ∷ []) a b c h0 h1 h2 less = cc
three_texts (x ∷ y ∷ z ∷ []) a b c h0 h1 h2 less = cc
three_texts (x ∷ y ∷ z ∷ u ∷ xs) a b c h0 h1 h2 less = absurd (omega arith)

module _ {W : Type 0} (L : Lua W) (X : Auxlib L) where
  open X use {
    lual_checklstring, checklstring-text, checklstring-other, lual_checktype_none,
    checktype_none-absent, checktype_none-present,
  }

  abbrev rest3_2 :
      (Bytes → Bytes → Bytes → L.State → W → Outcome L.State W ℕ)
      → Bytes
      → Bytes
      → Bytes
      → L.State
      → W
      → Outcome L.State W ℕ
  rest3_2 k a b c = lual_checktype_none 4 >> k a b c

  abbrev rest3_1 :
      (Bytes → Bytes → Bytes → L.State → W → Outcome L.State W ℕ)
      → Bytes
      → Bytes
      → L.State
      → W
      → Outcome L.State W ℕ
  rest3_1 k a b = lual_checklstring 3 >>= rest3_2 k a b

  abbrev rest3_0 :
      (Bytes → Bytes → Bytes → L.State → W → Outcome L.State W ℕ)
      → Bytes
      → L.State
      → W
      → Outcome L.State W ℕ
  rest3_0 k a = lual_checklstring 2 >>= rest3_1 k a

  pub strings3_lem :
      (k : Bytes → Bytes → Bytes → L.State → W → Outcome L.State W ℕ) (s : L.State) (w : W)
      → Takes3 L X (strings3 L X k s w) s w (λ a b c s'. strings3 L X k s w ≡ k a b c s' w)
  strings3_lem k s w = (
    λ a b c e.
        let (s1, r1, g1) = check_text L X 0 (rest3_0 k) s w e refl in
        let (s2, r2, g2) = check_text L X 1 (rest3_1 k a) s1 w g1 refl in
        let (s3, r3, g3) = check_text L X 2 (rest3_2 k a b) s2 w g2 refl in
        (s3, r1 ∙ r2 ∙ r3 ∙ absent_text L X 4 (k a b c) s3 w g3 (omega arith), g3),
    λ other. elim (check_cases L X 0 (rest3_0 k) s w) [
      | inr r ↦ r
      | inl (a, s1, h1, r1, g1) ↦ elim (check_cases L X 1 (rest3_1 k a) s1 w) [
        | inr r ↦ Raised-trans L X (r1) r
        | inl (b, s2, h2, r2, g2) ↦ elim (check_cases L X 2 (rest3_2 k a b) s2 w) [
          | inr r ↦ Raised-trans L X (r1 ∙ r2) r
          | inl (c, s3, h3, r3, g3) ↦ elim (none_cases L X 4 (k a b c) s3 w) [
            | inr r ↦ Raised-trans L X (r1 ∙ r2 ∙ r3) r
            | inl (few, r) ↦
                let few' : length (given L s) < 4 =
                  subst (λ (xs : List Arg). length xs < 4) (g3 ∙ g2 ∙ g1) few in
                absurd (
                  other a b c (
                    three_texts (given L s) a b c h1
                      (ap (λ (xs : List Arg). get_elem? xs 1) (sym (g1)) ∙ h2)
                      (ap (λ (xs : List Arg). get_elem? xs 2) (sym (g2 ∙ g1)) ∙ h3) few'))
          ]
        ]
      ]
    ],
  )
