-- ===== src/Lua/Arguments/Short.antt =====
-- Functions that take one string or two.
use irc_core.Base.{
  Bytes, ℕ, ◌<◌, ◌≡◌, refl, sym, ap, subst, ◌∙◌, some, List, [], ◌∷◌, inl, inr, length, get_elem?,
  arith,
}
use irc_core.Lua.Api.{Lua, Outcome}
use irc_core.Lua.Run.{◌>>=◌, ◌>>◌}
use irc_core.Lua.Auxlib.{Arg, text, given, Auxlib}
use irc_core.Lua.Arguments.Steps.{check_cases, check_text, none_cases, Raised-trans, absent_text}
use irc_core.Lua.Arguments.Forms.{strings1, strings2, Takes1, Takes2}

one_text :
    (xs : List Arg) (a : Bytes) → get_elem? xs 0 ≡ some (text a) → length xs < 2 → xs ≡ text a ∷ []
one_text [] a h n = cc
one_text (x ∷ []) a h n = cc
one_text (x ∷ y ∷ xs) a h n = absurd (omega arith)

two_texts :
    (xs : List Arg) (a b : Bytes)
    → get_elem? xs 0 ≡ some (text a)
    → get_elem? xs 1 ≡ some (text b)
    → length xs < 3
    → xs ≡ text a ∷ text b ∷ []
two_texts [] a b h i n = cc
two_texts (x ∷ []) a b h i n = cc
two_texts (x ∷ y ∷ []) a b h i n = cc
two_texts (x ∷ y ∷ z ∷ xs) a b h i n = absurd (omega arith)

module _ {W : Type 0} (L : Lua W) (X : Auxlib L) where
  open X use {
    lual_checklstring, checklstring-text, checklstring-other, lual_checktype_none,
    checktype_none-absent, checktype_none-present,
  }

  pub strings1_lem :
      (k : Bytes → L.State → W → Outcome L.State W ℕ) (s : L.State) (w : W)
      → Takes1 L X (strings1 L X k s w) s w (λ a s'. strings1 L X k s w ≡ k a s' w)
  strings1_lem k s w = (
    λ a e.
        let (s₁, r₁, g₁) = check_text L X 0 (λ a. lual_checktype_none 2 >> k a) s w e refl in
        (s₁, r₁ ∙ absent_text L X 2 (k a) s₁ w g₁ (omega arith), g₁),
    λ other. elim (check_cases L X 0 (λ a. lual_checktype_none 2 >> k a) s w) [
      | inr r ↦ r
      | inl (a, s₁, h₁, r₁, g₁) ↦ elim (none_cases L X 2 (k a) s₁ w) [
        | inr r ↦ Raised-trans L X r₁ r
        | inl (few, r₂) ↦ absurd (other a (one_text (given L s) a h₁ (rw (← g₁) few)))
      ]
    ],
  )

  abbrev rest2_1 :
      (Bytes → Bytes → L.State → W → Outcome L.State W ℕ)
      → Bytes
      → Bytes
      → L.State
      → W
      → Outcome L.State W ℕ
  rest2_1 k a b = lual_checktype_none 3 >> k a b

  abbrev rest2_0 :
      (Bytes → Bytes → L.State → W → Outcome L.State W ℕ)
      → Bytes
      → L.State
      → W
      → Outcome L.State W ℕ
  rest2_0 k a = lual_checklstring 2 >>= rest2_1 k a

  pub strings2_lem :
      (k : Bytes → Bytes → L.State → W → Outcome L.State W ℕ) (s : L.State) (w : W)
      → Takes2 L X (strings2 L X k s w) s w (λ a b s'. strings2 L X k s w ≡ k a b s' w)
  strings2_lem k s w = (
    λ a b e.
        let (s1, r1, g1) = check_text L X 0 (rest2_0 k) s w e refl in
        let (s2, r2, g2) = check_text L X 1 (rest2_1 k a) s1 w g1 refl in
        (s2, r1 ∙ r2 ∙ absent_text L X 3 (k a b) s2 w g2 (omega arith), g2),
    λ other. elim (check_cases L X 0 (rest2_0 k) s w) [
      | inr r ↦ r
      | inl (a, s1, h1, r1, g1) ↦ elim (check_cases L X 1 (rest2_1 k a) s1 w) [
        | inr r ↦ Raised-trans L X (r1) r
        | inl (b, s2, h2, r2, g2) ↦ elim (none_cases L X 3 (k a b) s2 w) [
          | inr r ↦ Raised-trans L X (r1 ∙ r2) r
          | inl (few, r) ↦
              let few' : length (given L s) < 3 =
                subst (λ (xs : List Arg). length xs < 3) (g2 ∙ g1) few in
              absurd (
                other a b (
                  two_texts (given L s) a b h1
                    (ap (λ (xs : List Arg). get_elem? xs 1) (sym (g1)) ∙ h2) few'))
        ]
      ]
    ],
  )
