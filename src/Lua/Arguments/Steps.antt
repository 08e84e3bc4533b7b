-- ===== src/Lua/Arguments/Steps.antt =====
-- One check of an argument, and what runs behind it.
use irc_core.Base.{
  Bytes, ℕ, suc, ◌<◌, ◌≡◌, ◌≢◌, refl, ap, ◌∙◌, Option, none, some, List, ◌⊎◌, inl, inr, length,
  get_elem?, arith, ltb, Bool-cases, sym, reverse, length-map, length-reverse,
}
use irc_core.Lua.Api.{Lua, Outcome}
use irc_core.Lua.Run.{and_then, ◌>>=◌, ◌>>◌}
use irc_core.Lua.Auxlib.{arg_with, Arg, text, nothing, opaque, Raised, given, Auxlib}

text_cases :
    (o : Option Arg) → ((b : Bytes) × (o ≡ some (text b))) ⊎ ((b : Bytes) → o ≢ some (text b))
text_cases none = inr (λ b e. cc)
text_cases (some (text b)) = inl (b, refl)
text_cases (some nothing) = inr (λ b e. cc)
text_cases (some (opaque t)) = inr (λ b e. cc)

module _ {W : Type 0} (L : Lua W) (X : Auxlib L) where
  open X use {
    lual_checklstring, checklstring-text, checklstring-other, lual_checktype_none,
    checktype_none-absent, checktype_none-present,
  }

  -- A check of argument `suc i`, and what comes behind it.
  pub check_cases :
      {B : Type 0} (i : ℕ) (m : Bytes → L.State → W → Outcome L.State W B) (s : L.State) (w : W)
      → ((b : Bytes) × (s' : L.State) × (get_elem? (given L s) i ≡ some (text b))
          × ((lual_checklstring (suc i) >>= m) s w ≡ m b s' w)
          × (given L s' ≡ given L s))
        ⊎ Raised ((lual_checklstring (suc i) >>= m) s w) w
  check_cases i m s w = elim (text_cases (get_elem? (given L s) i)) [
    | inl (b, e) ↦
        let (s', ran, same) = checklstring-text i s w b e in
        inl (b, s', e, ap (λ o. and_then o m) ran, same)
    | inr other ↦
        let (e, s', ran) = checklstring-other i s w other in inr (e, s', ap (λ o. and_then o m) ran)
  ]

  pub check_text :
      {B : Type 0} (i : ℕ) (m : Bytes → L.State → W → Outcome L.State W B) (s : L.State) (w : W)
      {b : Bytes} {xs : List Arg}
      → given L s ≡ xs
      → get_elem? xs i ≡ some (text b)
      → (s' : L.State) × ((lual_checklstring (suc i) >>= m) s w ≡ m b s' w) × (given L s' ≡ xs)
  check_text i m s w {b} e h =
      let (s', ran, same) = checklstring-text i s w b (ap (λ ys. get_elem? ys i) e ∙ h) in
      (s', ap (λ o. and_then o m) ran, same ∙ e)

  pub none_cases :
      {B : Type 0} (i : ℕ) (m : L.State → W → Outcome L.State W B) (s : L.State) (w : W)
      → ((length (given L s) < i) × ((lual_checktype_none i >> m) s w ≡ m s w))
        ⊎ Raised ((lual_checktype_none i >> m) s w) w
  none_cases i m s w = elim (Bool-cases (ltb (length (given L s)) i)) [
    | inl less ↦
        inl
          (ground arith, ap (λ o. and_then o (λ _. m)) (checktype_none-absent i s w (ground arith)))
    | inr more ↦
        let (e, s', ran) = checktype_none-present i s w (ground arith) in
        inr (e, s', ap (λ o. and_then o (λ _. m)) ran)
  ]

  -- Running on behind a step.
  pub Raised-trans : {o p : Outcome L.State W ℕ} {w : W} → o ≡ p → Raised p w → Raised o w
  Raised-trans e (v, s, r) = (v, s, e ∙ r)

  pub absent_text :
      (i : ℕ) (m : L.State → W → Outcome L.State W ℕ) (s : L.State) (w : W) {xs : List Arg}
      → given L s ≡ xs
      → length xs < i
      → (lual_checktype_none i >> m) s w ≡ m s w
  absent_text i m s w e h = ap (λ o. and_then o (λ _. m)) (checktype_none-absent i s w (rw e h))

  -- The arguments are as many as the stack has values.
  pub length-given : (s : L.State) → L.lua_gettop s ≡ length (given L s)
  length-given s =
      L.gettop_lem s
      ∙ sym (
          length-map (reverse (L.view s).stack) (λ v. arg_with (L.text_of v) v)
          ∙ length-reverse (L.view s).stack)
