-- ===== src/Otr/Policy.antt =====
-- otr-extension/glirc-otr.cpp: the policy that the extension gives to libotr. Policies are words of 32
-- bits.
use irc_core.Base.{
  ℕ, zero, suc, ◌+◌, ◌*◌, ◌/◌, ◌%◌, ◌≡◌, ◌∙◌, ap, sym, refl, ◌<◌, ◌==◌, Bool, true, false, not,
  ◌&&◌, if◌then◌else◌, arith,
}
use irc_core.Otr.Libotr.{Libotr}

-- `a & ~b`, of the `n` lowest bits
unfoldable pub and_not : ℕ → ℕ → ℕ → ℕ
and_not zero a b = 0
and_not (suc n) a b = 2 * and_not n (a / 2) (b / 2) + (if b % 2 == 1 then 0 else a % 2)

-- The bit number `i`.
abbrev bit : ℕ → ℕ → Bool
bit zero a = a % 2 == 1
bit (suc i) a = bit i (a / 2)

module _ {W : Type 0} (O : Libotr W) where
  open O use {otrl_policy_default, otrl_policy_send_whitespace_tag}

  unfoldable pub op_policy : ℕ
  unfolding and_not
  op_policy = and_not 32 otrl_policy_default otrl_policy_send_whitespace_tag

low : (r x : ℕ) (c : Bool) → (2 * r + (if c then 0 else x % 2)) % 2 ≡ (if c then 0 else x % 2)
low r x true = omega arith
low r x false = omega arith

high : (r x : ℕ) (c : Bool) → (2 * r + (if c then 0 else x % 2)) / 2 ≡ r
high r x true = omega arith
high r x false = omega arith

and_false : (p : Bool) → p && false ≡ false
and_false true = refl
and_false false = refl

and_true : (p : Bool) → p && true ≡ p
and_true true = refl
and_true false = refl

kept : (x : ℕ) (c : Bool) → ((if c then 0 else x % 2) == 1) ≡ (x % 2 == 1) && not c
kept x true = sym (and_false (x % 2 == 1))
kept x false = sym (and_true (x % 2 == 1))

-- Of the `n` lowest bits, those are left that are not in `b`.
bit-and_not : (n i a b : ℕ) → i < n → bit i (and_not n a b) ≡ bit i a && not (bit i b)
unfolding and_not
bit-and_not zero i a b h = absurd (omega arith)
bit-and_not (suc n) zero a b h =
    ap (λ (x : ℕ). x == 1) (low (and_not n (a / 2) (b / 2)) a (b % 2 == 1)) ∙ kept a (b % 2 == 1)
bit-and_not (suc n) (suc i) a b h =
    ap (bit i) (high (and_not n (a / 2) (b / 2)) a (b % 2 == 1))
    ∙ bit-and_not n i (a / 2) (b / 2) (omega arith)
