-- ===== src/Warn/Bounds.antt =====
-- The sizes of `add_to_buffer` in lua-extension/glirc-warn.c, and its doubling loop.
use native.Mathlib.Nat.{pow-suc}
use irc_core.Base.{
  ℕ, zero, suc, ◌+◌, ◌*◌, ◌^◌, ◌≤◌, ◌<◌, ◌≡◌, some, arith, leb, Bool-cases, ap, inl, inr,
}
use irc_core.Warn.{sub_size, double_size, grow}

-- Enough fuel, and no wrap: a size that is large enough is found, at most twice what is needed.
pub grow-some :
    (fuel cursor msg_len n : ℕ)
    → cursor ≤ n
    → n < 2 ^ 63
    → cursor + msg_len < 2 ^ 62
    → cursor + msg_len < n * 2 ^ fuel
    → (r : ℕ) × (grow (suc fuel) cursor msg_len n ≡ some r)
      × (cursor + msg_len < r)
      × (n ≤ r)
      × (r < 2 ^ 63)
unfolding grow
grow-some zero cursor msg_len n le small need enough =
    (n, ground arith, ground arith, ground arith, ground arith)
grow-some (suc fuel) cursor msg_len n le small need enough =
    elim (Bool-cases (leb (sub_size n cursor) msg_len)) [
      | inl more ↦
          let le_need : n ≤ cursor + msg_len = ground arith in
          let doubled : double_size n ≡ 2 * n = omega arith in
          let enough' : cursor + msg_len < double_size n * 2 ^ fuel =
            rw doubled (omega (arith, ap (λ k. n * k) (pow-suc 2 fuel))) in
          let (r, found, fits_r, grows, small_r) =
            grow-some fuel cursor msg_len (double_size n) (omega arith) (omega arith) need
              enough' in
          (r, rw more found, fits_r, omega arith, small_r)
      | inr done ↦ (n, ground arith, ground arith, ground arith, ground arith)
    ]
