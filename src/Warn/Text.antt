-- ===== src/Warn/Text.antt =====
-- What a buffer of glirc-warn.c stands for: the text gathered so far.
use irc_core.Base.{
  Bytes, ℕ, zero, suc, ◌+◌, ◌-◌, ◌^◌, ◌≤◌, ◌<◌, ◌≡◌, refl, Bool, true, false, some, arith, leb,
  Bool-cases, inl, inr, ◌⊎◌, [], ◌∷◌, ◌++◌, length, take, drop, length-append, length-drop,
  take_of_append, drop_add_append, take_of_length_le, append_assoc, ap, sym,
}
use irc_core.Warn.{
  Buffer, init_buffer, sub_size, first_len, grow, fill, old_block, realloc, strcpy_at, write_msg,
  resize, resize_to, add_to_buffer,
}
use irc_core.Warn.Bounds.{grow-some}

-- The block holds the text, its terminator and unused bytes, and its size fits `ptrdiff_t`.
abbrev pub filled_buffer : Bytes → Bytes → Buffer
filled_buffer xs rest = record {
  ptr = some (xs ++ 0 ∷ rest);
  len = length (xs ++ 0 ∷ rest);
  cursor = length xs;
}

pub data Holds : Buffer → Bytes → Type 0 where
  unset : Holds init_buffer []
  filled : (xs rest : Bytes) → length (xs ++ 0 ∷ rest) < 2 ^ 63 → Holds (filled_buffer xs rest) xs

strcpy_at-append :
    (xs ys msg : Bytes)
    → length msg < length ys
    → strcpy_at (some (xs ++ ys)) (length xs) msg
      ≡ some ((xs ++ msg) ++ 0 ∷ drop (length msg + 1) ys)
unfolding strcpy_at
strcpy_at-append xs ys msg h =
    let fits : leb (length xs + length msg + 1) (length (xs ++ ys)) ≡ true =
      ground (arith, length-append xs ys) in
    let regroup : length xs + length msg + 1 ≡ length xs + (length msg + 1) = omega arith in
    rw (fits, take_of_append, regroup, drop_add_append, append_assoc)

write_msg-Holds :
    (len : ℕ) (xs ys msg : Bytes)
    → len ≡ length (xs ++ ys)
    → length msg < length ys
    → len < 2 ^ 63
    → (b : Buffer) × (write_msg
          (record { ptr = some (xs ++ ys); len = len; cursor = length xs })
          msg
        ≡ some b)
      × Holds b (xs ++ msg)
unfolding write_msg
write_msg-Holds len xs ys msg e h small =
    let rest : Bytes = drop (length msg + 1) ys in
    let same : len ≡ length ((xs ++ msg) ++ 0 ∷ rest) = omega (
      arith,
      length-append xs ys,
      length-append (xs ++ msg) (0 ∷ rest),
      length-append xs msg,
      length-drop (length msg + 1) ys,
    ) in
    (
      filled_buffer (xs ++ msg) rest,
      rw (strcpy_at-append xs ys msg h, write_msg, same)
          (ap (λ (c : ℕ). some (record (filled_buffer (xs ++ msg) rest) { cursor = c }))
            (sym (length-append xs msg))),
      filled (xs ++ msg) rest (rw same at small),
    )

length-fill : (junk : ℕ → ℕ) (n : ℕ) → length (fill junk n) ≡ n
length-fill junk zero = refl
length-fill junk (suc n) = omega (arith, length-fill junk n)

-- The block grows and the message is written behind the text.
resize-Holds :
    (junk : ℕ → ℕ) (b : Buffer) (xs ys msg : Bytes) (n : ℕ)
    → old_block b.ptr ≡ xs ++ ys
    → b.cursor ≡ length xs
    → length (xs ++ ys) ≤ n
    → length xs + length msg < n
    → n < 2 ^ 63
    → (b' : Buffer) × (resize true junk b msg n ≡ some b') × Holds b' (xs ++ msg)
unfolding resize realloc
resize-Holds junk b xs ys msg n old at fits room small =
    let new : Bytes = ys ++ fill junk (n - length (xs ++ ys)) in
    let long : length new ≡ n - length xs = omega (
      arith,
      length-append ys (fill junk (n - length (xs ++ ys))),
      length-append xs ys,
      length-fill junk (n - length (xs ++ ys)),
    ) in
    rw (old, at, take_of_length_le (xs ++ ys) n fits, append_assoc)
      (write_msg-Holds n xs new msg (omega (arith, length-append xs new)) (omega arith) small)

-- The text of a buffer is in its block before the cursor.
pub take-cursor : {b : Buffer} {xs : Bytes} → Holds b xs → take b.cursor (old_block b.ptr) ≡ xs
take-cursor unset = refl
take-cursor (filled xs rest h) = take_of_append xs (0 ∷ rest)

pub cursor-length : {b : Buffer} {xs : Bytes} → Holds b xs → b.cursor ≡ length xs
cursor-length unset = refl
cursor-length (filled xs rest h) = refl

pub len-bounds : {b : Buffer} {xs : Bytes} → Holds b xs → (b.cursor ≤ b.len) × (b.len < 2 ^ 63)
len-bounds unset = omega arith
len-bounds (filled xs rest h) = (omega (arith, length-append xs (0 ∷ rest)), h)

module _ (junk : ℕ → ℕ) (msg : Bytes) where
  grow-resize :
      (b : Buffer) (xs ys : Bytes)
      → old_block b.ptr ≡ xs ++ ys
      → b.cursor ≡ length xs
      → b.len ≡ length (xs ++ ys)
      → length xs + length msg < 2 ^ 62
      → b.len ≤ length xs + length msg
      → (b' : Buffer) × (resize_to true junk b msg (grow 64 b.cursor (length msg) (first_len b.len))
          ≡ some b')
        × Holds b' (xs ++ msg)
  unfolding resize_to
  grow-resize b xs ys old at size need full =
      let (n, found, room, grown, small) =
        grow-some 63 b.cursor (length msg) (first_len b.len) (ground (arith, length-append xs ys))
          (ground arith) (omega arith) (ground arith) in
      rw found (resize-Holds junk b xs ys msg n old at (ground arith) (omega arith) small)

  -- `add_to_buffer` with memory granted.
  add_to_buffer-true :
      {b : Buffer} {xs : Bytes}
      → Holds b xs
      → length xs + length msg < 2 ^ 62
      → (b' : Buffer) × (add_to_buffer true junk b msg ≡ some b') × Holds b' (xs ++ msg)
  unfolding add_to_buffer
  add_to_buffer-true unset need =
      let full : leb 0 (length msg) ≡ true = ground arith in
      rw full (grow-resize init_buffer [] [] refl refl refl need (omega arith))
  add_to_buffer-true (filled xs rest h) need =
      let b = filled_buffer xs rest in
      elim (Bool-cases (leb (sub_size b.len b.cursor) (length msg))) [
        | inl full ↦ rw full (
            grow-resize b xs (0 ∷ rest) refl refl refl need
              (ground (arith, length-append xs (0 ∷ rest))))
        | inr fits ↦ rw fits (
            write_msg-Holds b.len xs (0 ∷ rest) msg refl
              (ground (arith, length-append xs (0 ∷ rest))) h)
      ]

  add_to_buffer-false :
      {b : Buffer} {xs : Bytes}
      → Holds b xs
      → length xs + length msg < 2 ^ 62
      → (leb (sub_size b.len b.cursor) (length msg) ≡ true)
      → add_to_buffer false junk b msg ≡ some b
  unfolding add_to_buffer resize_to realloc
  add_to_buffer-false {b} {xs} holds need full =
      let (n, found, room, grown, small) =
        grow-some 63 b.cursor (length msg) (first_len b.len) (ground (arith, len-bounds holds))
          (ground (arith, len-bounds holds, cursor-length holds))
          (omega (arith, cursor-length holds))
          (ground (arith, len-bounds holds, cursor-length holds)) in
      rw (full, found)

  add_to_buffer-fits :
      (granted : Bool) {b : Buffer} {xs : Bytes}
      → Holds b xs
      → (leb (sub_size b.len b.cursor) (length msg) ≡ false)
      → add_to_buffer granted junk b msg ≡ add_to_buffer true junk b msg
  unfolding add_to_buffer
  add_to_buffer-fits granted holds fits = rw fits

-- Adding a message to a buffer that holds a text, within 2^62 bytes, never writes out of bounds
-- and always ends. The new buffer holds the text with the message behind it. Only where memory is
-- refused may it be the old buffer instead, and then the message did not fit the old block.
pub add_to_buffer_lem :
    (granted : Bool) (junk : ℕ → ℕ) (msg : Bytes) {b : Buffer} {xs : Bytes}
    → Holds b xs
    → length xs + length msg < 2 ^ 62
    → (b' : Buffer) × (add_to_buffer granted junk b msg ≡ some b')
      × (Holds b' (xs ++ msg)
          ⊎ ((granted ≡ false) × (b' ≡ b) × (leb (b.len - b.cursor) (length msg) ≡ true)))
add_to_buffer_lem granted junk msg {b} {xs} holds need =
    elim (Bool-cases (leb (sub_size b.len b.cursor) (length msg))) [
      | inl full ↦ elim (Bool-cases granted) [
        | inl yes' ↦
            let (b', e, h) = add_to_buffer-true junk msg holds need in (b', rw yes' e, inl h)
        | inr no' ↦ (
          b,
          rw no' (add_to_buffer-false junk msg holds need full),
          inr (no', refl, ground (arith, len-bounds holds)),
        )
      ]
      | inr fits ↦
          let (b', e, h) = add_to_buffer-true junk msg holds need in
          (b', rw (add_to_buffer-fits junk msg granted holds fits) e, inl h)
    ]
