-- ===== src/Password.antt =====
-- hookup/cbits/pem_password_cb.c: the callback with which OpenSSL asks for a private key's password.
--
-- A pointer is the bytes behind it, and NULL is `none`. A result `none` is a fault: a copy that reads
-- or writes out of bounds. `size` is the size of OpenSSL's buffer, which is not negative.
use irc_core.Base.{
  Bytes, ℕ, ◌≤◌, ◌≡◌, refl, Bool, true, false, ◌&&◌, ◌⊎◌, inl, inr, Option, none, some, ◌++◌,
  length, take, drop, leb, ltb, if◌then◌else◌, Bool-cases, arith,
}

-- `int`: `negsuc n` is -(n + 1).
pub data ℤ : Type 0 where
  pos : ℕ → ℤ
  negsuc : ℕ → ℤ

pub record CStringLen : Type 0 where
  pub ptr : Bytes
  pub len : ℤ

-- Whether the allocation succeeds is `granted`.
pub hookup_new_userdata : Bool → Bytes → ℤ → Option CStringLen
hookup_new_userdata granted ptr len =
    if granted then some (record { ptr = ptr; len = len }) else none

pub memcpy : Bytes → Bytes → ℕ → Option Bytes
memcpy buf ptr n =
    if leb n (length buf) && leb n (length ptr) then some (take n ptr ++ drop n buf) else none

-- The number of bytes written, and the buffer.
copied : Bytes → Bytes → ℕ → Option (ℤ × Bytes)
unfolding memcpy
copied buf ptr size = elim (memcpy buf ptr size) [ none ↦ none | some buf' ↦ some (pos size, buf') ]

pub hookup_pem_passwd_cb : Bytes → ℕ → Option CStringLen → Option (ℤ × Bytes)
unfolding copied
hookup_pem_passwd_cb buf size none = some (negsuc 0, buf)
hookup_pem_passwd_cb buf size (some password) = elim password.len [
  | negsuc k ↦ some (negsuc 0, buf)
  | pos len ↦ copied buf password.ptr (if ltb len size then len else size)
]

memcpy-fits :
    (buf ptr : Bytes) (n : ℕ)
    → n ≤ length buf
    → n ≤ length ptr
    → memcpy buf ptr n ≡ some (take n ptr ++ drop n buf)
unfolding memcpy
memcpy-fits buf ptr n fits_buf fits_ptr =
    let both : (leb n (length buf) && leb n (length ptr)) ≡ true = ground arith in rw both

copied-fits :
    (buf ptr : Bytes) (n : ℕ)
    → n ≤ length buf
    → n ≤ length ptr
    → copied buf ptr n ≡ some (pos n, take n ptr ++ drop n buf)
unfolding copied
copied-fits buf ptr n fits_buf fits_ptr = rw (memcpy-fits buf ptr n fits_buf fits_ptr, copied) refl

-- With a buffer of at least `size` bytes and a password of the length that is given, the callback
-- copies the password's first bytes into the buffer, as many as there are up to `size`, leaves the
-- rest of the buffer alone, and returns how many it copied. Where there is no password (a negative
-- length), or where there was no memory for it, it returns -1 and the buffer is as it was.
pub passwd_lem :
    (granted : Bool) (buf ptr : Bytes) (size k : ℕ)
    → size ≤ length buf
    → let cb = hookup_pem_passwd_cb buf size in
      (granted ≡ true
        → (n : ℕ) × (cb (hookup_new_userdata granted ptr (pos (length ptr)))
            ≡ some (pos n, take n ptr ++ drop n buf))
          × (n ≤ size)
          × (n ≤ length ptr)
          × ((n ≡ size) ⊎ (n ≡ length ptr)))
      × (granted ≡ false
          → cb (hookup_new_userdata granted ptr (pos (length ptr))) ≡ some (negsuc 0, buf))
      × (cb (hookup_new_userdata granted ptr (negsuc k)) ≡ some (negsuc 0, buf))
unfolding hookup_pem_passwd_cb hookup_new_userdata
passwd_lem true buf ptr size k room = (
  λ yes'. elim (Bool-cases (ltb (length ptr) size)) [
    | inl less ↦ (
      length ptr,
      rw less (copied-fits buf ptr (length ptr) (ground arith) (omega arith)),
      ground arith,
      omega arith,
      inr refl,
    )
    | inr more ↦ (
      size,
      rw more (copied-fits buf ptr size room (ground arith)),
      omega arith,
      ground arith,
      inl refl,
    )
  ],
  λ no'. cc,
  refl,
)
passwd_lem false buf ptr size k room = (λ yes'. cc, λ no'. refl, refl)
