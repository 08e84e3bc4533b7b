-- ===== src/Examples/Passwords.antt =====
-- The password callback at a concrete input.
use irc_core.Base.{Bytes, ℕ, ◌≡◌, ◌≤◌, ◌⊎◌, true, false, some, [], ◌∷◌, ◌++◌, take, drop, arith}
use irc_core.Password.{pos, negsuc, hookup_new_userdata, hookup_pem_passwd_cb, passwd_lem}

-- "key", and a buffer of two bytes
abbrev key : Bytes
key = b'k' ∷ b'e' ∷ b'y' ∷ []

abbrev buffer : Bytes
buffer = 0 ∷ 0 ∷ []

passwd_lem_example :
    let cb = hookup_pem_passwd_cb buffer 2 in
    (true ≡ true
      → (n : ℕ) × (cb (hookup_new_userdata true key (pos 3))
          ≡ some (pos n, take n key ++ drop n buffer))
        × (n ≤ 2)
        × (n ≤ 3)
        × ((n ≡ 2) ⊎ (n ≡ 3)))
    × (true ≡ false → cb (hookup_new_userdata true key (pos 3)) ≡ some (negsuc 0, buffer))
    × (cb (hookup_new_userdata true key (negsuc 0)) ≡ some (negsuc 0, buffer))
passwd_lem_example = passwd_lem true buffer key 2 0 (omega arith)
