-- ===== src/Script/Path.antt =====
-- `dirname` of POSIX, which lua-extension/glirc-lua.c calls.
use irc_core.Base.{◌==◌, ◌≡◌, refl, [], ◌∷◌, reverse, Bytes, codes, if◌then◌else◌}

abbrev pub drop_slashes : Bytes → Bytes
drop_slashes [] = []
drop_slashes (c ∷ cs) = if c == b'/' then drop_slashes cs else c ∷ cs

abbrev pub drop_name : Bytes → Bytes
drop_name [] = []
drop_name (c ∷ cs) = if c == b'/' then c ∷ cs else drop_name cs

-- What is left of a reversed path behind its last name; of "/" the root is left.
abbrev or_root : Bytes → Bytes
or_root [] = codes "/"
or_root (c ∷ cs) = reverse (c ∷ cs)

abbrev up : Bytes → Bytes
up [] = codes "."
up (c ∷ cs) = or_root (drop_slashes (c ∷ cs))

abbrev above_name : Bytes → Bytes
above_name [] = codes "/"
above_name (c ∷ cs) = up (drop_name (c ∷ cs))

unfoldable pub dirname : Bytes → Bytes
dirname [] = codes "."
dirname (c ∷ cs) = above_name (drop_slashes (reverse (c ∷ cs)))

dirname_tests :
    (dirname (codes "/usr/lib/glirc.so") ≡ codes "/usr/lib")
    × (dirname (codes "glirc.so") ≡ codes ".")
    × (dirname (codes "/glirc.so") ≡ codes "/")
    × (dirname (codes "//") ≡ codes "/")
    × (dirname (codes "a//b/") ≡ codes "a")
    × (dirname [] ≡ codes ".")
unfolding dirname
dirname_tests = (refl, refl, refl, refl, refl, refl)
