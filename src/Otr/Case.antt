-- ===== src/Otr/Case.antt =====
-- otr-extension/glirc-otr.cpp: names of accounts in lower case, by the table `casemap`.
use irc_core.Base.{
  ℕ, zero, suc, ◌+◌, ◌%◌, ◌<◌, ◌≡◌, refl, ap, ◌∙◌, Option, none, some, List, [], ◌∷◌, ◌++◌, map,
  length, get_elem?, Bytes, codes, leb, ◌&&◌, if◌then◌else◌, arith,
}

-- The numbers from `a` on.
abbrev pub range : ℕ → ℕ → List ℕ
range a zero = []
range a (suc n) = a ∷ range (suc a) n

abbrev pub casemap : Bytes
casemap =
    range 0 32
    ++ codes " !\"#$%&'()*+,-./0123456789:;<=>?"
    ++ codes "@abcdefghijklmnopqrstuvwxyz{|}~_"
    ++ codes "`abcdefghijklmnopqrstuvwxyz{|}~"
    ++ range 127 129

-- `casemap[(unsigned char)x]`
abbrev or_zero : Option ℕ → ℕ
or_zero none = 0
or_zero (some c) = c

fold_byte : ℕ → ℕ
fold_byte x = or_zero (get_elem? casemap (x % 256))

pub normalize_case : Bytes → Bytes
unfolding fold_byte
normalize_case str = map fold_byte str

-- The lower case of IRC, by which `{|}~` are the lower case of `[\]^`.
abbrev pub irc_lower : ℕ → ℕ
irc_lower c = if leb b'A' c && leb c b'^' then c + 32 else c

get_elem?-map-range :
    (f : ℕ → ℕ) (a n i : ℕ) → i < n → get_elem? (map f (range a n)) i ≡ some (f (a + i))
get_elem?-map-range f a zero i h = absurd (omega arith)
get_elem?-map-range f a (suc n) zero h = ap (λ (k : ℕ). some (f k)) (omega arith)
get_elem?-map-range f a (suc n) (suc i) h =
    get_elem?-map-range f (suc a) n i (omega arith) ∙ ap (λ (k : ℕ). some (f k)) (omega arith)

casemap-lower : casemap ≡ map irc_lower (range 0 256)
casemap-lower = refl

fold_byte-lower : (x : ℕ) → fold_byte x ≡ irc_lower (x % 256)
unfolding fold_byte
fold_byte-lower x =
    let from_zero : 0 + x % 256 ≡ x % 256 = omega arith in
    ap (λ (cs : Bytes). or_zero (get_elem? cs (x % 256))) casemap-lower
    ∙ ap or_zero (get_elem?-map-range irc_lower 0 256 (x % 256) (omega arith))
    ∙ ap irc_lower from_zero

fold_byte-fold_byte : (x : ℕ) → fold_byte (fold_byte x) ≡ fold_byte x
fold_byte-fold_byte x = rw (fold_byte-lower, fold_byte-lower) (ground arith)

-- The table's case folding is the lower case of IRC, byte by byte; a name that is folded already
-- stays as it is, and no name changes its length.
pub normalize_case-lower :
    (name : Bytes)
    → (normalize_case name ≡ map (λ x. irc_lower (x % 256)) name)
      × (normalize_case (normalize_case name) ≡ normalize_case name)
      × (length (normalize_case name) ≡ length name)
unfolding normalize_case
normalize_case-lower [] = (refl, refl, refl)
normalize_case-lower (x ∷ xs) =
    let (lower, again, long) = normalize_case-lower xs in
    (cc (fold_byte-lower x, lower), cc (fold_byte-fold_byte x, again), omega (arith, long))
