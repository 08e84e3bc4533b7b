-- ===== src/Warn.antt =====
-- lua-extension/glirc-warn.c: the growing text buffer and the warning function that is given to
-- the interpreter.
--
-- A string argument is the list of its bytes before the terminator. A buffer's `ptr` is the block
-- that it points to, one number for each byte allocated, and `none` is NULL. A result `none` is a
-- fault: a write out of the block's bounds or through NULL, or a loop that does not end.
-- `size_t` has 64 bits. Whether `realloc` succeeds is the argument `granted`, and what it leaves in
-- the new bytes is `junk`.
pub mod Bounds
pub mod Text
pub mod Messages
pub mod Whole
pub mod Refused
use irc_core.Base.{
  Bytes, ℕ, zero, suc, ◌+◌, ◌-◌, ◌*◌, ◌%◌, ◌^◌, Bool, true, false, not, Option, none, some, List,
  [], ◌∷◌, ◌++◌, leb, ltb, ◌==◌, if◌then◌else◌, length, take, drop, bytes_eq,
}

abbrev pub size_max : ℕ
size_max = 2 ^ 64

-- `size_t` subtraction and multiplication by two
abbrev pub sub_size : ℕ → ℕ → ℕ
sub_size a b = (a + size_max - b) % size_max

abbrev pub double_size : ℕ → ℕ
double_size a = (2 * a) % size_max

pub record Buffer : Type 0 where
  pub ptr : Option Bytes
  pub len : ℕ
  pub cursor : ℕ

abbrev pub init_buffer : Buffer
init_buffer = record { ptr = none; len = 0; cursor = 0 }

-- `free` gives the block back, and the fields are reset.
pub free_buffer : Buffer → Buffer
free_buffer b = init_buffer

-- `while (new_len - cursor <= msg_len) new_len *= 2`
pub grow : ℕ → ℕ → ℕ → ℕ → Option ℕ
grow zero cursor msg_len new_len = none
grow (suc fuel) cursor msg_len new_len =
    let rest = grow fuel cursor msg_len (double_size new_len) in
    if leb (sub_size new_len cursor) msg_len then rest else some new_len

abbrev pub fill : (ℕ → ℕ) → ℕ → Bytes
fill junk zero = []
fill junk (suc n) = junk n ∷ fill junk n

abbrev pub old_block : Option Bytes → Bytes
old_block none = []
old_block (some block) = block

-- The new block of `n` bytes starts with the bytes of the old one.
pub realloc : Bool → (ℕ → ℕ) → Option Bytes → ℕ → Option Bytes
realloc granted junk ptr n =
    let old = old_block ptr in
    if granted then some (take n old ++ fill junk (n - length old)) else none

-- `strcpy(block + at, msg)` with the terminator, a fault if it does not fit
pub strcpy_at : Option Bytes → ℕ → Bytes → Option Bytes
strcpy_at none at msg = none
strcpy_at (some block) at msg =
    if leb (at + length msg + 1) (length block)
    then some (take at block ++ msg ++ 0 ∷ drop (at + length msg + 1) block)
    else none

-- The bytes that are added, or the buffer as it was if `realloc` fails.
write_msg : Buffer → Bytes → Option Buffer
write_msg b msg = elim (strcpy_at b.ptr b.cursor msg) [
  | none ↦ none
  | some block ↦ some (record b { ptr = some block; cursor = b.cursor + length msg })
]

abbrev first_len : ℕ → ℕ
first_len len = if ltb len 512 then 512 else double_size len

resize : Bool → (ℕ → ℕ) → Buffer → Bytes → ℕ → Option Buffer
unfolding write_msg
resize granted junk b msg new_len = elim (realloc granted junk b.ptr new_len) [
  | none ↦ some b
  | some block ↦ write_msg (record b { ptr = some block; len = new_len }) msg
]

-- `none` is a doubling loop that does not end.
resize_to : Bool → (ℕ → ℕ) → Buffer → Bytes → Option ℕ → Option Buffer
unfolding resize
resize_to granted junk b msg none = none
resize_to granted junk b msg (some new_len) = resize granted junk b msg new_len

pub add_to_buffer : Bool → (ℕ → ℕ) → Buffer → Bytes → Option Buffer
unfolding write_msg resize_to
add_to_buffer granted junk b msg =
    let msg_len = length msg in
    if leb (sub_size b.len b.cursor) msg_len
    then resize_to granted junk b msg (grow 64 b.cursor msg_len (first_len b.len))
    else write_msg b msg

-- `struct warning_st`, without the client handle
pub record WarningState : Type 0 where
  pub buffer : Buffer
  pub enabled : Bool

-- What a call of the warning function leaves: the new state, and the text that it handed to
-- `glirc_print` as an error message, if it did.
abbrev pub Warned : Type 0
Warned = Option (WarningState × Option Bytes)

-- "@off" and "@on"
abbrev pub off_message : Bytes
off_message = b'@' ∷ b'o' ∷ b'f' ∷ b'f' ∷ []

abbrev pub on_message : Bytes
on_message = b'@' ∷ b'o' ∷ b'n' ∷ []

-- "\0037Lua warning\017: "
abbrev pub warning_prefix : Bytes
warning_prefix =
    3 ∷ b'7' ∷ b'L' ∷ b'u' ∷ b'a' ∷ b' ' ∷ b'w' ∷ b'a' ∷ b'r' ∷ b'n' ∷ b'i' ∷ b'n' ∷ b'g' ∷ 15
    ∷ b':' ∷ b' ' ∷ []

unfoldable pub is_control : Bytes → Bool
is_control [] = false
is_control (c ∷ msg) = c == b'@'

pub control : WarningState → Bytes → WarningState
control st msg =
    if bytes_eq msg off_message
    then record st { enabled = false }
    else if bytes_eq msg on_message
    then record st { enabled = true }
    else st

-- `glirc_print` reads `cursor` bytes of the block.
finish : WarningState → Bool → Warned
finish st tocont =
    if tocont
    then some (st, none)
    else some (
      record st { buffer = free_buffer st.buffer },
      some (take st.buffer.cursor (old_block st.buffer.ptr)),
    )

continue : Bool → (ℕ → ℕ) → WarningState → Bytes → Bool → Warned
unfolding finish
continue granted junk st msg tocont = elim (add_to_buffer granted junk st.buffer msg) [
  | none ↦ none
  | some b ↦ finish (record st { buffer = b }) tocont
]

start : Bool × Bool → (ℕ → ℕ) → WarningState → Bytes → Bool → Warned
unfolding continue
start granted junk st msg tocont = elim (add_to_buffer granted.0 junk st.buffer warning_prefix) [
  | none ↦ none
  | some b ↦ continue granted.1 junk (record st { buffer = b }) msg tocont
]

-- `granted` says whether the allocation for the prefix and the one for the message succeed.
pub warning : Bool × Bool → (ℕ → ℕ) → WarningState → Bytes → Bool → Warned
unfolding is_control control continue start
warning granted junk st msg tocont =
    if st.buffer.cursor == 0
    then if is_control msg
      then some (control st msg, none)
      else if not st.enabled
      then some (st, none)
      else start granted junk st msg tocont
    else continue granted.1 junk st msg tocont

-- `gc_warning_st`, the finaliser of the warning state
pub gc_warning_st : WarningState → WarningState
gc_warning_st st = record st { buffer = free_buffer st.buffer }

-- the state that `setup_warnings` installs
unfoldable pub setup_warnings : WarningState
setup_warnings = record { buffer = init_buffer; enabled = true }
