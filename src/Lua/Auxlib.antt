-- ===== src/Lua/Auxlib.antt =====
-- The functions of lauxlib.h with which the C functions check their arguments, with what the
-- manual says of them.
use irc_core.Base.{
  Bytes, ℕ, suc, ◌^◌, ◌≤◌, ◌<◌, ◌≡◌, ◌≢◌, Bool, Option, none, some, List, map, reverse, length,
  get_elem?, ◌∷◌,
}
use irc_core.Lua.Value.{Value, nil, integer, str, truthy}
use irc_core.Lua.Api.{Lua, Outcome, returned, raised}

-- What a function can tell of an argument: its text, if it is a string or a number; that it is nil;
-- or, of any other value, whether it counts as true.
pub data Arg : Type 0 where
  text : Bytes → Arg
  nothing : Arg
  opaque : Bool → Arg

abbrev pub arg_truthy : Arg → Bool
arg_truthy (text b) = Bool.true
arg_truthy nothing = Bool.false
arg_truthy (opaque b) = b

abbrev pub arg_with : Option Bytes → Value → Arg
arg_with (some b) v = text b
arg_with none nil = nothing
arg_with none v = opaque (truthy v)

-- An argument that `lual_optlstring` takes, with what it makes of it.
abbrev pub optional : Option Arg → Option (Option Bytes)
optional none = some none
optional (some nothing) = some none
optional (some (text b)) = some (some b)
optional (some (opaque b)) = none

abbrev pub Raised : {S W A : Type 0} → Outcome S W A → W → Type 0
Raised {S} o w = (e : Value) × (s : S) × (o ≡ raised e s w)

module _ {W : Type 0} (L : Lua W) where
  -- The arguments of the running C function, the first one first.
  abbrev pub given : L.State → List Arg
  given s = map (λ v. arg_with (L.text_of v) v) (reverse (L.view s).stack)

  pub record Auxlib : Type 1 where
    -- A string or a number is taken as text; a number on the stack may be turned into that text.
    pub lual_checklstring : ℕ → L.State → W → Outcome L.State W Bytes
    pub checklstring-text :
        (i : ℕ) (s : L.State) (w : W) (b : Bytes)
        → get_elem? (given s) i ≡ some (text b)
        → (s' : L.State) × (lual_checklstring (suc i) s w ≡ returned b s' w) × (given s' ≡ given s)
    pub checklstring-str :
        (i : ℕ) (s : L.State) (w : W) (b : Bytes)
        → get_elem? (reverse (L.view s).stack) i ≡ some (str b)
        → lual_checklstring (suc i) s w ≡ returned b s w
    pub checklstring-other :
        (i : ℕ) (s : L.State) (w : W)
        → ((b : Bytes) → get_elem? (given s) i ≢ some (text b))
        → Raised (lual_checklstring (suc i) s w) w
    -- With NULL as the default.
    pub lual_optlstring : ℕ → L.State → W → Outcome L.State W (Option Bytes)
    pub optlstring-some :
        (i : ℕ) (s : L.State) (w : W) (b : Option Bytes)
        → optional (get_elem? (given s) i) ≡ some b
        → (s' : L.State) × (lual_optlstring (suc i) s w ≡ returned b s' w) × (given s' ≡ given s)
    pub optlstring-none :
        (i : ℕ) (s : L.State) (w : W)
        → optional (get_elem? (given s) i) ≡ none
        → Raised (lual_optlstring (suc i) s w) w
    -- `lual_checktype(L, i, LUA_TNONE)`: there is no argument `i`.
    pub lual_checktype_none : ℕ → L.State → W → Outcome L.State W (Unit {0})
    pub checktype_none-absent :
        (i : ℕ) (s : L.State) (w : W)
        → length (given s) < i
        → lual_checktype_none i s w ≡ returned tt s w
    pub checktype_none-present :
        (i : ℕ) (s : L.State) (w : W) → i ≤ length (given s) → Raised (lual_checktype_none i s w) w
    -- `lua_toboolean(L, i)` of an argument
    pub argument_truthy : ℕ → L.State → Bool
    pub argument_truthy_lem :
        (i : ℕ) (s : L.State) (a : Arg)
        → get_elem? (given s) i ≡ some a
        → argument_truthy (suc i) s ≡ arg_truthy a
    pub argument_truthy_absent :
        (i : ℕ) (s : L.State)
        → get_elem? (given s) i ≡ none
        → argument_truthy (suc i) s ≡ Bool.false
    -- `lual_argcheck(L, cond, i, message)`
    pub lual_argcheck : Bool → ℕ → Bytes → L.State → W → Outcome L.State W (Unit {0})
    pub argcheck-true :
        (i : ℕ) (message : Bytes) (s : L.State) (w : W)
        → lual_argcheck Bool.true i message s w ≡ returned tt s w
    pub argcheck-false :
        (i : ℕ) (message : Bytes) (s : L.State) (w : W)
        → Raised (lual_argcheck Bool.false i message s w) w
    -- An error message is raised, with the position of the call before it.
    pub lual_error : (A : Type 0) → Bytes → L.State → W → Outcome L.State W A
    pub error_lem :
        (A : Type 0) (message : Bytes) (s : L.State) (w : W) → Raised (lual_error A message s w) w
    -- The integer that a value stands for, as its 64-bit word.
    pub integer_of : Value → Option ℕ
    pub integer_of-integer : (n : ℕ) → n < 2 ^ 63 → integer_of (integer n) ≡ some n
    pub lual_checkinteger : ℕ → L.State → W → Outcome L.State W ℕ
    pub checkinteger-some :
        (i : ℕ) (s : L.State) (w : W) (v : Value) (n : ℕ)
        → get_elem? (reverse (L.view s).stack) i ≡ some v
        → integer_of v ≡ some n
        → lual_checkinteger (suc i) s w ≡ returned n s w
    pub checkinteger-none :
        (i : ℕ) (s : L.State) (w : W)
        → ((v : Value) (n : ℕ)
            → get_elem? (reverse (L.view s).stack) i ≡ some v
            → integer_of v ≢ some n)
        → Raised (lual_checkinteger (suc i) s w) w
    -- The text of any value, which is also pushed; a metamethod of the value may make it.
    pub lual_tolstring : ℕ → L.State → W → Outcome L.State W Bytes
    pub tolstring-stack :
        (i : ℕ) (s s' : L.State) (w w' : W) (b : Bytes)
        → lual_tolstring i s w ≡ returned b s' w'
        → (L.view s').stack ≡ str b ∷ (L.view s).stack
    -- There is an argument `i`.
    pub lual_checkany : ℕ → L.State → W → Outcome L.State W (Unit {0})
    pub checkany-present :
        (i : ℕ) (s : L.State) (w : W)
        → 0 < i
        → i ≤ length (given s)
        → lual_checkany i s w ≡ returned tt s w
    pub checkany-absent :
        (i : ℕ) (s : L.State) (w : W) → length (given s) < i → Raised (lual_checkany i s w) w
