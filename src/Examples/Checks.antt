-- ===== src/Examples/Checks.antt =====
-- The argument checks of the small interpreter.
use irc_core.Base.{
  Bytes, [], ◌∷◌, ℕ, zero, suc, ◌≤◌, ◌<◌, ◌≡◌, ◌≢◌, refl, ap, Bool, true, false, Option, none, some,
  List, map, reverse, length, get_elem?, ltb, arith, ◌⊎◌, inl, inr, ◌∙◌, if◌then◌else◌,
}
use irc_core.Lua.Value.{Value, nil, integer, str}
use irc_core.Lua.Api.{Outcome, returned, raised}
use irc_core.Lua.Auxlib.{Arg, text, nothing, opaque, arg_truthy, optional, Raised, arg_with, Auxlib}
use irc_core.Examples.Interpreter.{Memory, text_of}
use irc_core.Examples.Instance.{interpreter}

abbrev pub arguments : Memory → List Arg
arguments m = map (λ v. arg_with (text_of v) v) (reverse m.stack)

abbrev pub truth_of : Option Arg → Bool
truth_of (some a) = arg_truthy a
truth_of none = false

abbrev pub argument : ℕ → Memory → Option Arg
argument zero m = none
argument (suc i) m = get_elem? (arguments m) i

abbrev pub integer_value : Value → Option ℕ
integer_value (integer n) = some n
integer_value v = none

abbrev pub integer_argument : Option Value → Option ℕ
integer_argument (some v) = integer_value v
integer_argument none = none

abbrev pub numbered : ℕ → Memory → Option Value
numbered zero m = none
numbered (suc i) m = get_elem? (reverse m.stack) i

integer_cases : (o : Option ℕ) → (o ≡ none) ⊎ ((n : ℕ) × (o ≡ some n))
integer_cases none = inl refl
integer_cases (some n) = inr (n, refl)

pub map_found :
    (f : Value → Arg) (xs : List Value) (i : ℕ) (v : Value)
    → get_elem? xs i ≡ some v
    → get_elem? (map f xs) i ≡ some (f v)
map_found f [] i v h = cc
map_found f (x ∷ xs) zero v h = cc
map_found f (x ∷ xs) (suc i) v h = map_found f xs i v h

abbrev pub value_text : Option Value → Option Bytes
value_text (some v) = text_of v
value_text none = none

module _ {W : Type 0} where
  abbrev pub check_arg : Option Arg → Memory → W → Outcome Memory W Bytes
  check_arg (some (text b)) m w = returned b m w
  check_arg a m w = raised nil m w

  abbrev pub check_optional : Option (Option Bytes) → Memory → W → Outcome Memory W (Option Bytes)
  check_optional (some b) m w = returned b m w
  check_optional none m w = raised nil m w

  abbrev pub check_none : Bool → Memory → W → Outcome Memory W (Unit {0})
  check_none true m w = returned tt m w
  check_none false m w = raised nil m w

  pub text_law :
      (i : ℕ) (m : Memory) (w : W) (b : Bytes)
      → get_elem? (arguments m) i ≡ some (text b)
      → (m' : Memory) × (check_arg (argument (suc i) m) m w ≡ returned b m' w)
        × (arguments m' ≡ arguments m)
  text_law i m w b h = (m, ap (λ (a : Option Arg). check_arg a m w) h, refl)

  pub str_law :
      (i : ℕ) (m : Memory) (w : W) (b : Bytes)
      → get_elem? (reverse m.stack) i ≡ some (str b)
      → check_arg (argument (suc i) m) m w ≡ returned b m w
  str_law i m w b h =
      ap (λ (a : Option Arg). check_arg a m w)
        (map_found (λ v. arg_with (text_of v) v) (reverse m.stack) i (str b) h)

  other_arg :
      (a : Option Arg) (m : Memory) (w : W)
      → ((b : Bytes) → a ≢ some (text b))
      → Raised (check_arg a m w) w
  other_arg none m w h = (nil, m, refl)
  other_arg (some (text b)) m w h = absurd (h b refl)
  other_arg (some nothing) m w h = (nil, m, refl)
  other_arg (some (opaque t)) m w h = (nil, m, refl)

  pub other_law :
      (i : ℕ) (m : Memory) (w : W)
      → ((b : Bytes) → get_elem? (arguments m) i ≢ some (text b))
      → Raised (check_arg (argument (suc i) m) m w) w
  other_law i m w h = other_arg (get_elem? (arguments m) i) m w h

  pub some_law :
      (i : ℕ) (m : Memory) (w : W) (b : Option Bytes)
      → optional (get_elem? (arguments m) i) ≡ some b
      → (m' : Memory) × (check_optional (optional (argument (suc i) m)) m w ≡ returned b m' w)
        × (arguments m' ≡ arguments m)
  some_law i m w b h = (m, ap (λ (a : Option (Option Bytes)). check_optional a m w) h, refl)

  pub none_law :
      (i : ℕ) (m : Memory) (w : W)
      → optional (get_elem? (arguments m) i) ≡ none
      → Raised (check_optional (optional (argument (suc i) m)) m w) w
  none_law i m w h = (nil, m, ap (λ (a : Option (Option Bytes)). check_optional a m w) h)

  pub absent_law :
      (i : ℕ) (m : Memory) (w : W)
      → length (arguments m) < i
      → check_none (ltb (length (arguments m)) i) m w ≡ returned tt m w
  absent_law i m w h =
      let less : ltb (length (arguments m)) i ≡ true = ground arith in
      ap (λ (b : Bool). check_none b m w) less

  pub present_law :
      (i : ℕ) (m : Memory) (w : W)
      → i ≤ length (arguments m)
      → Raised (check_none (ltb (length (arguments m)) i) m w) w
  present_law i m w h =
      let more : ltb (length (arguments m)) i ≡ false = ground arith in
      (nil, m, ap (λ (b : Bool). check_none b m w) more)

  abbrev pub check_some : Bool → Memory → W → Outcome Memory W (Unit {0})
  check_some absent m w = if absent then raised nil m w else returned tt m w

  pub any_present :
      (i : ℕ) (m : Memory) (w : W)
      → 0 < i
      → i ≤ length (arguments m)
      → check_some (ltb (length (arguments m)) i) m w ≡ returned tt m w
  any_present i m w pos h =
      let more : ltb (length (arguments m)) i ≡ false = ground arith in
      ap (λ (b : Bool). check_some b m w) more

  pub any_absent :
      (i : ℕ) (m : Memory) (w : W)
      → length (arguments m) < i
      → Raised (check_some (ltb (length (arguments m)) i) m w) w
  any_absent i m w h =
      let less : ltb (length (arguments m)) i ≡ true = ground arith in
      (nil, m, ap (λ (b : Bool). check_some b m w) less)

  abbrev pub check_integer : Option ℕ → Memory → W → Outcome Memory W ℕ
  check_integer (some n) m w = returned n m w
  check_integer none m w = raised nil m w

  pub integer_some :
      (i : ℕ) (m : Memory) (w : W) (v : Value) (n : ℕ)
      → get_elem? (reverse m.stack) i ≡ some v
      → integer_value v ≡ some n
      → check_integer (integer_argument (get_elem? (reverse m.stack) i)) m w ≡ returned n m w
  integer_some i m w v n h e =
      ap (λ (o : Option Value). check_integer (integer_argument o) m w) h
      ∙ ap (λ (o : Option ℕ). check_integer o m w) e

  pub no_integer :
      (o : Option Value) (m : Memory) (w : W)
      → ((v : Value) (n : ℕ) → o ≡ some v → integer_value v ≢ some n)
      → Raised (check_integer (integer_argument o) m w) w
  no_integer none m w h = (nil, m, refl)
  no_integer (some v) m w h = elim (integer_cases (integer_value v)) [
    | inl e ↦ (nil, m, ap (λ (o : Option ℕ). check_integer o m w) e)
    | inr (n, e) ↦ absurd (h v n refl e)
  ]

  -- The text of a value, if it has one, is pushed.
  abbrev pub push_text : Option Bytes → Memory → W → Outcome Memory W Bytes
  push_text (some b) m w = returned b (record m { stack = str b ∷ m.stack }) w
  push_text none m w = raised nil m w

  pub push_text_law :
      (o : Option Bytes) (m m' : Memory) (w w' : W) (b : Bytes)
      → push_text o m w ≡ returned b m' w'
      → m'.stack ≡ str b ∷ m.stack
  push_text_law (some t) m m' w w' b h = ground arith
  push_text_law none m m' w w' b h = absurd (cc h)

  abbrev pub checks : Auxlib {W = W} interpreter
  checks = record {
    lual_checklstring = λ i m w. check_arg (argument i m) m w;
    checklstring-text = text_law;
    checklstring-str = str_law;
    checklstring-other = other_law;
    lual_optlstring = λ i m w. check_optional (optional (argument i m)) m w;
    optlstring-some = some_law;
    optlstring-none = none_law;
    lual_checktype_none = λ i m w. check_none (ltb (length (arguments m)) i) m w;
    checktype_none-absent = absent_law;
    checktype_none-present = present_law;
    argument_truthy = λ i m. truth_of (argument i m);
    argument_truthy_lem = λ i m a h. ap truth_of h;
    argument_truthy_absent = λ i m h. ap truth_of h;
    lual_argcheck = λ b i message m w. check_none b m w;
    argcheck-true = λ i message m w. refl;
    argcheck-false = λ i message m w. (nil, m, refl);
    lual_error = λ A message m w. raised nil m w;
    error_lem = λ A message m w. (nil, m, refl);
    integer_of = integer_value;
    integer_of-integer = λ n small. refl;
    lual_checkinteger = λ i m w. check_integer (integer_argument (numbered i m)) m w;
    checkinteger-some = integer_some;
    checkinteger-none = λ i m w h. no_integer (get_elem? (reverse m.stack) i) m w h;
    lual_tolstring = λ i m w. push_text (value_text (numbered i m)) m w;
    tolstring-stack = λ i m m' w w' b h. push_text_law (value_text (numbered i m)) m m' w w' b h;
    lual_checkany = λ i m w. check_some (ltb (length (arguments m)) i) m w;
    checkany-present = any_present;
    checkany-absent = any_absent;
  }
