-- ===== src/Examples/Calls.antt =====
-- Calls in the small interpreter.
use irc_core.Base.{
  Bytes, ℕ, zero, suc, ◌-◌, ◌≡◌, refl, ap, ap₂, subst, ◌∙◌, Bool, true, false, some, List, [], ◌∷◌,
  ◌++◌, length, take, drop, length-append, length-drop, take_of_append, drop_of_append, arith,
  if◌then◌else◌,
}
use irc_core.Lua.Value.{
  CFunction, Value, nil, boolean, str, table, cfunction, other, Fields, name, nils, adjust,
}
use irc_core.Lua.Api.{Outcome, returned, raised, is_nil}
use irc_core.Examples.Interpreter.{Memory, view, fields_at, find_table}

pub length-nils : (n : ℕ) → length (nils n) ≡ n
length-nils zero = refl
length-nils (suc n) = ap suc (length-nils n)

length-adjust : (n : ℕ) (rs : List Value) → length (adjust n rs) ≡ n
length-adjust n rs = omega (
  arith,
  length-append (nils (n - length rs)) (drop (length rs - n) rs),
  length-nils (n - length rs),
  length-drop (length rs - n) rs,
)

abbrev trues : ℕ → List Value
trues zero = []
trues (suc n) = boolean true ∷ trues n

length-trues : (n : ℕ) → length (trues n) ≡ n
length-trues zero = refl
length-trues (suc n) = ap suc (length-trues n)

abbrev pub enter : List Value → Memory → Memory
enter xs m = record m { stack = xs }

abbrev error_text : Value
error_text = str (b'e' ∷ b'r' ∷ b'r' ∷ [])

pub fields_held :
    (m : Memory) (t : ℕ) (f : Fields) → find_table m.tables t ≡ some f → fields_at m t ≡ f
fields_held m t f held = rw (held, fields_at) refl

abbrev last : List Value → Value
last [] = nil
last (v ∷ []) = v
last (v ∷ u ∷ us) = last (u ∷ us)

last-append : (xs : List Value) (v : Value) → last (xs ++ v ∷ []) ≡ v
last-append [] v = refl
last-append (x ∷ []) v = refl
last-append (x ∷ y ∷ ys) v = last-append (y ∷ ys) v

module _ {W : Type 0} where
  abbrev get_value : Value → Value → List Value → Memory → W → Outcome Memory W Bool
  get_value (table t) (str k) xs m w =
      let v = fields_at m t (name k) in returned (is_nil v) (record m { stack = v ∷ xs }) w
  get_value u k xs m w = raised error_text m w

  abbrev get_from : List Value → Memory → W → Outcome Memory W Bool
  get_from [] m w = raised error_text m w
  get_from (k ∷ xs) m w = get_value (last xs) k xs m w

  -- `lua_gettable(L, 1)`
  abbrev pub lua_gettable : Memory → W → Outcome Memory W Bool
  lua_gettable m w = get_from m.stack m w

  pub get_plain :
      (m : Memory) (w : W) (k : Bytes) (t : ℕ) (f : Fields) (xs : List Value)
      → m.stack ≡ str k ∷ xs ++ table t ∷ []
      → find_table m.tables t ≡ some f
      → (m' : Memory) × (lua_gettable m w ≡ returned (is_nil (f (name k))) m' w)
        × (view m' ≡ record (view m) { stack = f (name k) ∷ xs ++ table t ∷ [] })
  get_plain m w k t f xs top held = (
    record m { stack = f (name k) ∷ xs ++ table t ∷ [] },
    ap (λ (ys : List Value). get_from ys m w) top
        ∙ ap (λ (u : Value). get_value u (str k) (xs ++ table t ∷ []) m w)
            (last-append xs (table t))
        ∙ ap
            (λ (g : Fields).
              returned (is_nil (g (name k))) (record m { stack = g (name k) ∷ xs ++ table t ∷ [] })
                w)
            (fields_held m t f held),
    refl,
  )

  get_value_stack :
      (u k : Value) (xs : List Value) (m m' : Memory) (w w' : W) (n : Bool)
      → get_value u k xs m w ≡ returned n m' w'
      → (v : Value) × (m'.stack ≡ v ∷ xs) × (n ≡ is_nil v)
  get_value_stack (table t) (str k) xs m m' w w' n h =
      (fields_at m t (name k), ground arith, ground arith)
  get_value_stack (table t) _ xs m m' w w' n h = absurd (cc h)
  get_value_stack _ _ xs m m' w w' n h = absurd (cc h)

  pub get_stack :
      (m m' : Memory) (w w' : W) (n : Bool) (k : Value) (xs : List Value)
      → m.stack ≡ k ∷ xs
      → lua_gettable m w ≡ returned n m' w'
      → (v : Value) × (m'.stack ≡ v ∷ xs) × (n ≡ is_nil v)
  get_stack m m' w w' n k xs top h =
      get_value_stack (last xs) k xs m m' w w' n
        (subst (λ (ys : List Value). get_from ys m w ≡ returned n m' w') top h)

  abbrev call_value : Value → ℕ → List Value → Memory → W → Outcome Memory W (Unit {0})
  call_value (other (suc n)) wanted xs m w = returned tt (enter (trues wanted ++ xs) m) w
  call_value v wanted xs m w = raised error_text m w

  -- The values behind the arguments: the function and the rest.
  abbrev call_behind : List Value → ℕ → Memory → W → Outcome Memory W (Unit {0})
  call_behind [] wanted m w = raised error_text m w
  call_behind (f ∷ xs) wanted m w = call_value f wanted xs m w

  abbrev pub lua_call : ℕ → ℕ → Memory → W → Outcome Memory W (Unit {0})
  lua_call nargs wanted m w = call_behind (drop nargs m.stack) wanted m w

  abbrev ended : ℕ → List Value → Outcome Memory W ℕ → Bool × Memory × W
  ended wanted xs (returned n m w) = (true, enter (adjust wanted (take n m.stack) ++ xs) m, w)
  ended wanted xs (raised e m w) = (false, enter (e ∷ xs) m, w)

  abbrev protect :
      (CFunction → Memory → W → Outcome Memory W ℕ)
      → List Value
      → List Value
      → ℕ
      → Memory
      → W
      → Bool × Memory × W
  protect bodies args [] wanted m w = (false, enter (error_text ∷ []) m, w)
  protect bodies args (cfunction f ∷ xs) wanted m w = ended wanted xs (bodies f (enter args m) w)
  protect bodies args (other (suc n) ∷ xs) wanted m w = (true, enter (trues wanted ++ xs) m, w)
  protect bodies args (f ∷ xs) wanted m w = (false, enter (error_text ∷ xs) m, w)

  abbrev pub lua_pcall :
      (CFunction → Memory → W → Outcome Memory W ℕ) → ℕ → ℕ → Memory → W → Bool × Memory × W
  lua_pcall bodies nargs wanted m w =
      protect bodies (take nargs m.stack) (drop nargs m.stack) wanted m w

  call_value_stack :
      (f : Value) (wanted : ℕ) (xs : List Value) (m m' : Memory) (w w' : W)
      → call_value f wanted xs m w ≡ returned tt m' w'
      → (results : List Value) × (m'.stack ≡ results ++ xs) × (length results ≡ wanted)
  call_value_stack (other (suc n)) wanted xs m m' w w' h =
      (trues wanted, ground arith, length-trues wanted)
  call_value_stack (other zero) wanted xs m m' w w' h = absurd (cc h)
  call_value_stack _ wanted xs m m' w w' h = absurd (cc h)

  pub call_stack :
      (nargs wanted : ℕ) (m m' : Memory) (w w' : W) (args : List Value) (f : Value)
      (xs : List Value)
      → m.stack ≡ args ++ f ∷ xs
      → length args ≡ nargs
      → lua_call nargs wanted m w ≡ returned tt m' w'
      → (results : List Value) × (m'.stack ≡ results ++ xs) × (length results ≡ wanted)
  call_stack nargs wanted m m' w w' args f xs top n h =
      let behind : drop nargs m.stack ≡ f ∷ xs = rw (← n, top, drop_of_append) refl in
      call_value_stack f wanted xs m m' w w'
        (subst (λ (ys : List Value). call_behind ys wanted m w ≡ returned tt m' w') behind h)

  ended_stack :
      (wanted : ℕ) (xs : List Value) (o : Outcome Memory W ℕ)
      → let (ok, m', w') = ended wanted xs o in
        (results : List Value) × (m'.stack ≡ results ++ xs)
        × (length results ≡ (if ok then wanted else 1))
  ended_stack wanted xs (returned n m w) =
      (adjust wanted (take n m.stack), refl, length-adjust wanted (take n m.stack))
  ended_stack wanted xs (raised e m w) = (e ∷ [], refl, refl)

  protect_stack :
      (bodies : CFunction → Memory → W → Outcome Memory W ℕ) (args : List Value) (f : Value)
      (xs : List Value) (wanted : ℕ) (m : Memory) (w : W)
      → let (ok, m', w') = protect bodies args (f ∷ xs) wanted m w in
        (results : List Value) × (m'.stack ≡ results ++ xs)
        × (length results ≡ (if ok then wanted else 1))
  protect_stack bodies args (cfunction f) xs wanted m w =
      ended_stack wanted xs (bodies f (enter args m) w)
  protect_stack bodies args (other (suc n)) xs wanted m w =
      (trues wanted, refl, length-trues wanted)
  protect_stack bodies args (other zero) xs wanted m w = (error_text ∷ [], refl, refl)
  protect_stack bodies args _ xs wanted m w = (error_text ∷ [], refl, refl)

  -- The arguments are on top, the function and the rest behind them.
  pcall_split :
      (bodies : CFunction → Memory → W → Outcome Memory W ℕ) (nargs wanted : ℕ) (m : Memory) (w : W)
      (args : List Value) (f : Value) (xs : List Value)
      → m.stack ≡ args ++ f ∷ xs
      → length args ≡ nargs
      → lua_pcall bodies nargs wanted m w ≡ protect bodies args (f ∷ xs) wanted m w
  pcall_split bodies nargs wanted m w args f xs top n =
      let behind : drop nargs m.stack ≡ f ∷ xs = rw (← n, top, drop_of_append) refl in
      let front : take nargs m.stack ≡ args = rw (← n, top, take_of_append) refl in
      ap₂ (λ (ys zs : List Value). protect bodies ys zs wanted m w) front behind

  pub pcall_stack :
      (bodies : CFunction → Memory → W → Outcome Memory W ℕ) (nargs wanted : ℕ) (m : Memory) (w : W)
      (args : List Value) (f : Value) (xs : List Value)
      → m.stack ≡ args ++ f ∷ xs
      → length args ≡ nargs
      → let (ok, m', w') = lua_pcall bodies nargs wanted m w in
        (results : List Value) × (m'.stack ≡ results ++ xs)
        × (length results ≡ (if ok then wanted else 1))
  pcall_stack bodies nargs wanted m w args f xs top n =
      rw (pcall_split bodies nargs wanted m w args f xs top n)
        (protect_stack bodies args f xs wanted m w)

  pub pcall_returned :
      (bodies : CFunction → Memory → W → Outcome Memory W ℕ) (nargs wanted : ℕ) (m m' : Memory)
      (w w' : W) (args : List Value) (f : CFunction) (xs : List Value) (n : ℕ)
      → m.stack ≡ args ++ cfunction f ∷ xs
      → length args ≡ nargs
      → bodies f (enter args m) w ≡ returned n m' w'
      → lua_pcall bodies nargs wanted m w
        ≡ (true, enter (adjust wanted (take n m'.stack) ++ xs) m', w')
  pcall_returned bodies nargs wanted m m' w w' args f xs n top len ran =
      pcall_split bodies nargs wanted m w args (cfunction f) xs top len ∙ ap (ended wanted xs) ran

  pub pcall_raised :
      (bodies : CFunction → Memory → W → Outcome Memory W ℕ) (nargs wanted : ℕ) (m m' : Memory)
      (w w' : W) (args : List Value) (f : CFunction) (xs : List Value) (e : Value)
      → m.stack ≡ args ++ cfunction f ∷ xs
      → length args ≡ nargs
      → bodies f (enter args m) w ≡ raised e m' w'
      → lua_pcall bodies nargs wanted m w ≡ (false, enter (e ∷ xs) m', w')
  pcall_raised bodies nargs wanted m m' w w' args f xs e top len ran =
      pcall_split bodies nargs wanted m w args (cfunction f) xs top len ∙ ap (ended wanted xs) ran
