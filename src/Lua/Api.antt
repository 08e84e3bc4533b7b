-- ===== src/Lua/Api.antt =====
-- The functions of the Lua C API that lua-extension calls, with what the reference manual says of
-- them. `lua_insert(L, i)` also stands for `lua_rotate(L, i, 1)`, of which it is an abbreviation.
use irc_core.Base.{
  codes, Bytes, ℕ, suc, ◌≡◌, Bool, true, false, Option, none, some, List, [], ◌∷◌, ◌++◌, length,
  take, drop, reverse, get_elem?, ◌≢◌, if◌then◌else◌,
}
use irc_core.Lua.Value.{
  CFunction, Value, truthy, nil, str, table, userdata, cfunction, name, index, Fields, no_fields,
  set_key, update, set_global, View, Index, above, adjust,
}

-- What C code does with an interpreter state `S` and a client `W`: it returns, or it raises an error
-- with an error value, which leaves the function at once.
pub data Outcome (S W A : Type 0) : Type 0 where
  returned : A → S → W → Outcome S W A
  raised : Value → S → W → Outcome S W A

abbrev pub is_nil : Value → Bool
is_nil nil = true
is_nil v = false

-- `L : Lua W` is an interpreter whose Lua code may call into a client with states `W`.
pub record Lua (W : Type 0) : Type 1 where
  pub State : Type 0
  pub view : State → View
  -- A frame of its own for a C function that is called with these values on its stack; also the
  -- caller's frame again, once the callee is done.
  pub enter : List Value → State → State
  pub view-enter :
      (xs : List Value) (s : State) → view (enter xs s) ≡ record (view s) { stack = xs }
  -- `lua_pushnil`, `lua_pushinteger`, `lua_pushlstring` and their like
  pub lua_push : Value → State → State
  pub view-push :
      (v : Value) (s : State) → view (lua_push v s) ≡ record (view s) { stack = v ∷ (view s).stack }
  pub lua_gettop : State → ℕ
  pub gettop_lem : (s : State) → lua_gettop s ≡ length (view s).stack
  pub lua_pop : ℕ → State → State
  pub view-pop :
      (n : ℕ) (s : State) → view (lua_pop n s) ≡ record (view s) { stack = drop n (view s).stack }
  pub lua_insert : Index → State → State
  pub view-insert :
      (i : Index) (s : State) (v : Value) (xs : List Value)
      → (view s).stack ≡ v ∷ xs
      → let k = above i (v ∷ xs) in
        view (lua_insert i s) ≡ record (view s) { stack = take k xs ++ v ∷ drop k xs }
  pub lua_remove : Index → State → State
  pub view-remove :
      (i : Index) (s : State)
      → let xs = (view s).stack in
        let k = above i xs in
        view (lua_remove i s) ≡ record (view s) { stack = take k xs ++ drop (suc k) xs }
  -- The registry at pointer keys. `module_key` is the address of `glirc_callback_module_key`.
  pub module_key : ℕ
  pub lua_rawsetp : ℕ → State → State
  pub view-rawsetp :
      (p : ℕ) (s : State) (v : Value) (xs : List Value)
      → (view s).stack ≡ v ∷ xs
      → view (lua_rawsetp p s)
        ≡ record (view s) { stack = xs; registry = update (view s).registry p v }
  pub lua_rawgetp : ℕ → State → State
  pub view-rawgetp :
      (p : ℕ) (s : State)
      → view (lua_rawgetp p s) ≡ record (view s) { stack = (view s).registry p ∷ (view s).stack }
  -- A new object is not at the address of a static variable, of a table that is in use, or of a
  -- userdata that the registry keeps alive.
  pub new_address : State → ℕ
  pub new_address-ne_module_key : (s : State) → new_address s ≢ module_key
  pub new_address-ne_table : (s : State) → (view s).tables (new_address s) ≡ none
  pub new_address-ne_userdata :
      (s : State) (p : ℕ) → (view s).registry p ≡ userdata p → new_address s ≢ p
  pub lua_newuserdata : ℕ → State → State
  pub view-newuserdata :
      (size : ℕ) (s : State)
      → view (lua_newuserdata size s)
        ≡ record (view s) { stack = userdata (new_address s) ∷ (view s).stack }
  -- `lua_setuservalue(L, -2)` and `lua_getuservalue(L, -1)`
  pub lua_setuservalue : State → State
  pub view-setuservalue :
      (s : State) (v : Value) (a : ℕ) (xs : List Value)
      → (view s).stack ≡ v ∷ userdata a ∷ xs
      → view (lua_setuservalue s)
        ≡ record (view s) { stack = userdata a ∷ xs; user_values = update (view s).user_values a v }
  pub lua_getuservalue : State → State
  pub view-getuservalue :
      (s : State) (a : ℕ) (xs : List Value)
      → (view s).stack ≡ userdata a ∷ xs
      → view (lua_getuservalue s)
        ≡ record (view s) { stack = (view s).user_values a ∷ userdata a ∷ xs }
  pub lua_createtable : State → State
  pub view-createtable :
      (s : State)
      → view (lua_createtable s) ≡ record (view s) {
        stack = table (new_address s) ∷ (view s).stack;
        tables = update (view s).tables (new_address s) (some no_fields);
      }
  -- `lua_setfield(L, -2, k)`, `lua_rawseti(L, -2, i)` and `lua_rawset(L, -3)`
  pub lua_setfield : Bytes → State → State
  pub view-setfield :
      (k : Bytes) (s : State) (v : Value) (t : ℕ) (f : Fields) (xs : List Value)
      → (view s).stack ≡ v ∷ table t ∷ xs
      → (view s).tables t ≡ some f
      → view (lua_setfield k s) ≡ record (view s) {
        stack = table t ∷ xs;
        tables = update (view s).tables t (some (set_key f (name k) v));
      }
  pub lua_rawseti : ℕ → State → State
  pub view-rawseti :
      (i : ℕ) (s : State) (v : Value) (t : ℕ) (f : Fields) (xs : List Value)
      → (view s).stack ≡ v ∷ table t ∷ xs
      → (view s).tables t ≡ some f
      → view (lua_rawseti i s) ≡ record (view s) {
        stack = table t ∷ xs;
        tables = update (view s).tables t (some (set_key f (index i) v));
      }
  pub lua_rawset : State → State
  pub view-rawset :
      (s : State) (v : Value) (k : Bytes) (t : ℕ) (f : Fields) (xs : List Value)
      → (view s).stack ≡ v ∷ str k ∷ table t ∷ xs
      → (view s).tables t ≡ some f
      → view (lua_rawset s) ≡ record (view s) {
        stack = table t ∷ xs;
        tables = update (view s).tables t (some (set_key f (name k) v));
      }
  -- Global variables; the table that holds them has no metatable before a script runs. Of the
  -- functions that C code puts there, `library_function` is the value of the one of a name.
  pub library_function : Bytes → Value
  pub lua_setglobal : Bytes → State → State
  pub view-setglobal :
      (k : Bytes) (s : State) (v : Value) (xs : List Value)
      → (view s).stack ≡ v ∷ xs
      → view (lua_setglobal k s)
        ≡ record (view s) { stack = xs; globals = set_global (view s).globals k v }
  -- A new interpreter, if there is memory for it.
  pub lual_newstate : W → Option State
  pub newstate-stack : (w : W) (s : State) → lual_newstate w ≡ some s → (view s).stack ≡ []
  -- The error that is raised where the version of the library is not the program's.
  pub lual_checkversion : State → Option Value
  -- A file, or the standard input, is read as a function; or the error is pushed in its place.
  pub lual_loadfile : Option Bytes → State → W → Bool × State × W
  pub view-loadfile :
      (path : Option Bytes) (s : State) (w : W)
      → (v : Value) × (view (lual_loadfile path s w).1
          ≡ record (view s) { stack = v ∷ (view s).stack })
  -- The standard libraries are new tables and global variables; `arg` is none of theirs.
  pub lual_openlibs : State → State
  pub openlibs-stack : (s : State) → (view (lual_openlibs s)).stack ≡ (view s).stack
  pub openlibs-tables :
      (s : State) (t : ℕ) (f : Fields)
      → (view s).tables t ≡ some f
      → (view (lual_openlibs s)).tables t ≡ some f
  pub openlibs-globals :
      (s : State) → (view (lual_openlibs s)).globals (codes "arg") ≡ (view s).globals (codes "arg")
  -- The text of a value: a string's bytes, a number's digits. `lua_tolstring` turns a number on the
  -- stack into that text.
  pub text_of : Value → Option Bytes
  pub text_of-str : (b : Bytes) → text_of (str b) ≡ some b
  pub text_of-nil : text_of nil ≡ none
  pub text_of-table : (t : ℕ) → text_of (table t) ≡ none
  pub lua_tolstring : State → Option Bytes × State
  pub tolstring_lem :
      (s : State) (v : Value) (xs : List Value)
      → (view s).stack ≡ v ∷ xs
      → (v' : Value) × ((lua_tolstring s).0 ≡ text_of v)
        × (view (lua_tolstring s).1 ≡ record (view s) { stack = v' ∷ xs })
  pub tolstring-str :
      (s : State) (b : Bytes) (xs : List Value)
      → (view s).stack ≡ str b ∷ xs
      → view (lua_tolstring s).1 ≡ view s
  -- `lua_tolstring` of an argument
  pub lua_tolstring_at : ℕ → State → Option Bytes × State
  pub tolstring_at-text :
      (i : ℕ) (s : State) (v : Value)
      → get_elem? (reverse (view s).stack) i ≡ some v
      → (lua_tolstring_at (suc i) s).0 ≡ text_of v
  pub lua_toboolean : State → Bool
  pub toboolean_lem :
      (s : State) (v : Value) (xs : List Value)
      → (view s).stack ≡ v ∷ xs
      → lua_toboolean s ≡ truthy v
  -- The end of the interpreter. Finalisers may run Lua code.
  pub lua_close : State → W → W
  -- Calls that may run Lua code. `lua_gettable(L, 1)` says whether the value is nil.
  pub lua_gettable : State → W → Outcome State W Bool
  pub gettable-plain :
      (s : State) (w : W) (k : Bytes) (t : ℕ) (f : Fields) (xs : List Value)
      → (view s).stack ≡ str k ∷ xs ++ table t ∷ []
      → (view s).tables t ≡ some f
      → (s' : State) × (lua_gettable s w ≡ returned (is_nil (f (name k))) s' w)
        × (view s' ≡ record (view s) { stack = f (name k) ∷ xs ++ table t ∷ [] })
  pub gettable-stack :
      (s s' : State) (w w' : W) (n : Bool) (k : Value) (xs : List Value)
      → (view s).stack ≡ k ∷ xs
      → lua_gettable s w ≡ returned n s' w'
      → (v : Value) × ((view s').stack ≡ v ∷ xs) × (n ≡ is_nil v)
  pub lua_call : ℕ → ℕ → State → W → Outcome State W (Unit {0})
  pub call-stack :
      (nargs wanted : ℕ) (s s' : State) (w w' : W) (args : List Value) (f : Value) (xs : List Value)
      → (view s).stack ≡ args ++ f ∷ xs
      → length args ≡ nargs
      → lua_call nargs wanted s w ≡ returned tt s' w'
      → (results : List Value) × ((view s').stack ≡ results ++ xs) × (length results ≡ wanted)
  -- A protected call leaves the results, or the error value, in place of the function and its
  -- arguments, and says which. `bodies` is the code behind the pointers to C functions.
  pub lua_pcall : (CFunction → State → W → Outcome State W ℕ) → ℕ → ℕ → State → W → Bool × State × W
  pub pcall-stack :
      (bodies : CFunction → State → W → Outcome State W ℕ) (nargs wanted : ℕ) (s : State) (w : W)
      (args : List Value) (f : Value) (xs : List Value)
      → (view s).stack ≡ args ++ f ∷ xs
      → length args ≡ nargs
      → let (ok, s', w') = lua_pcall bodies nargs wanted s w in
        (results : List Value) × ((view s').stack ≡ results ++ xs)
        × (length results ≡ (if ok then wanted else 1))
  pub pcall-returned :
      (bodies : CFunction → State → W → Outcome State W ℕ) (nargs wanted : ℕ) (s s' : State)
      (w w' : W) (args : List Value) (f : CFunction) (xs : List Value) (n : ℕ)
      → (view s).stack ≡ args ++ cfunction f ∷ xs
      → length args ≡ nargs
      → bodies f (enter args s) w ≡ returned n s' w'
      → lua_pcall bodies nargs wanted s w
        ≡ (true, enter (adjust wanted (take n (view s').stack) ++ xs) s', w')
  pub pcall-raised :
      (bodies : CFunction → State → W → Outcome State W ℕ) (nargs wanted : ℕ) (s s' : State)
      (w w' : W) (args : List Value) (f : CFunction) (xs : List Value) (e : Value)
      → (view s).stack ≡ args ++ cfunction f ∷ xs
      → length args ≡ nargs
      → bodies f (enter args s) w ≡ raised e s' w'
      → lua_pcall bodies nargs wanted s w ≡ (false, enter (e ∷ xs) s', w')
