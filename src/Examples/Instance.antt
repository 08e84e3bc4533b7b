-- ===== src/Examples/Instance.antt =====
-- The small interpreter as a value of `Lua`, and its argument checks as a value of `Auxlib`.
use irc_core.Base.{
  zero, get_elem?, reverse, Bool, true, false, Option, Bytes, ℕ, suc, ◌≡◌, ◌≢◌, refl, ap, ◌∙◌, none,
  some, List, [], ◌∷◌, ◌++◌, length, take, drop, arith,
}
use irc_core.Lua.Value.{
  Value, nil, str, table, userdata, other, set_global, truthy, Fields, no_fields, set_key, name,
  index, update, Index, above,
}
use irc_core.Lua.Api.{Lua}
use irc_core.Examples.Interpreter.{
  Memory, view, find_table, new_address, no_table, not_registered, insert_stack, pop_registry,
  find_value, pop_user, push_user, pop_global, pop_element, pop_field, pop_pair, text_of,
}
use irc_core.Examples.Calls.{
  enter, fields_held, lua_gettable, get_plain, get_stack, lua_call, call_stack, lua_pcall,
  pcall_stack, pcall_returned, pcall_raised,
}

abbrev set_stack : Memory → List Value → Memory
set_stack m xs = record m { stack = xs }

abbrev is_some : Option Bytes → Bool
is_some none = false
is_some (some b) = true

abbrev first : List Value → Value
first [] = nil
first (v ∷ xs) = v

pub insert_law :
    (i : Index) (m : Memory) (v : Value) (xs : List Value)
    → m.stack ≡ v ∷ xs
    → let k = above i (v ∷ xs) in
      view (set_stack m (insert_stack i m.stack))
      ≡ record (view m) { stack = take k xs ++ v ∷ drop k xs }
insert_law i m v xs h = ap (λ (ys : List Value). view (set_stack m (insert_stack i ys))) h

pub setp_law :
    (p : ℕ) (m : Memory) (v : Value) (xs : List Value)
    → m.stack ≡ v ∷ xs
    → view (pop_registry p m m.stack)
      ≡ record (view m) { stack = xs; registry = update (view m).registry p v }
setp_law p m v xs h = ap (λ (ys : List Value). view (pop_registry p m ys)) h

pub setuser_law :
    (m : Memory) (v : Value) (a : ℕ) (xs : List Value)
    → m.stack ≡ v ∷ userdata a ∷ xs
    → view (pop_user m m.stack)
      ≡ record (view m) { stack = userdata a ∷ xs; user_values = update (view m).user_values a v }
setuser_law m v a xs h = ap (λ (ys : List Value). view (pop_user m ys)) h

pub getuser_law :
    (m : Memory) (a : ℕ) (xs : List Value)
    → m.stack ≡ userdata a ∷ xs
    → view (push_user m m.stack)
      ≡ record (view m) { stack = (view m).user_values a ∷ userdata a ∷ xs }
getuser_law m a xs h = ap (λ (ys : List Value). view (push_user m ys)) h

pub setfield_law :
    (k : Bytes) (m : Memory) (v : Value) (t : ℕ) (f : Fields) (xs : List Value)
    → m.stack ≡ v ∷ table t ∷ xs
    → find_table m.tables t ≡ some f
    → view (pop_field k m m.stack) ≡ record (view m) {
      stack = table t ∷ xs;
      tables = update (view m).tables t (some (set_key f (name k) v));
    }
setfield_law k m v t f xs h held =
    ap (λ (ys : List Value). view (pop_field k m ys)) h
    ∙ ap
        (λ (g : Fields). record (view m) {
          stack = table t ∷ xs;
          tables = update (view m).tables t (some (set_key g (name k) v));
        })
        (fields_held m t f held)

pub seti_law :
    (i : ℕ) (m : Memory) (v : Value) (t : ℕ) (f : Fields) (xs : List Value)
    → m.stack ≡ v ∷ table t ∷ xs
    → find_table m.tables t ≡ some f
    → view (pop_element i m m.stack) ≡ record (view m) {
      stack = table t ∷ xs;
      tables = update (view m).tables t (some (set_key f (index i) v));
    }
seti_law i m v t f xs h held =
    ap (λ (ys : List Value). view (pop_element i m ys)) h
    ∙ ap
        (λ (g : Fields). record (view m) {
          stack = table t ∷ xs;
          tables = update (view m).tables t (some (set_key g (index i) v));
        })
        (fields_held m t f held)

pub rawset_law :
    (m : Memory) (v : Value) (k : Bytes) (t : ℕ) (f : Fields) (xs : List Value)
    → m.stack ≡ v ∷ str k ∷ table t ∷ xs
    → find_table m.tables t ≡ some f
    → view (pop_pair m m.stack) ≡ record (view m) {
      stack = table t ∷ xs;
      tables = update (view m).tables t (some (set_key f (name k) v));
    }
rawset_law m v k t f xs h held =
    ap (λ (ys : List Value). view (pop_pair m ys)) h
    ∙ ap
        (λ (g : Fields). record (view m) {
          stack = table t ∷ xs;
          tables = update (view m).tables t (some (set_key g (name k) v));
        })
        (fields_held m t f held)

pub tolstring_law :
    (m : Memory) (v : Value) (xs : List Value)
    → m.stack ≡ v ∷ xs
    → (v' : Value) × (text_of (first m.stack) ≡ text_of v)
      × (view m ≡ record (view m) { stack = v' ∷ xs })
tolstring_law m v xs h = (
  v,
  ap (λ (ys : List Value). text_of (first ys)) h,
  ap (λ (ys : List Value). record (view m) { stack = ys }) h,
)

pub address_positive : (m : Memory) → new_address m ≢ 0
address_positive m = omega arith

pub address_free : (m : Memory) → find_table m.tables (new_address m) ≡ none
address_free m = no_table m.tables (new_address m) (omega arith)

pub setglobal_law :
    (k : Bytes) (m : Memory) (v : Value) (xs : List Value)
    → m.stack ≡ v ∷ xs
    → view (pop_global k m m.stack)
      ≡ record (view m) { stack = xs; globals = set_global (view m).globals k v }
setglobal_law k m v xs h = ap (λ (ys : List Value). view (pop_global k m ys)) h

-- A new interpreter.
abbrev blank : Memory
blank = record { stack = []; tables = []; registry = []; users = []; globals = [] }

pub blank_law : (m : Memory) → some blank ≡ some m → m.stack ≡ []
blank_law m h = cc

abbrev text_at : Option Value → Option Bytes
text_at (some v) = text_of v
text_at none = none

abbrev pub numbered_text : ℕ → List Value → Option Bytes
numbered_text zero xs = none
numbered_text (suc i) xs = text_at (get_elem? (reverse xs) i)

pub text_at_law :
    (i : ℕ) (xs : List Value) (v : Value)
    → get_elem? (reverse xs) i ≡ some v
    → numbered_text (suc i) xs ≡ text_of v
text_at_law i xs v h = ap text_at h

abbrev pub interpreter : {W : Type 0} → Lua W
interpreter {W} = record {
  State = Memory;
  view = view;
  enter = enter;
  view-enter = λ xs m. refl;
  lua_push = λ v m. set_stack m (v ∷ m.stack);
  view-push = λ v m. refl;
  lua_gettop = λ m. length m.stack;
  gettop_lem = λ m. refl;
  lua_pop = λ n m. set_stack m (drop n m.stack);
  view-pop = λ n m. refl;
  lua_insert = λ i m. set_stack m (insert_stack i m.stack);
  view-insert = insert_law;
  lua_remove =
      λ i m. let k = above i m.stack in set_stack m (take k m.stack ++ drop (suc k) m.stack);
  view-remove = λ i m. refl;
  module_key = 0;
  lua_rawsetp = λ p m. pop_registry p m m.stack;
  view-rawsetp = setp_law;
  lua_rawgetp = λ p m. set_stack m (find_value m.registry p ∷ m.stack);
  view-rawgetp = λ p m. refl;
  new_address = new_address;
  new_address-ne_module_key = λ m. address_positive m;
  new_address-ne_table = λ m. address_free m;
  new_address-ne_userdata = not_registered;
  lua_newuserdata = λ n m. set_stack m (userdata (new_address m) ∷ m.stack);
  view-newuserdata = λ n m. refl;
  lua_setuservalue = λ m. pop_user m m.stack;
  view-setuservalue = setuser_law;
  lua_getuservalue = λ m. push_user m m.stack;
  view-getuservalue = getuser_law;
  lua_createtable = λ m. record m {
    stack = table (new_address m) ∷ m.stack;
    tables = (new_address m, no_fields) ∷ m.tables;
  };
  view-createtable = λ m. refl;
  lua_setfield = λ k m. pop_field k m m.stack;
  view-setfield = setfield_law;
  lua_rawseti = λ i m. pop_element i m m.stack;
  view-rawseti = seti_law;
  lua_rawset = λ m. pop_pair m m.stack;
  view-rawset = rawset_law;
  library_function = str;
  lua_setglobal = λ k m. pop_global k m m.stack;
  view-setglobal = setglobal_law;
  lual_newstate = λ w. some blank;
  newstate-stack = λ w m h. blank_law m h;
  lual_checkversion = λ m. none;
  lual_loadfile = λ path m w. (is_some path, set_stack m (other 1 ∷ m.stack), w);
  view-loadfile = λ path m w. (other 1, refl);
  lual_openlibs = λ m. m;
  openlibs-stack = λ m. refl;
  openlibs-tables = λ m t f h. h;
  openlibs-globals = λ m. refl;
  text_of = text_of;
  text_of-str = λ b. refl;
  text_of-nil = refl;
  text_of-table = λ t. refl;
  lua_tolstring = λ m. (text_of (first m.stack), m);
  tolstring_lem = tolstring_law;
  tolstring-str = λ m b xs h. refl;
  lua_tolstring_at = λ i m. (numbered_text i m.stack, m);
  tolstring_at-text = λ i m v h. text_at_law i m.stack v h;
  lua_toboolean = λ m. truthy (first m.stack);
  toboolean_lem = λ m v xs h. ap (λ (ys : List Value). truthy (first ys)) h;
  lua_close = λ s w. w;
  lua_gettable = lua_gettable;
  gettable-plain = get_plain;
  gettable-stack = λ m m' w w' n k xs. get_stack m m' w w' n k xs;
  lua_call = lua_call;
  call-stack = call_stack;
  lua_pcall = lua_pcall;
  pcall-stack = pcall_stack;
  pcall-returned = pcall_returned;
  pcall-raised = pcall_raised;
}
