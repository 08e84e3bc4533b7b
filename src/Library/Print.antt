-- ===== src/Library/Print.antt =====
-- lua-extension/glirc-lib.c: the replacement of `print`. Its buffer is a value here; the places that
-- lauxlib may take for it on the stack, and gives back, are left out.
use irc_core.Base.{
  Bytes, ℕ, zero, suc, ◌<◌, ◌≡◌, refl, ap, ◌∙◌, sym, subst, Bool, true, false, some, List, [], ◌∷◌,
  ◌++◌, append_assoc, ltb, arith, if◌then◌else◌, Option, drop,
}
use irc_core.Client.{Client, normal_message}
use irc_core.Lua.Value.{Value, str, View}
use irc_core.Lua.Api.{Lua, Outcome, returned, raised}
use irc_core.Lua.Run.{and_then, ◌>>=◌, ◌>>◌, return, lua}
use irc_core.Lua.Laws.{at_push, at_pop}
use irc_core.Lua.Auxlib.{Auxlib}
use irc_core.Library.{Code}

abbrev tab : Bytes
tab = 9 ∷ []

-- `luaL_addchar` before all but the first, and `luaL_addvalue`
abbrev pub add_text : ℕ → Bytes → Bytes → Bytes
add_text i b text = (if ltb 1 i then b ++ tab else b) ++ text

module _ (G : Client) (L : Lua G.World) (X : Auxlib L) where
  open G use {World, glirc_print}
  open L use {State, view, lua_gettop, lua_push, lua_pop, lua_tolstring, tolstring_lem, text_of-str}
  open X use {lual_tolstring, tolstring-stack}

  -- The loop, with the number of arguments that are left and the index of the next one.
  unfoldable pub add_arguments : ℕ → ℕ → Bytes → Code G L X Bytes
  add_arguments zero i b = return b
  add_arguments (suc n) i b = do
    text ← lual_tolstring i
    lua (lua_pop 1)
    add_arguments n (suc i) (add_text i b text)

  abbrev pub print_top : Code G L X ℕ
  print_top s w =
      let (msg, s') = lua_tolstring s in returned 0 s' (glirc_print normal_message msg w)

  unfoldable pub print : Code G L X ℕ
  unfolding add_arguments
  print s = (do b ← add_arguments (lua_gettop s) 1 []; lua (lua_push (str b)); print_top) s

  -- The texts of the arguments, each converted behind the one before it.
  pub texts : ℕ → ℕ → Code G L X (List Bytes)
  texts zero i = return []
  texts (suc n) i = do
    text ← lual_tolstring i
    lua (lua_pop 1)
    rest ← texts n (suc i)
    return (text ∷ rest)

  -- The texts with tabs between them.
  pub with_tabs : List Bytes → Bytes
  with_tabs [] = []
  with_tabs (t ∷ []) = t
  with_tabs (t ∷ u ∷ us) = t ++ tab ++ with_tabs (u ∷ us)

  -- What the loop adds to its buffer.
  added : ℕ → Bytes → List Bytes → Bytes
  added i b [] = b
  added i b (t ∷ ts) = added (suc i) (add_text i b t) ts

  tabbed_behind :
      (c : Bool) (b t u : Bytes)
      → (if c then b ++ t ++ tab else b ++ t) ++ u ≡ b ++ ((if c then t ++ tab else t) ++ u)
  tabbed_behind true b t u =
      ap (λ (x : Bytes). x ++ u) (append_assoc b t tab) ∙ append_assoc b (t ++ tab) u
  tabbed_behind false b t u = append_assoc b t u

  added_behind : (i : ℕ) (b t : Bytes) (ts : List Bytes) → added i (b ++ t) ts ≡ b ++ added i t ts
  unfolding added
  added_behind i b t [] = refl
  added_behind i b t (u ∷ us) =
      ap (λ (x : Bytes). added (suc i) x us) (tabbed_behind (ltb 1 i) b t u)
      ∙ added_behind (suc i) b (add_text i t u) us

  -- From the second argument on, all are added alike.
  added_later : (i : ℕ) (b : Bytes) (ts : List Bytes) → 1 < i → added i b ts ≡ added 2 b ts
  unfolding added
  added_later i b [] later = refl
  added_later i b (t ∷ ts) later =
      let with_tab : ltb 1 i ≡ true = ground arith in
      ap (λ (c : Bool). added (suc i) ((if c then b ++ tab else b) ++ t) ts) with_tab
      ∙ added_later (suc i) ((b ++ tab) ++ t) ts (omega arith)
      ∙ sym (added_later 3 ((b ++ tab) ++ t) ts (omega arith))

  added-with_tabs : (ts : List Bytes) → added 1 [] ts ≡ with_tabs ts
  unfolding added with_tabs
  added-with_tabs [] = refl
  added-with_tabs (t ∷ []) = refl
  added-with_tabs (t ∷ u ∷ us) =
      added_later 3 ((t ++ tab) ++ u) us (omega arith)
      ∙ added_behind 2 (t ++ tab) u us
      ∙ ap (λ (x : Bytes). (t ++ tab) ++ x) (added-with_tabs (u ∷ us))

  and_then_assoc :
      {A B C : Type 0} (o : Outcome State World A) (f : A → Code G L X B) (g : B → Code G L X C)
      → and_then (and_then o f) g ≡ and_then o (λ a s w. and_then (f a s w) g)
  and_then_assoc (returned a s w) f g = refl
  and_then_assoc (raised e s w) f g = refl

  and_then_ext :
      {A B : Type 0} (o : Outcome State World A) (f g : A → Code G L X B)
      → ((a : A) (s : State) (w : World) → f a s w ≡ g a s w)
      → and_then o f ≡ and_then o g
  and_then_ext (returned a s w) f g same = same a s w
  and_then_ext (raised e s w) f g same = refl

  add_arguments-texts :
      (n i : ℕ) (b : Bytes) (s : State) (w : World)
      → add_arguments n i b s w ≡ and_then (texts n i s w) (λ ts. return (added i b ts))
  unfolding add_arguments texts added
  add_arguments-texts zero i b s w = refl
  add_arguments-texts (suc n) i b s w =
      let collect : Bytes → Code G L X (List Bytes) =
        λ text. lua (lua_pop 1) >> (texts n (suc i) >>= λ rest. return (text ∷ rest)) in
      let put : List Bytes → Code G L X Bytes = λ ts. return (added i b ts) in
      and_then_ext (lual_tolstring i s w) _ (λ text s w. and_then (collect text s w) put)
        (λ text s w.
          add_arguments-texts n (suc i) (add_text i b text) (lua_pop 1 s) w
          ∙ sym
              (and_then_assoc (texts n (suc i) (lua_pop 1 s) w) (λ rest. return (text ∷ rest)) put))
      ∙ sym (and_then_assoc (lual_tolstring i s w) collect put)

  -- A result leaves these values on the stack.
  abbrev Holds : {A : Type 0} → List Value → Outcome State World A → Type 0
  Holds xs (returned a s w) = (view s).stack ≡ xs
  Holds xs (raised e s w) = Unit {0}

  in_front-Holds :
      (xs : List Value) (text : Bytes) (o : Outcome State World (List Bytes))
      → Holds xs o
      → Holds xs (and_then o (λ rest. return (text ∷ rest)))
  in_front-Holds xs text (returned ts s w) h = h
  in_front-Holds xs text (raised e s w) h = tt

  -- One conversion, and what comes behind it.
  converted-Holds :
      (i : ℕ) (s : State) (w : World) (behind : Code G L X (List Bytes))
      (o : Outcome State World Bytes)
      → lual_tolstring i s w ≡ o
      → ((s' : State) (w' : World) → Holds (view s').stack (behind s' w'))
      → Holds
          (view s).stack
          (and_then o (λ text. lua (lua_pop 1) >> (behind >>= λ rest. return (text ∷ rest))))
  converted-Holds i s w behind (raised e s' w') h hold = tt
  converted-Holds i s w behind (returned text s' w') h hold =
      let popped =
        ap (λ (x : View). x.stack) (at_pop L {s = s'} refl 1)
        ∙ ap (drop 1) (tolstring-stack i s s' w w' text h) in
      in_front-Holds (view s).stack text _ (
        subst (λ (xs : List Value). Holds xs (behind (lua_pop 1 s') w')) popped
          (hold (lua_pop 1 s') w'))

  texts-Holds : (n i : ℕ) (s : State) (w : World) → Holds (view s).stack (texts n i s w)
  unfolding texts
  texts-Holds zero i s w = refl
  texts-Holds (suc n) i s w = converted-Holds i s w (texts n (suc i)) _ refl (texts-Holds n (suc i))

  -- What `print` comes to, by what the conversion of its arguments comes to.
  abbrev pub Prints : List Value → Outcome State World (List Bytes) → Outcome State World ℕ → Type 0
  Prints xs (returned ts s w) o =
      (s' : State) × (v : Value) × ((view s').stack ≡ v ∷ xs)
      × (o ≡ returned 0 s' (glirc_print normal_message (some (with_tabs ts)) w))
  Prints xs (raised e s w) o = o ≡ raised e s w

  finish-Prints :
      (xs : List Value) (c : Outcome State World (List Bytes))
      → Holds xs c
      → Prints xs c (
          and_then
            (and_then c (λ ts. return (added 1 [] ts)))
            (λ b. lua (lua_push (str b)) >> print_top))
  finish-Prints xs (returned ts s w) h =
      let b = added 1 [] ts in
      let put =
        ap (λ (x : View). x.stack) (at_push L {s = s} refl (str b))
        ∙ ap (λ (ys : List Value). str b ∷ ys) h in
      let (v, text, left) = tolstring_lem (lua_push (str b) s) (str b) xs put in
      let s' = (lua_tolstring (lua_push (str b) s)).1 in
      (
        s',
        v,
        ap (λ (x : View). x.stack) left,
        ap (λ (msg : Option Bytes). returned 0 s' (glirc_print normal_message msg w))
            (text ∙ text_of-str b ∙ ap some (added-with_tabs ts)),
      )
  finish-Prints xs (raised e s w) h = refl

  -- `print` converts its arguments one after the other. An error in this is passed on, with nothing
  -- printed; else the texts are printed at once, with tabs between them, and one value is left behind
  -- the arguments.
  pub print-Prints :
      (s : State) (w : World) → Prints (view s).stack (texts (lua_gettop s) 1 s w) (print s w)
  unfolding print
  print-Prints s w =
      subst
        (λ (c : Outcome State World Bytes).
          Prints (view s).stack (texts (lua_gettop s) 1 s w)
            (and_then c (λ b. lua (lua_push (str b)) >> print_top)))
        (sym (add_arguments-texts (lua_gettop s) 1 [] s w))
        (finish-Prints (view s).stack _ (texts-Holds (lua_gettop s) 1 s w))
