-- ===== src/Lua/Laws.antt =====
-- The laws of the interpreter's functions, from a known view to the next.
use irc_core.Base.{
  Bytes, ℕ, suc, ◌≡◌, ◌++◌, ◌∷◌, List, [], take, drop, length, ap, ◌∙◌, refl, ◌-◌, take_of_length,
  drop_of_length, arith,
}
use irc_core.Lua.Value.{Value, userdata, update, set_global, View, Index, at, above}
use irc_core.Lua.Api.{Lua}

module _ {W : Type 0} (L : Lua W) where
  open L use {
    State, view, enter, view-enter, lua_push, view-push, lua_gettop, gettop_lem, lua_pop, view-pop,
    lua_insert, view-insert, lua_setglobal, view-setglobal, lua_remove, view-remove, lua_rawsetp,
    view-rawsetp, lua_rawgetp, view-rawgetp, new_address, lua_newuserdata, view-newuserdata,
    lua_setuservalue, view-setuservalue, lua_getuservalue, view-getuservalue,
  }

  module _ {s : State} {x : View} (e : view s ≡ x) where
    pub at_enter : (xs : List Value) → view (enter xs s) ≡ record x { stack = xs }
    at_enter xs = view-enter xs s ∙ ap (λ (y : View). record y { stack = xs }) e

    pub at_push : (v : Value) → view (lua_push v s) ≡ record x { stack = v ∷ x.stack }
    at_push v = view-push v s ∙ ap (λ (y : View). record y { stack = v ∷ y.stack }) e

    pub at_pop : (n : ℕ) → view (lua_pop n s) ≡ record x { stack = drop n x.stack }
    at_pop n = view-pop n s ∙ ap (λ (y : View). record y { stack = drop n y.stack }) e

    pub at_gettop : lua_gettop s ≡ length x.stack
    at_gettop = gettop_lem s ∙ ap (λ (y : View). length y.stack) e

    pub at_insert :
        (i : Index) {v : Value} {xs : List Value}
        → x.stack ≡ v ∷ xs
        → let k = above i (v ∷ xs) in
          view (lua_insert i s) ≡ record x { stack = take k xs ++ v ∷ drop k xs }
    at_insert i {v} {xs} h =
        let k = above i (v ∷ xs) in
        view-insert i s v xs (ap (λ (y : View). y.stack) e ∙ h)
        ∙ ap (λ (y : View). record y { stack = take k xs ++ v ∷ drop k xs }) e

    -- Under all other values.
    pub at_insert_bottom :
        {v : Value} {xs : List Value}
        → x.stack ≡ v ∷ xs
        → view (lua_insert (at 1) s) ≡ record x { stack = xs ++ v ∷ [] }
    at_insert_bottom {v} {xs} h =
        let k : suc (length xs) - 1 ≡ length xs = omega arith in
        at_insert (at 1) h
        ∙ ap (λ (ys : List Value). record x { stack = ys })
            (rw (k, take_of_length, drop_of_length) refl)

    -- A global variable is set.
    pub at_setglobal :
        (k : Bytes) {v : Value} {xs : List Value}
        → x.stack ≡ v ∷ xs
        → view (lua_setglobal k s) ≡ record x { stack = xs; globals = set_global x.globals k v }
    at_setglobal k {v} {xs} h =
        view-setglobal k s v xs (ap (λ (y : View). y.stack) e ∙ h)
        ∙ ap (λ (y : View). record y { stack = xs; globals = set_global y.globals k v }) e

    pub at_remove :
        (i : Index)
        → let k = above i x.stack in
          view (lua_remove i s) ≡ record x { stack = take k x.stack ++ drop (suc k) x.stack }
    at_remove i =
        view-remove i s
        ∙ ap
            (λ (y : View). record y {
              stack = take (above i y.stack) y.stack ++ drop (suc (above i y.stack)) y.stack;
            })
            e

    pub at_rawsetp :
        (p : ℕ) {v : Value} {xs : List Value}
        → x.stack ≡ v ∷ xs
        → view (lua_rawsetp p s) ≡ record x { stack = xs; registry = update x.registry p v }
    at_rawsetp p {v} {xs} h =
        view-rawsetp p s v xs (ap (λ (y : View). y.stack) e ∙ h)
        ∙ ap (λ (y : View). record y { stack = xs; registry = update y.registry p v }) e

    pub at_rawgetp : (p : ℕ) → view (lua_rawgetp p s) ≡ record x { stack = x.registry p ∷ x.stack }
    at_rawgetp p =
        view-rawgetp p s ∙ ap (λ (y : View). record y { stack = y.registry p ∷ y.stack }) e

    pub at_newuserdata :
        (n : ℕ)
        → view (lua_newuserdata n s) ≡ record x { stack = userdata (new_address s) ∷ x.stack }
    at_newuserdata n =
        view-newuserdata n s
        ∙ ap (λ (y : View). record y { stack = userdata (new_address s) ∷ y.stack }) e

    pub at_setuservalue :
        {v : Value} {a : ℕ} {xs : List Value}
        → x.stack ≡ v ∷ userdata a ∷ xs
        → view (lua_setuservalue s)
          ≡ record x { stack = userdata a ∷ xs; user_values = update x.user_values a v }
    at_setuservalue {v} {a} {xs} h =
        view-setuservalue s v a xs (ap (λ (y : View). y.stack) e ∙ h)
        ∙ ap
            (λ (y : View). record y {
              stack = userdata a ∷ xs;
              user_values = update y.user_values a v;
            })
            e

    pub at_getuservalue :
        {a : ℕ} {xs : List Value}
        → x.stack ≡ userdata a ∷ xs
        → view (lua_getuservalue s) ≡ record x { stack = x.user_values a ∷ userdata a ∷ xs }
    at_getuservalue {a} {xs} h =
        view-getuservalue s a xs (ap (λ (y : View). y.stack) e ∙ h)
        ∙ ap (λ (y : View). record y { stack = y.user_values a ∷ userdata a ∷ xs }) e
