-- ===== src/Thread.antt =====
-- lua-extension/glirc-thread.c: a callback is kept as the user value of a userdata block, which the
-- registry holds under the block's own address. The address is the `struct thread_state *`; its
-- field `L` is the one interpreter, the state that the functions work on.
use irc_core.Base.{ℕ, ◌≡◌, ◌≢◌, refl, List, ◌∷◌, ◌==◌, if◌then◌else◌, ap, ◌∙◌}
use irc_core.Lua.Value.{
  Value, nil, userdata, View, update, update_self, update_ne, update-update, below,
}
use irc_core.Lua.Api.{Lua}
use irc_core.Lua.Laws.{
  at_push, at_insert, at_remove, at_rawsetp, at_rawgetp, at_newuserdata, at_setuservalue,
  at_getuservalue,
}

module _ {W : Type 0} (L : Lua W) where
  open L use {
    State, view, lua_push, lua_insert, lua_remove, lua_rawsetp, lua_rawgetp, new_address,
    new_address-ne_userdata, lua_newuserdata, lua_setuservalue, lua_getuservalue,
  }

  pub free_thread_state : ℕ → State → State
  free_thread_state st s = lua_rawsetp st (lua_push nil s)

  pub new_thread_state : ℕ → State → ℕ × State
  new_thread_state n s =
      let st = new_address s in
      (st, lua_rawsetp st (lua_setuservalue (lua_insert (below 2) (lua_newuserdata n s))))

  pub thread_state_value : ℕ → State → State
  thread_state_value st s = lua_remove (below 2) (lua_getuservalue (lua_rawgetp st s))

  -- Freeing a thread state drops it from the registry, and changes nothing else.
  pub free_thread_state_lem :
      (st : ℕ) {s : State} {x : View}
      → view s ≡ x
      → view (free_thread_state st s) ≡ record x { registry = update x.registry st nil }
  unfolding free_thread_state
  free_thread_state_lem st e = at_rawsetp L (at_push L e nil) st refl

  pub new_thread_state_lem :
      (n : ℕ) {s : State} {x : View} {v : Value} {xs : List Value}
      → view s ≡ x
      → x.stack ≡ v ∷ xs
      → let (st, s') = new_thread_state n s in
        view s' ≡ record x {
          stack = xs;
          registry = update x.registry st (userdata st);
          user_values = update x.user_values st v;
        }
  unfolding new_thread_state
  new_thread_state_lem n e h =
      at_rawsetp L (at_setuservalue L (at_insert L (at_newuserdata L e n) (below 2) refl) (rw h)) _
        refl

  pub thread_state_value_lem :
      (st : ℕ) {s : State} {x : View}
      → view s ≡ x
      → x.registry st ≡ userdata st
      → view (thread_state_value st s) ≡ record x { stack = x.user_values st ∷ x.stack }
  unfolding thread_state_value
  thread_state_value_lem st {x} e h =
      at_remove L (at_getuservalue L (at_rawgetp L e st) (ap (λ (v : Value). v ∷ x.stack) h))
        (below 2)

  -- A value put into a new thread state is what the thread state gives back, on the stack that the
  -- value was taken from. Once it is freed the registry is empty at its address, and at every other
  -- address it is as before.
  pub thread_state_round_trip :
      (n : ℕ) {s : State} (v : Value) (xs : List Value)
      → (view s).stack ≡ v ∷ xs
      → let (st, s') = new_thread_state n s in
        let s'' = thread_state_value st s' in
        let freed = free_thread_state st s'' in
        ((view s').stack ≡ xs)
        × ((view s'').stack ≡ v ∷ xs)
        × ((view freed).stack ≡ v ∷ xs)
        × ((p : ℕ) → (view freed).registry p ≡ (if st == p then nil else (view s).registry p))
        × ((t : ℕ) → (view freed).tables t ≡ (view s).tables t)
  unfolding new_thread_state
  thread_state_round_trip n {s} v xs h =
      let st = new_address s in
      let kept = new_thread_state_lem n refl h in
      let given = thread_state_value_lem st kept (update_self (view s).registry st (userdata st)) in
      let freed = free_thread_state_lem st given in
      (
        ap (λ (x : View). x.stack) kept,
        ap (λ (x : View). x.stack) given
            ∙ ap (λ (u : Value). u ∷ xs) (update_self (view s).user_values st v),
        ap (λ (x : View). x.stack) freed
            ∙ ap (λ (u : Value). u ∷ xs) (update_self (view s).user_values st v),
        λ p.
            ap (λ (x : View). x.registry p) freed
            ∙ update-update (view s).registry st (userdata st) nil p,
        λ t. ap (λ (x : View). x.tables t) freed,
      )

  -- A thread state that the registry keeps is not disturbed by a new one: its address is another,
  -- and it gives back the value that it gave before.
  pub thread_state_kept :
      (n a : ℕ) {s : State} (v : Value) (xs : List Value)
      → (view s).stack ≡ v ∷ xs
      → (view s).registry a ≡ userdata a
      → let (st, s') = new_thread_state n s in
        (st ≢ a)
        × ((view (thread_state_value a s')).stack ≡ (view s).user_values a ∷ xs)
        × ((view s').registry a ≡ userdata a)
  unfolding new_thread_state
  thread_state_kept n a {s} v xs h live =
      let st = new_address s in
      let apart = new_address-ne_userdata s a live in
      let kept = new_thread_state_lem n refl h in
      let there = update_ne (view s).registry st (userdata st) apart ∙ live in
      (
        apart,
        ap (λ (x : View). x.stack) (thread_state_value_lem a kept there)
            ∙ ap (λ (u : Value). u ∷ xs) (update_ne (view s).user_values st v apart),
        ap (λ (x : View). x.registry a) kept ∙ there,
      )
