-- ===== src/Notify/Shown.antt =====
-- What `notify` of lua-extension/lua-libnotify/lua-libnotify.c shows.
use irc_core.Base.{
  subst, ℕ, zero, suc, ◌<◌, ◌≤◌, ◌≡◌, refl, ap, ◌∙◌, sym, Bool, true, false, Option, none, some,
  List, [], ◌∷◌, map, Bytes, c_string, leb, length, length-map, get_elem?, inl, inr, ◌⊎◌, arith,
}
use irc_core.Lua.Api.{Lua, Outcome, returned}
use irc_core.Lua.Run.{◌>>=◌, and_then, return}
use irc_core.Lua.Auxlib.{Auxlib, Arg, text, given, Raised}
use irc_core.Lua.Arguments.{check_text, length-given}
use irc_core.Notify.{asked, Notifier, Does, succeed, string_or_null, show, notify}

-- What C reads of a text that may be missing.
abbrev pub c_text : Option Bytes → Option Bytes
c_text none = none
c_text (some b) = some (c_string b)

get_elem?-map_text :
    (xs : List Bytes) (i : ℕ)
    → ((length xs ≤ i) × (get_elem? xs i ≡ none))
      ⊎ ((i < length xs)
          × ((b : Bytes) × (get_elem? xs i ≡ some b) × (get_elem? (map text xs) i ≡ some (text b))))
get_elem?-map_text [] i = inl (omega arith, refl)
get_elem?-map_text (x ∷ xs) zero = inr (omega arith, (x, refl, refl))
get_elem?-map_text (x ∷ xs) (suc i) = elim (get_elem?-map_text xs i) [
  | inl (h, e) ↦ inl (omega arith, e)
  | inr (h, r) ↦ inr (omega arith, r)
]

module _ {W : Type 0} (L : Lua W) (X : Auxlib L) (N : Notifier W) where
  open X use {error_lem}
  open N use {notify_notification_new, notify_notification_show, g_object_unref}

  -- A function ends without results, or raises an error where it did not succeed.
  abbrev pub Ends : Bool → W → Outcome L.State W ℕ → Type 0
  Ends true w o = (s : L.State) × (o ≡ returned 0 s w)
  Ends false w o = Raised o w

  -- What becomes of a new notification.
  abbrev pub Shown : Option ℕ × W → Outcome L.State W ℕ → Type 0
  Shown (none, w) o = Raised o w
  Shown (some object, w) o =
      let (success, w') = notify_notification_show object w in
      Ends success (g_object_unref object w') o

  null_lem :
      {B : Type 0} (k : Option Bytes → Does L X N B) (i n : ℕ) (xs : List Bytes) (s : L.State)
      (w : W)
      → given L s ≡ map text xs
      → n ≡ length xs
      → (s' : L.State) × ((string_or_null L X N n (suc i) >>= k) s w
          ≡ k (c_text (get_elem? xs i)) s' w)
        × (given L s' ≡ map text xs)
  unfolding string_or_null
  null_lem k i n xs s w e long = elim (get_elem?-map_text xs i) [
    | inl (h, absent) ↦
        let few : leb (suc i) n ≡ false = ground arith in (s, rw (few, absent) refl, e)
    | inr (h, (b, at_i, text_i)) ↦
        let enough : leb (suc i) n ≡ true = ground arith in
        let (s', r, g) = check_text L X i (λ c. return (c_string c)) s w e text_i in
        (s', rw (enough, at_i) (ap (λ o. and_then (and_then o (λ c. return (some c))) k) r), g)
  ]

  succeed-Ends :
      (message : Bytes) (b : Bool) (s : L.State) (w : W) → Ends b w (succeed L X N message b s w)
  unfolding succeed
  succeed-Ends message true s w = (s, refl)
  succeed-Ends message false s w = error_lem ℕ message s w

  show-Shown : (object : Option ℕ) (s : L.State) (w : W) → Shown (object, w) (show L X N object s w)
  unfolding show
  show-Shown none s w = error_lem ℕ _ s w
  show-Shown (some object) s w =
      let (success, w') = notify_notification_show object w in succeed-Ends _ success s _

  -- The rest of `notify` behind each of its arguments.
  abbrev made : Bytes → Option Bytes → Option Bytes → Does L X N ℕ
  made summary body icon = asked L X N (notify_notification_new summary body icon) >>= show L X N

  abbrev with_icon : ℕ → Bytes → Option Bytes → Does L X N ℕ
  with_icon n summary body = string_or_null L X N n 3 >>= made summary body

  abbrev with_body : ℕ → Bytes → Does L X N ℕ
  with_body n summary = string_or_null L X N n 2 >>= with_icon n summary

  -- `notify` takes strings: a new notification is made of the first, and of the second and the third
  -- where they are given, each up to its first zero byte. It is shown once, and released whether or
  -- not this succeeds; an error is raised where there is no notification, or it is not shown.
  pub notify-Shown :
      (summary : Bytes) (more : List Bytes) (s : L.State) (w : W)
      → given L s ≡ text summary ∷ map text more
      → Shown
          (notify_notification_new
            (c_string summary)
            (c_text (get_elem? more 0))
            (c_text (get_elem? more 1))
            w)
          (notify L X N s w)
  unfolding notify
  notify-Shown summary more s w e =
      let n = L.lua_gettop s in
      let long : n ≡ length (summary ∷ more) =
        length-given L X s
        ∙ ap (λ (xs : List Arg). length xs) e
        ∙ length-map (summary ∷ more) text in
      let k = c_string summary in
      let (s₁, r₁, g₁) = check_text L X 0 (λ c. return (c_string c)) s w e refl in
      let (s₂, r₂, g₂) = null_lem (with_icon n k) 1 n (summary ∷ more) s₁ w g₁ long in
      let body = c_text (get_elem? more 0) in
      let (s₃, r₃, g₃) = null_lem (made k body) 2 n (summary ∷ more) s₂ w g₂ long in
      let (object, w') = notify_notification_new k body (c_text (get_elem? more 1)) w in
      subst (Shown (object, w')) (sym (ap (λ o. and_then o (with_body n)) r₁ ∙ r₂ ∙ r₃))
        (show-Shown object s₃ w')
