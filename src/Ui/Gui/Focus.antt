-- ===== src/Ui/Gui/Focus.antt =====
-- kernel/gui.c: gui_focus_window and the windows of the list.
use trade_kernel.Base.{
  ℕ, ◌≡◌, ◌≢◌, ◌∙◌, refl, sym, ap, ap₂, subst, inl, inr, true, false, List, [], ◌∷◌, ◌++◌, Option,
  none, some, map, if◌then◌else◌, ◌==◌, ==-refl, ne→==, ==→eq, Bool-cases, Option-cases, arith,
}
use mathlib.Core.Option as Option
use trade_kernel.Ui.Gui.{
  Window, Gui, update_window, window_at, unlink_window, move_to_end, unfocus, focus, outsider,
  gui_focus_window,
}

-- No window of the list has this address
abbrev pub IsFree : ℕ → List Window → Type 0
IsFree a [] = Unit
IsFree a (w ∷ ws) = (w.addr ≢ a) × IsFree a ws

abbrev pub AreDistinct : List Window → Type 0
AreDistinct [] = Unit
AreDistinct (w ∷ ws) = IsFree w.addr ws × AreDistinct ws

window_at-IsFree : (a : ℕ) (ws : List Window) → IsFree a ws → window_at a ws ≡ none
unfolding window_at
window_at-IsFree a [] h = refl
window_at-IsFree a (w ∷ ws) (ne, h) = rw (ne→== w.addr a ne) (window_at-IsFree a ws h)

-- A look-up in a list with a window behind it
abbrev pub orelse : Option Window → Option Window → Option Window
orelse none o = o
orelse (some w) o = some w

window_at-append :
    (b : ℕ) (ws : List Window) (v : Window)
    → window_at b (ws ++ (v ∷ [])) ≡ orelse (window_at b ws) (if v.addr == b then some v else none)
unfolding window_at
window_at-append b [] v = refl
window_at-append b (w ∷ ws) v = elim (Bool-cases (w.addr == b)) [
  | inl e ↦ rw e refl
  | inr e ↦ rw e (window_at-append b ws v)
]

window_at-unlink_ne :
    (a b : ℕ) (ws : List Window) → b ≢ a → window_at b (unlink_window a ws) ≡ window_at b ws
unfolding window_at unlink_window
window_at-unlink_ne a b [] ne = refl
window_at-unlink_ne a b (w ∷ ws) ne = elim (Bool-cases (w.addr == a)) [
  | inl e ↦ let n : (w.addr == b) ≡ false = ground arith in rw (e, n) refl
  | inr e ↦ elim (Bool-cases (w.addr == b)) [
    | inl f ↦ rw (e, f) refl
    | inr f ↦ rw (e, f) (window_at-unlink_ne a b ws ne)
  ]
]

window_at-unlink_self :
    (a : ℕ) (ws : List Window) → AreDistinct ws → window_at a (unlink_window a ws) ≡ none
unfolding window_at unlink_window
window_at-unlink_self a [] d = refl
window_at-unlink_self a (w ∷ ws) (f, d) = elim (Bool-cases (w.addr == a)) [
  | inl e ↦
      let q : w.addr ≡ a = ==→eq w.addr a e in
      rw e (window_at-IsFree a ws (subst (λ x. IsFree x ws) q f))
  | inr e ↦ rw (e, e) (window_at-unlink_self a ws d)
]

window_at_addr : (a : ℕ) (ws : List Window) (v : Window) → window_at a ws ≡ some v → v.addr ≡ a
unfolding window_at
window_at_addr a [] v e = absurd (cc)
window_at_addr a (w ∷ ws) v e = elim (Bool-cases (w.addr == a)) [
  | inl f ↦ ground arith
  | inr f ↦ window_at_addr a ws v (rw f at e)
]

orelse-none : (o : Option Window) → orelse o none ≡ o
orelse-none none = refl
orelse-none (some w) = refl

-- The window that is moved is looked up among the others and behind them.
moved :
    (a b : ℕ) (ws : List Window) (v : Window)
    → AreDistinct ws
    → window_at a ws ≡ some v
    → window_at b (unlink_window a ws ++ (v ∷ [])) ≡ window_at b ws
moved a b ws v d e =
    let q = window_at_addr a ws v e in
    window_at-append b (unlink_window a ws) v ∙ elim (Bool-cases (b == a)) [
      | inl f ↦
          let r : b ≡ a = ==→eq b a f in
          let m : (v.addr == a) ≡ true = ap (λ x. x == a) q ∙ ==-refl a in
          rw (r, window_at-unlink_self a ws d, m, e) refl
      | inr f ↦
          let n : (v.addr == b) ≡ false = ground arith in
          rw (window_at-unlink_ne a b ws (λ x. ground arith), n) (orelse-none (window_at b ws))
    ]

-- Where the list has the window `a`, nothing is looked up behind it.
listed :
    (a b : ℕ) (ws : List Window) (v out : Window)
    → window_at a ws ≡ some v
    → window_at b ws ≡ orelse (window_at b ws) (if a == b then some out else none)
listed a b ws v out e = elim (Bool-cases (a == b)) [
  | inl t ↦
      let q : window_at b ws ≡ some v = subst (λ x. window_at x ws ≡ some v) (==→eq a b t) e in
      rw q refl
  | inr f ↦ rw f (sym (orelse-none (window_at b ws)))
]

window_at-move_to_end :
    (a b : ℕ) (out : Window) (ws : List Window)
    → out.addr ≡ a
    → AreDistinct ws
    → window_at b (move_to_end a out ws)
      ≡ orelse (window_at b ws) (if a == b then some out else none)
unfolding move_to_end window_at
window_at-move_to_end a b out [] q d = rw q refl
window_at-move_to_end a b out (w ∷ ws) q (f, d) = elim (Bool-cases (w.addr == a)) [
  | inl e ↦
      let here : window_at a (w ∷ ws) ≡ some w = rw e refl in rw e (listed a b (w ∷ ws) w out here)
  | inr e ↦ elim (Option-cases (window_at a ws)) [
    | inl o ↦
        rw (e, o)
          (window_at-append b (w ∷ ws) out
            ∙ ap (λ x. orelse (window_at b (w ∷ ws)) (if x == b then some out else none)) q)
    | inr (v, o) ↦
        let there : window_at a (w ∷ ws) ≡ some v = rw e o in
        let kept : window_at b (w ∷ unlink_window a ws ++ (v ∷ [])) ≡ window_at b (w ∷ ws) =
          rw (moved a b ws v d o) refl in
        rw (e, o) (kept ∙ listed a b (w ∷ ws) v out there)
  ]
]

module _ (f : Window → Window) (keep : (w : Window) → (f w).addr ≡ w.addr) where
  map-IsFree : (a : ℕ) (ws : List Window) → IsFree a ws → IsFree a (map f ws)
  map-IsFree a [] h = h
  map-IsFree a (w ∷ ws) (ne, h) = ((λ e. ne (sym (keep w) ∙ e)), map-IsFree a ws h)

  map-AreDistinct : (ws : List Window) → AreDistinct ws → AreDistinct (map f ws)
  map-AreDistinct [] d = d
  map-AreDistinct (w ∷ ws) (h, d) = (
    subst (λ a. IsFree a (map f ws)) (sym (keep w)) (map-IsFree w.addr ws h),
    map-AreDistinct ws d,
  )

-- Only the window `a` is focused
abbrev pub focus_only : ℕ → Window → Window
focus_only a w = record w { focused = w.addr == a }

set_focus :
    (a : ℕ) (w : Window) → (if w.addr == a then focus (unfocus w) else unfocus w) ≡ focus_only a w
set_focus a w = elim (Bool-cases (w.addr == a)) [ inl e ↦ rw e refl | inr e ↦ rw e refl ]

window_at-map :
    (f : Window → Window) (b : ℕ) (ws : List Window)
    → ((w : Window) → (f w).addr ≡ w.addr)
    → window_at b (map f ws) ≡ Option.map f (window_at b ws)
unfolding window_at
window_at-map f b [] keep = refl
window_at-map f b (w ∷ ws) keep =
    let k : ((f w).addr == b) ≡ (w.addr == b) = ap (λ x. x == b) (keep w) in
    elim (Bool-cases (w.addr == b)) [
      | inl e ↦ rw (k, e) refl
      | inr e ↦ rw (k, e) (window_at-map f b ws keep)
    ]

focused_list :
    (a : ℕ) (ws : List Window) → update_window a focus (map unfocus ws) ≡ map (focus_only a) ws
unfolding update_window
focused_list a [] = refl
focused_list a (w ∷ ws) = ap₂ ◌∷◌ (set_focus a w) (focused_list a ws)

focus_both :
    (a b : ℕ) (o : Option Window) (out : Window)
    → out.addr ≡ a
    → orelse (Option.map (focus_only a) o) (if a == b then some (focus out) else none)
      ≡ Option.map (focus_only a) (orelse o (if a == b then some out else none))
focus_both a b (some w) out q = refl
focus_both a b none out q = elim (Bool-cases (a == b)) [
  | inl t ↦
      let self : (out.addr == a) ≡ true = rw q (==-refl a) in
      rw t (ap (λ x. some (record out { focused = x })) (sym self))
  | inr f ↦ rw f refl
]

-- gui_focus_window of an address that is not NULL: every window of the list is still found under its address, with
-- all it had, and has the focus exactly if it is the given one. A given window that was not in the list is found as
-- well, with the focus, and no other address has a window that had none.
pub window_at-gui_focus_window :
    (a b : ℕ) (s : Gui)
    → a ≢ 0
    → AreDistinct s.windows
    → let t = gui_focus_window a s in
      (window_at b t.windows
        ≡ Option.map
            (focus_only a)
            (orelse (window_at b s.windows) (if a == b then some (outsider a s) else none)))
      × (t.focused_window ≡ a)
unfolding gui_focus_window
window_at-gui_focus_window a b s nz d =
    let windows = map (focus_only a) s.windows in
    let out = outsider a s in
    rw (ne→== a 0 nz, focused_list a s.windows)
      (
        window_at-move_to_end a b (focus out) windows refl
              (map-AreDistinct (focus_only a) (λ w. refl) s.windows d)
            ∙ (ap (λ o. orelse o (if a == b then some (focus out) else none))
                  (window_at-map (focus_only a) b s.windows (λ w. refl))
                ∙ focus_both a b (window_at b s.windows) out refl),
        refl,
      )
