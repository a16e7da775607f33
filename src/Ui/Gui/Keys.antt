-- ===== src/Ui/Gui/Keys.antt =====
-- kernel/gui.c: sequences of keys on the desktop.
use trade_kernel.Base.{
  ℕ, ◌+◌, ◌-◌, ◌<◌, ◌≡◌, ◌∙◌, refl, inl, inr, Bool, true, false, not, ◌&&◌, ◌||◌, List, [], ◌∷◌,
  if◌then◌else◌, ltb, leb, ◌==◌, get_or, Bool-cases, arith,
}
use trade_kernel.Ui.Gui.Apps.{App, about}
use trade_kernel.Ui.Gui.{
  Gui, WidgetType, apps, take_memory, gui_create_window, create_widget, gui_create_label,
  add_labels, create_app, gui_open_app, gui_show_window, gui_focus_window, open_selected,
  launcher_key, gui_enter_desktop, gui_exit_desktop, gui_handle_scancode,
}

-- What the windows do not touch
pub record KeepsDesktop (s t : Gui) : Type 0 where
  pub active : t.desktop_active ≡ s.desktop_active
  pub selection : t.launcher_selection ≡ s.launcher_selection

same : (s : Gui) → KeepsDesktop s s
same s = record { active = refl; selection = refl }

KeepsDesktop-trans : (s t u : Gui) → KeepsDesktop s t → KeepsDesktop t u → KeepsDesktop s u
KeepsDesktop-trans s t u k l = record {
  active = l.active ∙ k.active;
  selection = l.selection ∙ k.selection;
}

if-KeepsDesktop :
    (b : Bool) (s t u : Gui)
    → KeepsDesktop s t
    → KeepsDesktop s u
    → KeepsDesktop s (if b then t else u)
if-KeepsDesktop true s t u k l = k
if-KeepsDesktop false s t u k l = l

take_memory-KeepsDesktop : (s : Gui) → KeepsDesktop s (take_memory s).1
unfolding take_memory
take_memory-KeepsDesktop s =
    elim s.supply
      as (λ l.
        KeepsDesktop s
          (elim l as (λ x. ℕ × Gui) [
            | [] ↦ (0, s)
            | a ∷ rest ↦ (a, record s { supply = rest })
          ]).1) [ [] ↦ same s | a ∷ rest ↦ record { active = refl; selection = refl } ]

gui_create_window-KeepsDesktop :
    (x y width height : ℕ) (title : List ℕ) (s : Gui)
    → KeepsDesktop s (gui_create_window x y width height title s).1
unfolding gui_create_window
gui_create_window-KeepsDesktop x y width height title s =
    let k = take_memory-KeepsDesktop s in
    elim (Bool-cases ((take_memory s).0 == 0)) [
      | inl e ↦ rw e k
      | inr e ↦ rw e (record { active = k.active; selection = k.selection })
    ]

create_widget-KeepsDesktop :
    (window : ℕ) (kind : WidgetType) (x y width height : ℕ) (text : List ℕ) (active callback : ℕ)
    (s : Gui)
    → KeepsDesktop s (create_widget window kind x y width height text active callback s).1
unfolding create_widget
create_widget-KeepsDesktop window kind x y width height text active callback s =
    let k = take_memory-KeepsDesktop s in
    let l =
      KeepsDesktop-trans s (take_memory s).1 (take_memory (take_memory s).1).1 k
        (take_memory-KeepsDesktop (take_memory s).1) in
    elim (Bool-cases (window == 0)) [
      | inl e ↦ rw e (same s)
      | inr e ↦ elim (Bool-cases ((take_memory s).0 == 0)) [
        | inl f ↦ rw (e, f) k
        | inr f ↦ rw (e, f) (record { active = l.active; selection = l.selection })
      ]
    ]

add_labels-KeepsDesktop :
    (window row : ℕ) (texts : List (List ℕ)) (s : Gui)
    → KeepsDesktop s (add_labels window row texts s)
unfolding add_labels
add_labels-KeepsDesktop window row [] s = same s
add_labels-KeepsDesktop window row (text ∷ texts) s =
    let t = (gui_create_label window 2 row text s).1 in
    KeepsDesktop-trans s t (add_labels window (row + 2) texts t)
      (create_widget-KeepsDesktop window _ 2 row _ 1 text 0 0 s)
      (add_labels-KeepsDesktop window (row + 2) texts t)

create_app-KeepsDesktop :
    (index : ℕ) (app : App) (s : Gui) → KeepsDesktop s (create_app index app s)
unfolding create_app
create_app-KeepsDesktop index app s =
    let made = gui_create_window app.x app.y app.width app.height app.title s in
    let k = gui_create_window-KeepsDesktop app.x app.y app.width app.height app.title s in
    let l =
      KeepsDesktop-trans s made.1 (add_labels made.0 1 app.labels made.1) k
        (add_labels-KeepsDesktop made.0 1 app.labels made.1) in
    elim (Bool-cases (made.0 == 0)) [
      | inl e ↦ rw e k
      | inr e ↦ rw e (record { active = l.active; selection = l.selection })
    ]

gui_show_window-KeepsDesktop : (a : ℕ) (s : Gui) → KeepsDesktop s (gui_show_window a s)
unfolding gui_show_window gui_focus_window
gui_show_window-KeepsDesktop a s = elim (Bool-cases (a == 0)) [
  | inl e ↦ rw e (same s)
  | inr e ↦ rw e (record { active = refl; selection = refl })
]

gui_open_app-KeepsDesktop : (index : ℕ) (s : Gui) → KeepsDesktop s (gui_open_app index s)
unfolding gui_open_app
gui_open_app-KeepsDesktop index s =
    let t =
      if get_or s.app_windows index 0 == 0
      then create_app index (get_or apps index about) s
      else s in
    KeepsDesktop-trans s t (gui_show_window (get_or t.app_windows index 0) t)
      (if-KeepsDesktop (get_or s.app_windows index 0 == 0) s
        (create_app index (get_or apps index about) s) s
        (create_app-KeepsDesktop index (get_or apps index about) s) (same s))
      (gui_show_window-KeepsDesktop (get_or t.app_windows index 0) t)

-- The selection is one of the four applications, and the launcher is closed while the shell has the keyboard.
pub record IsDesktop (s : Gui) : Type 0 where
  pub selection : s.launcher_selection < 4
  pub closed : (not s.desktop_active && s.launcher_open) ≡ false

open_selected-IsDesktop : (i : ℕ) (s : Gui) → i < 4 → IsDesktop (open_selected i s)
open_selected-IsDesktop i s h =
    let k = gui_open_app-KeepsDesktop i (record s { launcher_selection = i }) in
    let e = k.selection in record { selection = omega arith; closed = ground arith }

launcher_key-IsDesktop :
    (scancode : ℕ) (s : Gui)
    → s.desktop_active ≡ true
    → IsDesktop s
    → IsDesktop (launcher_key scancode s)
unfolding launcher_key
launcher_key-IsDesktop scancode s on h =
    let l = h.selection in
    let c = h.closed in
    elim (Bool-cases (s.launcher_open && scancode == 72)) [
      | inl e ↦ rw e (record { selection = omega arith; closed = c })
      | inr e ↦ elim (Bool-cases (s.launcher_open && scancode == 80)) [
        | inl f ↦ elim (Bool-cases (ltb s.launcher_selection 3)) [
          | inl g ↦ rw (e, f, g) (record { selection = ground arith; closed = c })
          | inr g ↦ rw (e, f, g) h
        ]
        | inr f ↦ elim (Bool-cases (s.launcher_open && leb 2 scancode && leb scancode 5)) [
          | inl g ↦ rw (e, f, g) (open_selected-IsDesktop (scancode - 2) s (ground arith))
          | inr g ↦ elim (Bool-cases (s.launcher_open && scancode == 28)) [
            | inl i ↦ rw (e, f, g, i) (open_selected-IsDesktop s.launcher_selection s l)
            | inr i ↦ elim (Bool-cases (scancode == 57)) [
              | inl j ↦ rw (e, f, g, i, j) (record { selection = l; closed = ground arith })
              | inr j ↦ rw (e, f, g, i, j) h
            ]
          ]
        ]
      ]
    ]

key-IsDesktop :
    (scancode : ℕ) (s : Gui) → IsDesktop s → IsDesktop (gui_handle_scancode scancode s).1
unfolding gui_handle_scancode gui_enter_desktop gui_exit_desktop
key-IsDesktop scancode s h =
    let l = h.selection in
    elim (Bool-cases (scancode == 59)) [
      | inl e ↦ elim (Bool-cases s.desktop_active) [
        | inl a ↦ simp (e, a) (record { selection = l; closed = ground arith })
        | inr a ↦ simp (e, a) (record { selection = omega arith; closed = refl })
      ]
      | inr e ↦ elim (Bool-cases s.desktop_active) [
        | inr a ↦ simp (e, a) h
        | inl a ↦ elim (Bool-cases (scancode == 60)) [
          | inl f ↦ simp (e, a, f) (record { selection = l; closed = refl })
          | inr f ↦ elim (Bool-cases (scancode == 1)) [
            | inl g ↦ elim (Bool-cases s.launcher_open) [
              | inl o ↦ simp (e, a, f, g, o) (record { selection = l; closed = ground arith })
              | inr o ↦ simp (e, a, f, g, o) (record { selection = l; closed = refl })
            ]
            | inr g ↦ simp (e, a, f, g) (launcher_key-IsDesktop scancode s a h)
          ]
        ]
      ]
    ]

key_taken :
    (scancode : ℕ) (s : Gui)
    → ((gui_handle_scancode scancode s).0 ≡ (scancode == 59 || s.desktop_active))
      × ((gui_handle_scancode scancode s).0 ≡ false → (gui_handle_scancode scancode s).1 ≡ s)
unfolding gui_handle_scancode
key_taken scancode s = elim (Bool-cases (scancode == 59)) [
  | inl e ↦ simp e (refl, λ x. absurd (cc))
  | inr e ↦ elim (Bool-cases s.desktop_active) [
    | inl a ↦ simp (e, a) (refl, λ x. absurd (cc))
    | inr a ↦ simp (e, a) (refl, λ x. refl)
  ]
]

-- Every key leaves a selection among the four applications, and the launcher closed where the shell has the keyboard. A
-- key is taken from the shell exactly when it is F1 or the desktop is active, and one that is not taken changes
-- nothing.
pub gui_handle_scancode-IsDesktop :
    (scancode : ℕ) (s : Gui)
    → IsDesktop s
    → let (taken, t) = gui_handle_scancode scancode s in
      IsDesktop t × (taken ≡ (scancode == 59 || s.desktop_active)) × (taken ≡ false → t ≡ s)
gui_handle_scancode-IsDesktop scancode s h =
    let (p, q) = key_taken scancode s in (key-IsDesktop scancode s h, p, q)
