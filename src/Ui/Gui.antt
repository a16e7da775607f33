-- ===== src/Ui/Gui.antt =====
-- kernel/gui.c: windows, widgets, focus and the keys of the desktop. Drawing is not in the model: it changes the
-- screen only. A window is named by its address, 0 is NULL; `unlisted` is what the memory holds at the address of a
-- window that is not in the list, such as one that was freed. `supply` is what the coming calls of kmalloc return.
pub mod Apps
pub mod Focus
pub mod Keys
use trade_kernel.Base.{
  ℕ, zero, suc, ◌+◌, ◌-◌, Bool, true, false, not, ◌&&◌, ◌||◌, List, [], ◌∷◌, ◌++◌, Option, none,
  some, map, if◌then◌else◌, ltb, leb, ◌==◌, length, take, get_or, set, replicate,
}
use trade_kernel.Ui.Gui.Apps.{App, terminal, system_monitor, network, about}

-- widget_type_t
pub data WidgetType : Type 0 where
  widget_button widget_label widget_checkbox : WidgetType

-- widget_t; `text` is `none` where there was no memory for it, `callback` a function's address
pub record Widget : Type 0 where
  pub kind : WidgetType
  pub x : ℕ
  pub y : ℕ
  pub width : ℕ
  pub height : ℕ
  pub text : Option (List ℕ)
  pub active : ℕ
  pub callback : ℕ

-- window_t; the order of the lists is `next`
pub record Window : Type 0 where
  pub addr : ℕ
  pub id : ℕ
  pub x : ℕ
  pub y : ℕ
  pub width : ℕ
  pub height : ℕ
  pub title : List ℕ
  pub visible : Bool
  pub focused : Bool
  pub widgets : List Widget

-- gui_state_t and the other static variables of gui.c
pub record Gui : Type 0 where
  pub windows : List Window
  pub focused_window : ℕ
  pub next_window_id : ℕ
  pub desktop_active : Bool
  pub launcher_open : Bool
  pub launcher_selection : ℕ
  pub app_windows : List ℕ
  pub supply : List ℕ
  pub unlisted : ℕ → Window

unfoldable pub gui_init : Gui → Gui
gui_init s = record s { windows = []; focused_window = 0; next_window_id = 1 }

-- One call of kmalloc; 0 where nothing is left
unfoldable pub take_memory : Gui → ℕ × Gui
take_memory s = elim s.supply [ [] ↦ (0, s) | a ∷ rest ↦ (a, record s { supply = rest }) ]

unfoldable pub gui_create_window : ℕ → ℕ → ℕ → ℕ → List ℕ → Gui → ℕ × Gui
gui_create_window x y width height title s =
    let (a, t) = take_memory s in
    if a == 0 then (0, t) else (
      a,
      record t {
        windows =
            record {
              addr = a;
              id = t.next_window_id;
              x = x;
              y = y;
              width = width;
              height = height;
              title = take 31 title;
              visible = false;
              focused = false;
              widgets = [];
            }
            ∷ t.windows;
        next_window_id = t.next_window_id + 1;
      },
    )

-- A write through the pointer `a`
unfoldable pub update_window : ℕ → (Window → Window) → List Window → List Window
update_window a f ws = map (λ w. if w.addr == a then f w else w) ws

-- The same where the window need not be in the list
abbrev pub write_window : ℕ → (Window → Window) → Gui → Gui
write_window a f s = record s {
  windows = update_window a f s.windows;
  unlisted = λ b. if b == a then f (s.unlisted b) else s.unlisted b;
}

unfoldable pub window_at : ℕ → List Window → Option Window
window_at a [] = none
window_at a (w ∷ ws) = let rest = window_at a ws in if w.addr == a then some w else rest

-- The walk that takes the window out of the list
unfoldable pub unlink_window : ℕ → List Window → List Window
unlink_window a [] = []
unlink_window a (w ∷ ws) = let rest = unlink_window a ws in if w.addr == a then ws else w ∷ rest

-- The window and its widgets are freed. focused_window and app_windows are not looked at.
unfoldable pub gui_destroy_window : ℕ → Gui → Gui
gui_destroy_window a s = if a == 0 then s else record s { windows = unlink_window a s.windows }

-- A window that is not the first goes to the end of the list, also `outside`, which is not in it.
unfoldable pub move_to_end : ℕ → Window → List Window → List Window
move_to_end a outside [] = outside ∷ []
move_to_end a outside (w ∷ ws) =
    let moved : List Window = elim (window_at a ws) [
      | none ↦ (w ∷ ws) ++ (outside ∷ [])
      | some v ↦ (w ∷ unlink_window a ws) ++ (v ∷ [])
    ] in
    if w.addr == a then w ∷ ws else moved

abbrev pub unfocus : Window → Window
unfocus w = record w { focused = false }

abbrev pub focus : Window → Window
focus w = record w { focused = true }

-- The window at an address where the list has none
abbrev pub outsider : ℕ → Gui → Window
outsider a s = record (s.unlisted a) { addr = a }

unfoldable pub gui_focus_window : ℕ → Gui → Gui
gui_focus_window a s = if a == 0 then s else record s {
  windows = move_to_end a (focus (outsider a s)) (update_window a focus (map unfocus s.windows));
  focused_window = a;
}

unfoldable pub gui_show_window : ℕ → Gui → Gui
gui_show_window a s =
    if a == 0 then s else gui_focus_window a (write_window a (λ w. record w { visible = true }) s)

unfoldable pub gui_hide_window : ℕ → Gui → Gui
gui_hide_window a s = if a == 0 then s else write_window a (λ w. record w { visible = false }) s

-- The common part of the three functions that make a widget: two calls of kmalloc, and the head of the list
unfoldable pub create_widget : ℕ → WidgetType → ℕ → ℕ → ℕ → ℕ → List ℕ → ℕ → ℕ → Gui → ℕ × Gui
create_widget window kind x y width height text active callback s =
    let (a, t) = take_memory s in
    let (held, u) = take_memory t in
    let widget : Widget = record {
      kind = kind;
      x = x;
      y = y;
      width = width;
      height = height;
      text = if held == 0 then none else some text;
      active = active;
      callback = callback;
    } in
    if window == 0
    then (0, s)
    else (if a == 0
        then (0, t)
        else (a, write_window window (λ w. record w { widgets = widget ∷ w.widgets }) u))

abbrev pub gui_create_button : ℕ → ℕ → ℕ → ℕ → ℕ → List ℕ → ℕ → Gui → ℕ × Gui
gui_create_button window x y width height text callback s =
    create_widget window widget_button x y width height text 0 callback s

abbrev pub gui_create_label : ℕ → ℕ → ℕ → List ℕ → Gui → ℕ × Gui
gui_create_label window x y text s =
    create_widget window widget_label x y (length text) 1 text 0 0 s

abbrev pub gui_create_checkbox : ℕ → ℕ → ℕ → List ℕ → ℕ → Gui → ℕ × Gui
gui_create_checkbox window x y text checked s =
    create_widget window widget_checkbox x y (length text + 4) 1 text checked 0 s

-- The labels of an application, in column 2 and in the rows 1, 3 and 5
unfoldable pub add_labels : ℕ → ℕ → List (List ℕ) → Gui → Gui
add_labels window row [] s = s
add_labels window row (text ∷ texts) s =
    add_labels window (row + 2) texts (gui_create_label window 2 row text s).1

abbrev pub apps : List App
apps = terminal ∷ system_monitor ∷ network ∷ about ∷ []

-- The window of an application that has none yet
unfoldable pub create_app : ℕ → App → Gui → Gui
create_app index app s =
    let (a, t) = gui_create_window app.x app.y app.width app.height app.title s in
    if a == 0
    then t
    else (let u = add_labels a 1 app.labels t in
        record u { app_windows = set u.app_windows index a })

unfoldable pub gui_open_app : ℕ → Gui → Gui
gui_open_app index s =
    let t =
      if get_or s.app_windows index 0 == 0
      then create_app index (get_or apps index about) s
      else s in
    gui_show_window (get_or t.app_windows index 0) t

unfoldable pub gui_enter_desktop : Gui → Gui
gui_enter_desktop s = record s {
  desktop_active = true;
  launcher_open = true;
  launcher_selection = 0;
}

-- The shell starts a new line as well.
unfoldable pub gui_exit_desktop : Gui → Gui
gui_exit_desktop s = record s { desktop_active = false; launcher_open = false }

abbrev pub open_selected : ℕ → Gui → Gui
open_selected i s =
    let t = gui_open_app i (record s { launcher_selection = i }) in
    record t { launcher_open = false }

-- Up is 72, Down 80, the digits 1 to 4 are 2 to 5, Enter is 28, Space 57; what the desktop does with a key other than
-- F1 (59), F2 (60) and Esc (1)
unfoldable pub launcher_key : ℕ → Gui → Gui
launcher_key scancode s =
    if s.launcher_open && scancode == 72
    then record s { launcher_selection = s.launcher_selection - 1 }
    else (if s.launcher_open && scancode == 80
        then (if ltb s.launcher_selection 3
            then record s { launcher_selection = s.launcher_selection + 1 }
            else s)
        else (if s.launcher_open && leb 2 scancode && leb scancode 5
            then open_selected (scancode - 2) s
            else (if s.launcher_open && scancode == 28
                then open_selected s.launcher_selection s
                else (if scancode == 57
                    then record s { launcher_open = not s.launcher_open }
                    else s))))

-- Whether the key was taken, and the state
unfoldable pub gui_handle_scancode : ℕ → Gui → Bool × Gui
gui_handle_scancode scancode s =
    if scancode == 59
    then (
      true,
      if s.desktop_active
          then record s { launcher_open = not s.launcher_open }
          else gui_enter_desktop s,
    )
    else (if s.desktop_active
        then (
          true,
          if scancode == 60
              then gui_exit_desktop s
              else (if scancode == 1
                  then (if s.launcher_open
                      then record s { launcher_open = false }
                      else gui_exit_desktop s)
                  else launcher_key scancode s),
        )
        else (false, s))
