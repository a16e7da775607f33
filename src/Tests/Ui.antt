-- ===== src/Tests/Ui.antt =====
-- kernel/shell.c and kernel/gui.c: a line with a correction, two words, a key and two windows.
use trade_kernel.Base.{
  ℕ, none, some, if◌then◌else◌, ◌≡◌, true, false, List, [], ◌∷◌, refl, arith, ◌||◌, ◌==◌,
}
use mathlib.Core.Option as Option
use trade_kernel.Ui.Shell.{shell_inputs, parse_args}
use trade_kernel.Ui.Shell.Arguments.{AreWords, line_of, parse_args-line_of}
use trade_kernel.Ui.Shell.Editing.{Key, key, typo, shell_inputs-text_of}
use trade_kernel.Ui.Gui.{Gui, Window, outsider, window_at, gui_focus_window, gui_handle_scancode}
use trade_kernel.Ui.Gui.Focus.{orelse, focus_only, window_at-gui_focus_window}
use trade_kernel.Ui.Gui.Keys.{IsDesktop, gui_handle_scancode-IsDesktop}

-- "ls" and "cp", with a "q" that is taken back
abbrev keys : List Key
keys = key 108 ∷ typo 113 ∷ key 115 ∷ []

shell_inputs-text_of_example :
    let (lines, t) = shell_inputs [] (record { buffer = [] }) in
    shell_inputs (108 ∷ 113 ∷ 8 ∷ 115 ∷ 10 ∷ []) (record { buffer = [] })
    ≡ ((108 ∷ 115 ∷ []) ∷ lines, t)
shell_inputs-text_of_example =
    shell_inputs-text_of keys [] [] (omega arith) (omega arith) (omega arith)

abbrev two_words : List (List ℕ)
two_words = (99 ∷ 112 ∷ []) ∷ (97 ∷ []) ∷ []

two_words-AreWords : AreWords two_words
two_words-AreWords = ground arith

parse_args-line_of_example : parse_args (line_of two_words) ≡ two_words
parse_args-line_of_example = parse_args-line_of two_words two_words-AreWords (omega arith)

abbrev window : ℕ → Window
window a = record {
  addr = a;
  id = a;
  x = 0;
  y = 0;
  width = 10;
  height = 5;
  title = [];
  visible = true;
  focused = true;
  widgets = [];
}

abbrev desktop : Gui
desktop = record {
  windows = window 16 ∷ window 32 ∷ window 48 ∷ [];
  focused_window = 16;
  next_window_id = 4;
  desktop_active = true;
  launcher_open = true;
  launcher_selection = 3;
  app_windows = 16 ∷ 32 ∷ 48 ∷ 0 ∷ [];
  supply = 64 ∷ 80 ∷ [];
  unlisted = window;
}

desktop-IsDesktop : IsDesktop desktop
desktop-IsDesktop = record { selection = omega arith; closed = refl }

gui_handle_scancode-IsDesktop_example :
    let (taken, t) = gui_handle_scancode 28 desktop in
    IsDesktop t × (taken ≡ (28 == 59 || true)) × (taken ≡ false → t ≡ desktop)
gui_handle_scancode-IsDesktop_example = gui_handle_scancode-IsDesktop 28 desktop desktop-IsDesktop

window_at-gui_focus_window_example :
    let t = gui_focus_window 32 desktop in
    (window_at 16 t.windows
      ≡ Option.map (focus_only 32) (
          orelse
            (window_at 16 desktop.windows)
            (if 32 == 16 then some (outsider 32 desktop) else none)))
    × (t.focused_window ≡ 32)
window_at-gui_focus_window_example =
    window_at-gui_focus_window 32 16 desktop (omega arith) (ground arith)
