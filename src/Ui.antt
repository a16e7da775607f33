-- ===== src/Ui.antt =====
-- kernel/shell.c and kernel/gui.c: what the user types.
pub mod Shell
pub mod Gui
