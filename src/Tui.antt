-- ===== src/Tui.antt =====
-- internal/tui: the terminal interface, as far as it is not drawing.
pub mod Keys
pub mod Editor
pub mod Window
pub mod App
