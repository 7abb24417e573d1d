-- ===== src/Tui.antt =====
-- src/tui: the terminal interface.
pub mod Inbox
