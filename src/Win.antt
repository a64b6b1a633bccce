-- ===== src/Win.antt =====
-- WinRingBind, the bind on Windows registered I/O of bind_windows.go.
pub mod Ring
pub mod Api
pub mod Queue
pub mod Open
pub mod Bind
pub mod Choice
