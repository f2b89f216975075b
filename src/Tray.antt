-- ===== src/Tray.antt =====
-- The package app/tray: the menu in the tray, which is a client of the web socket of the server.
pub mod Client
pub mod Link
pub mod Menu
pub mod Animation
pub mod Loop
pub mod View
