-- ===== src/Connections.antt =====
-- master/websocket.go: the loops that hold a websocket connection from its upgrade to its end. What
-- the connection delivers, and which writes to it fail, are arguments; deadlines are not modelled,
-- since a missed one is a failing read or write.
pub mod Writer
pub mod Order
pub mod Browser
pub mod Relayed
pub mod Sessions
pub mod Reading
pub mod Closed
mod Tests
