-- ===== src/Ws.antt =====
-- The websocket server of RaspberryPi/src/ws.
pub mod Run
pub mod Queue
pub mod MessageQueue
pub mod Connections
pub mod Message
pub mod Receive
pub mod Lws
pub mod Server
pub mod Callback
pub mod Life
pub mod Startup
pub mod Examples
