-- ===== src/Ipc.antt =====
-- src/main.cpp, src/ipc.cpp, src/service/engine.cpp and src/client/client_admin.cpp: the messages
-- between the client library and the engine, over a named pipe.
pub mod Args
pub mod Message
pub mod RoundTrip
pub mod Exchange
mod Tests
