-- ===== src/Client.antt =====
-- src/client/client_admin.cpp and src/main.cpp: the blocks of a client, the buffers that it reads for
-- them, and the calls of its interface that change them.
pub mod Valid
pub mod State
pub mod Add
pub mod Remove
pub mod Calls
pub mod Query
pub mod Extract
pub mod Feeding
pub mod Holders
pub mod Adding
pub mod Safety
pub mod Rounds
pub mod Closing
pub mod Releasing
pub mod Granting
pub mod Complete
pub mod ValidAdds
pub mod ValidCalls
pub mod Reachable
pub mod ValidSteps
pub mod Fed
mod Tests
mod FedTests
