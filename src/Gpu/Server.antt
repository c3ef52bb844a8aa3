-- ===== src/Gpu/Server.antt =====
-- The GPU session of src/drivers/gpu/imx8mq/main.cc: a Genode session above, which schedules
-- requests, and a Linux task below, which serves them.
pub mod State
pub mod Task
pub mod Rpc
pub mod Start
pub mod Frame
pub mod Calls
pub mod Handles
pub mod Ids
pub mod Submit
pub mod Life
pub mod Remap
mod Tests
