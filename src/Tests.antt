-- ===== src/Tests.antt =====
-- Concrete runs: a `double` that counts, a matrix library that multiplies element by element, and a
-- connection that holds what the robot will send.
mod Script
mod Wire
mod Stream
mod Robot
mod Logger
mod Active
mod Limits
mod Loop
mod Api
mod Devices
mod Frames
mod Text
mod Kinematics
mod Loading
mod Datagrams
