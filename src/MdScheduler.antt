-- ===== src/MdScheduler.antt =====
-- lib/md-scheduler.c. The children: one device, the workers that serve it, and what they guarantee.
pub mod Device
pub mod Disks
pub mod Elevator
pub mod Workers
mod Fresh
pub mod Counting
pub mod Orderly
mod Leaving
pub mod Closing
mod Distance
pub mod Draining
