-- ===== src/Tests.antt =====
-- Runs of the model on small inputs, and the theorems at inputs where their conditions hold.
mod Pipes
mod Images
mod Objects
mod Mounts
mod Locks
mod Tasks
mod Times
mod Memory
mod Punching
mod Restore
