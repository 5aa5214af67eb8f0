-- ===== src/Tests.antt =====
-- Tests of the definitions on concrete inputs, and an instance of each theorem.
mod Data
mod Documents
mod Vaults
mod Stores
mod Transfers
mod Activities
mod Polls
mod Updates
mod Configs
mod Frames
mod Terminals
mod Targets
