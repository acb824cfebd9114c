-- ===== src/Examples.antt =====
-- Small inputs of the theorems.
mod Replays
mod Merges
mod Pars
mod Streams
mod Scopes
mod Machine
mod Instructions
mod StreamFolds
mod Fails
