-- ===== src/Examples.antt =====
-- Runs of the program's parts on small concrete inputs, at which the theorems are applied.
mod Circuits
mod Wallet
mod Messages
mod Channels
mod Closes
mod Packages
