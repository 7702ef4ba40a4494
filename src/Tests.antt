-- ===== src/Tests.antt =====
-- The development run on concrete data: a small instance of what the wallet uses of nanopyrs, the
-- properties applied to it, and test runs.
mod Toy
mod Frontiers
mod Wallet
mod Client
mod Amount
mod Nodes
mod Payments
mod Commands
mod Storage
