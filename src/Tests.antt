-- ===== src/Tests.antt =====
-- The properties at concrete inputs, and runs of the code that its own tests make.
mod Accounts
mod Orders
mod Conversations
mod Network
mod Payments
mod Visitors
