-- ===== src/Tests.antt =====
-- The theorems applied at concrete inputs, and runs of the code.
mod Floats
mod Access
mod Stores
mod Tenants
mod Personal
mod Approvals
mod Answers
mod Work
mod Papers
mod Logged
mod Indexed
mod Retried
mod Removed
mod Asked
mod Searched
mod Judged
mod Members
mod Logins
