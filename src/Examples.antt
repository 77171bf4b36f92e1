-- ===== src/Examples.antt =====
-- Runs of the definitions on small inputs, and the theorems applied to them.
mod Texts
mod Access
mod Store
mod Objects
mod Join
mod Requests
mod Users
mod Server
mod Clients
mod Joining
mod Routes
mod Tenants
mod Words
mod Finding
