-- ===== src/Tenants.antt =====
-- librarian/tenants.py: tenants, their API keys, and the authentication of a request.
pub mod Tables
pub mod Accounts
pub mod Keys
pub mod Requests
pub mod Calls
mod Columns
mod RoundTrip
mod Revocation
mod Examples
