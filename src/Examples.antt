-- ===== src/Examples.antt =====
-- The theorems at concrete inputs, with the test data that these take.
mod Breakers
mod Limits
mod Sessions
mod Jobs
mod Access
mod Streams
mod Trails
mod Retries
mod Outages
mod Audits
mod Requests
mod Signatures
mod Exports
mod Services
mod Uploads
mod Secrets
