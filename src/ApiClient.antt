-- ===== src/ApiClient.antt =====
-- src/api-client.cpp and src/api-client.hpp: class SRCLinkApiClient.
pub mod Uplink
pub mod State
pub mod Calls
pub mod Resources
pub mod Messages
pub mod Removals
pub mod Replies
pub mod Downlinks
pub mod Events
pub mod Tables
pub mod Catalog
pub mod Quiet
pub mod MessageRule
pub mod Stored
pub mod Runs
pub mod Terminated
pub mod Refusals
pub mod Reconnected
pub mod LicenseChanges
pub mod PrivateIp
pub mod Ports
