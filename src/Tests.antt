-- ===== src/Tests.antt =====
-- The theorems at concrete inputs.
mod Sample
mod Store
pub mod Offers
pub mod Clusters
pub mod Cores
pub mod Rounds
pub mod Nodes
pub mod Processes
pub mod Executors
pub mod Ports
pub mod Explorers
pub mod Launches
pub mod Systems
pub mod Starts
