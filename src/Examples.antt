-- ===== src/Examples.antt =====
-- Runs of the code on concrete inputs.
mod OfRing
mod OfAnsi
mod OfEngine
mod OfPaths
mod OfPolicies
mod OfAgent
mod OfSession
mod OfTimeline
mod OfHosts
mod OfDaemon
mod OfTransfer
mod OfUpdates
mod OfManager
