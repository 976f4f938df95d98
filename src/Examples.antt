-- ===== src/Examples.antt =====
-- Runs of the code on concrete inputs, and the theorems at such inputs.
mod Planning
mod Sealing
mod Deleting
mod Manifests
mod Chains
mod Stopping
mod Pages
mod Headers
mod Publishing
mod Naming
mod Footers
