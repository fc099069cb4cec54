-- ===== src/Tests.antt =====
-- Runs of the modelled code on small inputs, and the theorems at inputs that meet their hypotheses.
mod Hosts
mod OramRuns
mod StorageRuns
mod MaintenanceRuns
mod CounterRuns
mod ListMap
mod TieredRuns
mod LossRuns
mod DirectoryRuns
mod EnclaveRuns
