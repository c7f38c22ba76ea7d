-- ===== src/Tests.antt =====
-- Runs of the definitions on small inputs.
mod Instances
mod Bodies
mod Cluster2
mod ClusterRuns
mod ClientRuns
mod RaceRuns
mod ServerRuns
mod CrashRuns
mod NodeRuns
mod PartRuns
mod FailureRuns
mod LoaderRuns
