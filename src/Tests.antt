-- ===== src/Tests.antt =====
-- Runs of the model at concrete inputs, and the theorems at inputs that meet their hypotheses.
mod TermsRuns
mod EdgeRuns
mod WalletRuns
mod SwapRuns
mod LspRuns
mod AccountRuns
mod RematchRuns
mod MessageRuns
mod TowerRuns
