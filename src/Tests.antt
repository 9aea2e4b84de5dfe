-- ===== src/Tests.antt =====
-- Runs at concrete inputs, and the theorems applied to such inputs.
pub mod Sample
mod ParserRuns
mod PolicyRuns
mod RuleRuns
mod EntityRuns
mod RarRuns
mod ValueRuns
mod GcpRuns
mod PimRuns
mod CedarRuns
mod CedarPolicyRuns
mod AvpRuns
mod AzureRuns
