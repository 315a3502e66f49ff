-- ===== src/Tests.antt =====
-- The theorems at concrete inputs.
pub mod Fixtures
pub mod PaymentExamples
pub mod VerifierExamples
pub mod ScanExamples
pub mod QuotaExamples
pub mod LoginExamples
pub mod CacheExamples
pub mod ConfirmExamples
pub mod TunnelExamples
pub mod ResetExamples
pub mod PairingExamples
pub mod DomainExamples
pub mod PortalExamples
pub mod DesktopExamples
