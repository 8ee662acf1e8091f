-- ===== src/Tests.antt =====
-- Concrete inputs, and each theorem applied to them.
mod Fixtures
mod DecideTests
mod AgentTests
mod PlannerTests
mod ContainerTests
mod RunTests
mod TaskTests
mod SearchTests
mod FilesTests
mod ProcessTests
mod RuntimeTests
mod CliTests
mod DatabaseTests
