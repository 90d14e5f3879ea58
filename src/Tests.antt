-- ===== src/Tests.antt =====
-- Concrete runs of the modelled code, and the theorems at inputs that meet their hypotheses.
mod Fixtures
mod Runtime
mod Status
mod Queue
mod Messages
mod Management
mod Codecs
mod Durable
mod Workflow
mod Serialize
mod Migrate
mod Runner
mod Client
mod Config
mod Admin
mod Scheduler
