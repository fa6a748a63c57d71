-- ===== src/Tests.antt =====
-- Runs at concrete inputs, and the theorems that have hypotheses applied where these hold.
mod Wire
mod Auth
mod Frames
mod Ukg
mod Ingest
mod Agent
mod Connect
mod Client
mod Mock
mod Semantic
mod Enrich
mod Routes
