-- ===== src/Examples.antt =====
-- Concrete inputs: an instance of the JSON calls, states, and the properties applied to them.
pub mod PlainJson
pub mod States
mod Streamer
mod Camera
mod Updates
mod Forerunners
mod Sharing
mod Runs
mod Pipeline
mod Tremor
mod Demo
mod Walks
mod Recorder
mod Page
