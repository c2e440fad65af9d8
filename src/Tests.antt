-- ===== src/Tests.antt =====
-- Runs of the definitions on concrete inputs, and the theorems at inputs that meet their hypotheses.
mod Data
mod Environment
mod Client
mod Calls
mod Components
mod Streams
mod Slices
mod Pages
mod Connecting
mod Whole
mod Trials
