-- ===== src/Tests.antt =====
-- Runs of the definitions on concrete inputs, and the theorems at such inputs.
mod Elements
mod Headers
mod Node
mod Messages
mod Older
