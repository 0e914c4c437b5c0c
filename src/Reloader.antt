-- ===== src/Reloader.antt =====
-- The sidecar of cmd/reloader/main.go. What the operating system answers in one round of the loop
-- (the walk over the directory, the two runs of the binary, the clock) is an argument of the round.
pub mod Files
pub mod Check
pub mod Main
pub mod Health
