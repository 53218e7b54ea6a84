-- ===== src/Hitl/Tests.antt =====
-- Runs of the backend on two holds, and the witnesses of its properties.
mod Sample
mod Runs
mod Starting
