-- ===== src/Tests.antt =====
-- The code and its properties at concrete inputs.
mod Boundary
mod Witnesses
mod Fields
mod Reading
mod Driven
mod Served
