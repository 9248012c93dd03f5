-- ===== src/Tests.antt =====
-- Runs on a small concrete world: two tables, of which the first is at snapshot 7, and a log on disk.
mod World
mod Engine
mod Logical
mod Mirror
mod Recovery
mod Modify
mod Options
mod Pushdown
mod Schema
mod Convert
mod Walk
