-- ===== src/Tests.antt =====
-- Concrete inputs for the theorems.
mod Rings
mod Pools
mod Estimators
mod Bitmaps
mod Buckets
mod Calendar
mod Halves
mod Wheels
mod Module
mod Generators
mod Flows
mod Classes
mod Heaps
