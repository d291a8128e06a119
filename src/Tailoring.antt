-- ===== src/Tailoring.antt =====
-- Clothes made to measure: what an order of them needs, and how they are worn together.
pub mod Measurements
pub mod Complete
pub mod Layers
pub mod Outfits
pub mod Primary
