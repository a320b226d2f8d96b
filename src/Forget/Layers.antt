-- ===== src/Forget/Layers.antt =====
-- The layers of the cascade: each `_cascade_…` function of bot/services/forget_cascade.py that has a model.
pub mod Messages
pub mod Questions
pub mod Semantic
pub mod Butler
