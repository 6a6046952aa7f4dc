-- ===== src/Sampling.antt =====
-- pkg/sampling/sampler.go: the four samplers.
pub mod Dynamic
pub mod Adaptive
pub mod TraceLevel
pub mod Composite
