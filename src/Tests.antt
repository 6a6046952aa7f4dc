-- ===== src/Tests.antt =====
-- Runs of the definitions at concrete inputs, and an instance of each theorem that has hypotheses.
mod Instances
mod Envoy
mod Model
mod Redis
mod Http
mod Correlator
mod Sampling
mod Storage
mod Schema
mod Reads
mod Api
mod Command
mod Anomaly
mod Sorting
mod Flame
mod Compression
mod Ebpf
