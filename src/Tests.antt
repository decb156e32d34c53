-- ===== src/Tests.antt =====
-- The memory in which tendrils share a buffer, runs of the model in it, and the theorems at it.
mod Memory
mod Examples
mod Runs
mod Texts
mod Decoding
mod Classifier
mod Reading
mod Programs
mod Decoders
