-- ===== src/E2e.antt =====
-- kemi/e2e.py: end-to-end encryption of task payloads, by its pure-Python code.
pub mod Salsa
pub mod Poly
pub mod Curve
pub mod Box
pub mod Lengths
pub mod Sealing
mod Tests
