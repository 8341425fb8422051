-- ===== src/Calculator.antt =====
-- calculater/: four operations on `int`, and the program that reads commands for them.
pub mod Arithmetic
pub mod Input
pub mod Program
mod Tests
