-- ===== src/FiveThreads.antt =====
-- thread/five_threads/main.c: five threads print numbers, first from one variable that they share with
-- the loop that starts them, and then each from a variable of its own.
pub mod Defs
pub mod Shared
pub mod Own
mod Tests
