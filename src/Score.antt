-- ===== src/Score.antt =====
-- The settlement of a round: `calcRound` of server/processes/lobby/water13.cpp.
pub mod Players
pub mod Compare
pub mod Pay
pub mod Rows
pub mod Shots
pub mod Total
pub mod Loops
pub mod Round
mod Tests
pub mod NoShots
