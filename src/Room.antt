-- ===== src/Room.antt =====
-- The rooms of thirteen water: server/processes/lobby/water13.cpp and water13_card.cpp.
pub mod Create
pub mod Enough
pub mod Deal
pub mod Hands
pub mod Banker
pub mod Seats
pub mod OneSeat
pub mod Game
pub mod Settle
pub mod Votes
pub mod QuickStart
pub mod Bring
pub mod Chips
pub mod Renew
pub mod Timer
pub mod Step
pub mod Phase
pub mod Deadline
pub mod Stuck
pub mod Balance
pub mod Taken
pub mod Winners
pub mod Wedge
pub mod Registry
pub mod Open
pub mod Gold
pub mod GoldHands
pub mod GoldPlaces
pub mod GoldRounds
pub mod Opposed
mod Tests
mod Scenarios
mod Tables
mod GoldTests
