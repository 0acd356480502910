-- ===== src/Tests.antt =====
-- Runs of the model on concrete inputs, and an instance of each theorem that has hypotheses.
mod Access
mod Catalogue
mod Export
mod Inventory
mod Recording
mod Run
mod Sessions
mod Spent
mod Keys
mod Edge
mod Standing
mod Model
mod Answer
mod Client
mod Athena
mod Cube
mod Passing
mod Throttling
