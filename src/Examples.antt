-- ===== src/Examples.antt =====
-- Runs of the model on small data, and an instance of each theorem that has conditions or
-- arguments, with the functions of Infra/Ascii for those outside the repository.
mod Data
mod Trees
mod Rules
mod Directors
mod Enumerations
mod Insertions
mod Handles
mod Builders
mod Opening
mod Renaming
mod Pools
mod Queues
mod Preparing
