-- ===== src/Tests.antt =====
-- Runs of the modelled code at concrete inputs, and instances of the theorems.
mod Data
mod Agents
mod Trades
mod Terminal
mod Contracts
mod Dedupe
mod Laws
mod Encoding
mod Conveyor
mod Lands
mod Orgs
