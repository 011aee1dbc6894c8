-- ===== src/Tests.antt =====
-- Runs of the model on concrete stores, requests and accounts.
mod Data
mod Writes
mod Reads
mod Accounts
mod Events
mod Histories
mod Announced
mod Session
mod Grpc
mod Etl
mod Backfill
mod Chain
mod Workers
mod Stream
