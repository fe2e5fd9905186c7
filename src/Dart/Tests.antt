-- ===== src/Dart/Tests.antt =====
-- Runs of the model of script/dart.py at concrete inputs, and its theorems applied to them.
mod Units
mod Races
mod Tables
mod Logs
mod Sync
mod Order
mod Calls
