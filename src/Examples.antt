-- ===== src/Examples.antt =====
-- The theorems of the development at concrete brigades, counters and addresses.
mod Data
mod Counting
mod Storing
mod Merging
mod Messaging
mod Serving
