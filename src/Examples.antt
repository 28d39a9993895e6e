-- ===== src/Examples.antt =====
-- Runs of the model on concrete inputs, and the theorems at inputs that meet their hypotheses.
mod Platforms
mod Messages
mod Packets
mod Wrappers
mod Hosts
mod Schedulers
mod Events
mod Contents
mod Threads
mod Chats
mod Benchmarks
mod Echoes
mod Fields
mod Servers
mod Lifetimes
mod Processes
mod Suites
mod Syncs
