-- ===== src/Tests.antt =====
-- The theorems at concrete inputs.
mod Client
mod Protocol
mod Line
mod Reply
mod Session
mod LinkedList
mod Broker
mod Net
mod Config
mod Log
mod Startup
mod Delivery
mod Topics
mod Hset
mod Foreign
mod Reachable
mod ObjectId
mod Random
mod Whole
