-- ===== src/Tests.antt =====
-- Runs of the models on concrete inputs, and the theorems at inputs that meet their hypotheses.
mod Feeds
mod Streams
mod Udp
mod Congestion
mod Mutables
mod Subscriptions
mod Access
mod Json
mod Nodes
mod Packets
mod Remotes
mod Downloads
