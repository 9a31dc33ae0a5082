-- ===== src/Tests.antt =====
-- The theorems at concrete inputs, and runs of the model.
mod HashTables
mod Heaps
mod Requests
mod Replies
mod Connections
mod Databases
mod Deadlines
mod Sockets
mod Timers
mod Threads
mod Trees
mod Sets
mod Servers
mod Handlers
mod Sessions
mod Loops
mod Clients
mod Expiry
