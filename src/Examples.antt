-- ===== src/Examples.antt =====
-- Each theorem of the list in Lib.antt at one concrete state.
mod Rooms
mod Nodes
mod Supervisors
mod Connections
mod Clusters
mod Servers
mod Clients
mod WebSockets
mod Registrations
mod Ids
mod Transports
mod Memberships
mod Wires
