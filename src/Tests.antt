-- ===== src/Tests.antt =====
-- Runs of the program's functions on concrete inputs.
mod Sample
mod Frames
mod Queues
mod Paras
mod Handlers
mod Alerts
mod Links
mod Networks
mod Cameras
mod Clients
mod Systems
mod Starts
