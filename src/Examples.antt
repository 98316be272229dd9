-- ===== src/Examples.antt =====
-- Runs of the code and instances of the theorems, on a little endian machine, with the Internet
-- checksum and a scanner for decimal numbers in place of the kernel's.
mod Machine
mod Streams
mod Calls
mod Media
mod Packets
mod Routes
mod Cascade
mod Commands
mod Files
mod Local
mod Threads
mod Hooks
mod Debug
