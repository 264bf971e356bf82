-- ===== src/Commands.antt =====
-- Commands on their way from the SCADA to Python: src/dnp3/CommandDispatcher.cpp (Dispatcher),
-- src/dnp3/ForwardingCommandHandler.cpp (Handler), and the dispatcher under all interleavings of its
-- threads, in whole blocks (Interleaving) and with the locks that make the blocks (Locks).
pub mod Message
pub mod Dispatcher
pub mod Interleaving
pub mod Locks
pub mod Handler
