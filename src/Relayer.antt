-- ===== src/Relayer.antt =====
-- relayer/: messages, the dead-letter store, the window of block headers and the relay loop.
pub mod Types
pub mod Backoff
pub mod DeadLetter
pub mod FileCheckpointStore
pub mod Window
pub mod Relay
pub mod Tick
pub mod Wire
pub mod EvmWatcher
pub mod SorobanDelivery
pub mod SorobanWatcher
