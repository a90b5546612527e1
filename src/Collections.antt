-- ===== src/Collections.antt =====
-- JavaScript's Map and Set with text keys, and lists that count, as the SDK and the relayer use them.
pub mod Map
pub mod Set
pub mod Bag
