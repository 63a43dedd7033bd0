-- ===== src/Terms/Deadlines.antt =====
-- crates/wallet-core/src/swap_terms.rs: the time that accepted terms leave to each side.
