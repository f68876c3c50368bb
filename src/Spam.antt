-- ===== src/Spam.antt =====
-- crates/spammer: the worker that keeps the blocks full of transactions.
pub mod Control
