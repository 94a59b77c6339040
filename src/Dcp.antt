-- ===== src/Dcp.antt =====
-- The exchange of DRC XML documents with dcpd: src/dcp_transaction.* and src/dcp_transaction_queue.*.
pub mod Transaction
pub mod Ascii
pub mod Queue
