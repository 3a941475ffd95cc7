-- ===== src/Cli/Retransmit/Nack.antt =====
-- Which chunks a NACK_RANGE packet queues.
