-- ===== src/Examples/Answer.antt =====
-- nexus-broker: GetToken after a callback, at a concrete input.
