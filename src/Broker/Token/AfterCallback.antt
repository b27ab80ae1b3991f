-- ===== src/Broker/Token/AfterCallback.antt =====
-- nexus-broker/pkg/handlers/callback.go: GetToken after the callback of its connection.
