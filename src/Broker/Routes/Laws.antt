-- ===== src/Broker/Routes/Laws.antt =====
-- nexus-broker/cmd/nexus-broker/main.go: what a request without a configured API key can reach.
use nexus_framework.Prelude.{false, ◌≡◌}
use nexus_framework.Broker.Routes.{Served, not_found, refusal, replied, elsewhere, is_protected}

-- The request has not reached a protected handler.
abbrev pub IsKeptOut : Served → Type 0
IsKeptOut not_found = Unit
IsKeptOut (refusal response) = Unit
IsKeptOut (replied reply) = ⊥
IsKeptOut (elsewhere route) = is_protected route ≡ false
