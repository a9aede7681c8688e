-- ===== src/Sessions/Occurrence.antt =====
-- backend/services/session_service.py: the requests to it with what runs in the background.
use title_trust.Prelude.{String, List, [], ◌∷◌}
use title_trust.Agent.{AgentConfig}
use title_trust.Agent.Tools.{Env}
use title_trust.Sessions.{SessionService}
use title_trust.Sessions.Steps.{bootstrap}
use title_trust.Sessions.Access.{Request, perform}

-- What happens to the service: a request, or the bootstrap of a session in the background.
pub data Happening : Type 0 where
  requested : Request → Happening
  bootstrapped : AgentConfig → Env → String → String → Happening

unfoldable pub occur : Happening → SessionService → SessionService
unfolding perform bootstrap
occur (requested r) v = perform r v
occur (bootstrapped c e id user) v = bootstrap c e id user v

unfoldable pub occur_all : List Happening → SessionService → SessionService
unfolding occur
occur_all [] v = v
occur_all (x ∷ xs) v = occur_all xs (occur x v)
