-- ===== src/Services.antt =====
-- dashboard-frontend/frontend/src/store/services/services.Slice.tsx: the services of the board, as
-- state and reducer. The thunks of the file are in Thunks/Services.
use shareframe_board.Common.{
  Bool, true, false, Option, none, some, List, [], ◌∷◌, String, str_eq, if◌then◌else◌,
}
use shareframe_board.Common.Int.{ℤ}
use shareframe_board.Async.{Stage, pending, fulfilled, rejected}

-- `ServiceStatus` of types.services.ts.
pub record ServiceStatus : Type 0 where
  pub id : String
  pub label : String
  pub running : Bool
  pub status : String
  pub uptime_seconds : Option ℤ
  pub pid : Option ℤ

pub record ServicesState : Type 0 where
  pub services : List ServiceStatus
  pub loading : Bool
  pub error : Option String
  pub restarting : Option String

abbrev pub initial_state : ServicesState
initial_state = record { services = []; loading = false; error = none; restarting = none }

-- The actions of a restart carry the service that it was asked for, `action.meta.arg`.
pub data ServicesAction : Type 0 where
  fetch_services : Stage (List ServiceStatus) → ServicesAction
  restart_service : String → Stage String → ServicesAction

unfoldable pub services_reducer : ServicesState → ServicesAction → ServicesState
services_reducer s (fetch_services pending) = record s { loading = true; error = none }
services_reducer s (fetch_services (fulfilled services)) = record s {
  loading = false;
  services = services;
}
services_reducer s (fetch_services (rejected r)) = record s { loading = false; error = r.payload }
services_reducer s (restart_service id pending) = record s { restarting = some id }
services_reducer s (restart_service id (fulfilled _)) = record s { restarting = none }
services_reducer s (restart_service id (rejected r)) = record s { restarting = none }

-- `services.find((s) => s.id === id) ?? null`.
unfoldable pub find_service : String → List ServiceStatus → Option ServiceStatus
find_service id [] = none
find_service id (s ∷ rest) = if str_eq s.id id then some s else find_service id rest

unfoldable pub select_service : String → ServicesState → Option ServiceStatus
select_service id s = find_service id s.services
