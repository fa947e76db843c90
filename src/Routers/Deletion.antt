-- ===== src/Routers/Deletion.antt =====
-- `DeleteRouter` of cluster-manager/client/openstack/openstack.go.
use cdm_center.Prelude.{String, Option, none, some, List, [], ◌∷◌, map, String-Eq}
use cdm_center.Errors.{Error}
use cdm_center.Steps.{and_then}
use cdm_center.Cluster.Store.{Result}
use cdm_center.Routers.{RouterResult, Port, Train, remove_interfaces}

unfoldable pub port_ids : List Port → List String
port_ids ports = map (λ (p : Port). p.uuid) ports

module _ {S : Type 0} (train : Train S) where
  -- the routes of a router, if it has any
  unfoldable pub remove_shown_routes : RouterResult → S → S × Option Error
  remove_shown_routes r s = elim r.routes [
    | [] ↦ (s, none)
    | x ∷ xs ↦ train.remove_routes r.uuid (x ∷ xs) s
  ]

  unfoldable pub delete_shown :
      String → List Port → S → Result RouterResult Error → S × Option Error
  unfolding remove_shown_routes and_then remove_interfaces port_ids
  delete_shown uuid ports s (Result.error e) = (s, some e)
  delete_shown uuid ports s (Result.ok r) =
      and_then (remove_shown_routes r s)
        λ t. and_then (remove_interfaces train uuid (port_ids ports) t) (train.delete_router uuid)

  unfoldable pub delete_listed : String → S → Result (List Port) Error → S × Option Error
  unfolding delete_shown
  delete_listed uuid s (Result.error e) = (s, some e)
  delete_listed uuid s (Result.ok ports) = delete_shown uuid ports s (train.show_router uuid s)

  unfoldable pub delete_router : String → S → S × Option Error
  unfolding delete_listed
  delete_router uuid s = delete_listed uuid s (train.list_ports uuid s)
