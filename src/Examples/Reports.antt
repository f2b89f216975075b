-- ===== src/Examples/Reports.antt =====
-- The theorem on the reports of the endpoints at a concrete task.
use cells_sync.Prelude.{◌≡◌, refl, true, none, some, List, [], ◌∷◌}
use cells_sync.Control.State.{
  MemoryStateStore, new_memory_store, update_connection, side_of, simple_uri, on_side,
  both_connected,
}
use cells_sync.Control.State.Connectivity.{Report, connect_all, both_connected-connect_all}
use cells_sync.Examples.Values.{task, parse}

abbrev reports : List Report
reports = (1, true, "fs:///a") ∷ (2, true, "https://cells/b") ∷ []

unfoldable reported : MemoryStateStore
reported = elim (connect_all parse reports (new_memory_store task)) [
  | none ↦ new_memory_store task
  | some m ↦ m
]

reported_lem : connect_all parse reports (new_memory_store task) ≡ some reported
unfolding reported connect_all update_connection side_of simple_uri on_side new_memory_store
reported_lem = refl

both_connected-connect_all_example : both_connected reported ≡ true
unfolding side_of simple_uri new_memory_store
both_connected-connect_all_example =
    both_connected-connect_all parse reports (new_memory_store task) reported reported_lem
