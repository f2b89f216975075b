-- ===== src/Examples/Disks.antt =====
-- The theorems on the state file at concrete stores.
use cells_sync.Prelude.{◌≡◌, refl, some, [], ◌∷◌, arith}
use cells_sync.Control.State.{processing, error, new_memory_store}
use cells_sync.Control.State.File.{FileStateStore, new_file_store, read_last_state}
use cells_sync.Control.State.Disk.{IsDrained, Agrees, update_in_turn, update_in_turn-Agrees}
use cells_sync.Examples.Values.{code, of_int, store}

store-IsDrained : IsDrained store
unfolding store new_file_store
store-IsDrained = ground arith

store-Agrees : Agrees code of_int store
unfolding store new_file_store new_memory_store read_last_state
store-Agrees = (omega arith, refl)

update_in_turn-Agrees_example :
    (g : FileStateStore) × (update_in_turn code of_int (processing ∷ error ∷ []) store ≡ some g)
    × IsDrained g
    × Agrees code of_int g
    × (g.mem.state.status ≡ error)
update_in_turn-Agrees_example =
    update_in_turn-Agrees code of_int (processing ∷ error ∷ []) store
      ((omega arith, refl), ((omega arith, refl), tt)) store-IsDrained store-Agrees
