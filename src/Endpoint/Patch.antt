-- ===== src/Endpoint/Patch.antt =====
-- What the program reads of a `merger.Patch`.
use cells_sync.Prelude.{ℕ, String, Option, List}

pub record Patch : Type 0 where
  pub uuid : String
  pub stamp : ℕ  -- GetStamp(), in nanoseconds
  pub size : ℕ  -- Size()
  pub errors : Option (List String)  -- HasErrors(); `none` when it answers false
  pub stats_errors : Option ℕ  -- Stats()["Errors"]["Total"]; `none` when the key is missing
  pub stats_processed : Option ℕ  -- Stats()["Processed"]["Total"]
  pub operations : List ℕ  -- the operations in the order of WalkOperations, by their identity
