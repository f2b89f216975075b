-- ===== src/Control/Http/Patches/Stores.antt =====
-- control/http-handler-patches.go and control/syncer.go: how a request gets the patches of a task, over the
-- bus.
use cells_sync.Prelude.{
  ◌≡◌, refl, ℕ, String, Option, none, some, List, [], ◌∷◌, ◌++◌, arith, if◌then◌else◌, ◌>>=◌,
}
use cells_sync.Endpoint.PatchStore.{Loaded}
use cells_sync.Control.Bus.{publish_store}
use cells_sync.Control.Syncer.{Lib, Syncer, Effect, pub_store, handle_message}
use cells_sync.Control.Http.Patches.{list_patches}

-- What the goroutine of `reqRespStore` gets: a store, as the patches that `Load` sorts, any other value,
-- or 100 ms have passed.
pub data StoreEvent : Type 0 where
  store : List Loaded → StoreEvent
  other : StoreEvent
  timeout : StoreEvent

-- The first of them decides, and in the end the time is over. A value that is no store panics.
unfoldable pub req_resp_store : List StoreEvent → Option (Option (List Loaded))
req_resp_store [] = some none
req_resp_store (store ps ∷ es) = some (some ps)
req_resp_store (other ∷ es) = none
req_resp_store (timeout ∷ es) = some none

-- What the effects of a service publish on the topic of its store.
abbrev pub published : List Loaded → List Effect → List StoreEvent
published stamps [] = []
published stamps (pub_store ∷ es) = store stamps ∷ published stamps es
published stamps (e ∷ es) = published stamps es

-- `listPatches`, with what arrives on the topic of the store.
unfoldable pub request_patches :
    List StoreEvent → String → List ℕ → List ℕ → Option (Option (List (ℕ × Loaded)))
request_patches es uuid offset limit =
    req_resp_store es >>= λ ps. some (list_patches ps uuid offset limit)

-- If the service of the task answers in time, then the request is answered from its patches when it
-- has a store, and else with an error, whatever comes after the answer. If nothing comes in time, it is
-- an error, although the service may answer later.
pub request_patches-handle_message :
    (lib : Lib) (now : ℕ) (s s' : Syncer) (effects : List Effect) (stamps : List Loaded)
    (late : List StoreEvent) (uuid : String) (offset limit : List ℕ)
    → handle_message lib now publish_store s ≡ some (s', effects)
    → (request_patches (published stamps effects ++ (timeout ∷ late)) uuid offset limit
        ≡ some (if s.patch_store then list_patches (some stamps) uuid offset limit else none))
      × (request_patches (timeout ∷ (published stamps effects ++ late)) uuid offset limit
          ≡ some none)
unfolding request_patches req_resp_store handle_message list_patches
request_patches-handle_message lib now s s' effects stamps late uuid offset limit h =
    (ground (arith, h), refl)
