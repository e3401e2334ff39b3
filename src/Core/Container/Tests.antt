-- ===== src/Core/Container/Tests.antt =====
-- Runs of container.py.
use neuro_pipeline.Prelude.{
  ℕ, leb, false, ◌≡◌, refl, String, Bool, [], ◌∷◌, none, some, not, str_eq,
}
use neuro_pipeline.Core.Container.{
  Name, store, grpc_server, rag_retriever, cloud_storage, gives, raised, init, get, get_by_name,
  unknown,
}
use neuro_pipeline.Core.Container.Parts.{IsGot, IsWired}
use neuro_pipeline.Core.Container.Wiring.{get_all, get-IsGot, get-get_all, init-get_all-IsWired}

-- All sections but the cloud storage.
abbrev enabled : String → Bool
enabled section = not (str_eq section "cloud_storage")

abbrev never : Name → ℕ → Bool
never k n = false

-- The store's directory cannot be made at first.
abbrev at_first : Name → ℕ → Bool
at_first store n = leb n 1
at_first k n = false

-- The store is made first, then the retriever that uses it.
rag_test :
    (get 4 rag_retriever (init enabled never)).1
    ≡ gives (some (record { ident = 1; parts = some 0 ∷ [] }))
unfolding get init
rag_test = refl

store_test : (get 4 store (init enabled never)).1 ≡ gives (some (record { ident = 0; parts = [] }))
unfolding get init
store_test = refl

cloud_test : (get 4 cloud_storage (init enabled never)).1 ≡ gives none
unfolding get init
cloud_test = refl

raised_test : (get 4 rag_retriever (init enabled at_first)).1 ≡ raised store
unfolding get init
raised_test = refl

again_test :
    (get 4 rag_retriever (get 4 rag_retriever (init enabled at_first)).0).1
    ≡ gives (some (record { ident = 1; parts = some 0 ∷ [] }))
unfolding get init
again_test = refl

unknown_test : (get_by_name "stores" (init enabled never)).1 ≡ unknown
unfolding get_by_name
unknown_test = refl

get-IsGot_example : IsGot grpc_server (init enabled never) (get 4 grpc_server (init enabled never))
get-IsGot_example = get-IsGot grpc_server (init enabled never)

get-get_all_example :
    let first = get 4 store (init enabled never) in
    let later = get_all (grpc_server ∷ rag_retriever ∷ []) first.0 in
    get 4 store later ≡ (later, gives (some (record { ident = 0; parts = [] })))
get-get_all_example =
    get-get_all store (grpc_server ∷ rag_retriever ∷ []) (init enabled never)
      (some (record { ident = 0; parts = [] })) store_test

init-get_all-IsWired_example :
    IsWired (get_all (rag_retriever ∷ grpc_server ∷ []) (init enabled never))
init-get_all-IsWired_example = init-get_all-IsWired (rag_retriever ∷ grpc_server ∷ []) enabled never
