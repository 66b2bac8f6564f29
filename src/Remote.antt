-- ===== src/Remote.antt =====
-- storage/proxy/remote/server.go: the server that hands out encoded values of a read-only store. The
-- store, the encoder and the form of a request are parameters; what is printed is left out.
use state_engine.Prelude.{
  ℕ, ◌≡◌, ◌∙◌, refl, ap, Option, none, some, List, [], ◌∷◌, map, Bytes, codes, bytes_eq,
  if◌then◌else◌, Option-cases, inl, inr,
}

-- A value that is nil is `none`, and so is an error.
pub record ReadonlyServer (V : Type 0) : Type 0 where
  pub addr : Bytes
  pub data_store : Bytes → Option V × Option ℕ
  pub encoder : Option V → Bytes
  pub decoder : Bytes → Option V × Option ℕ

abbrev pub new_readonly_server :
    {V : Type 0}
    → Bytes
    → (Option V → Bytes)
    → (Bytes → Option V × Option ℕ)
    → (Bytes → Option V × Option ℕ)
    → ReadonlyServer V
new_readonly_server addr encoder decoder data_store = record {
  addr = addr;
  data_store = data_store;
  encoder = encoder;
  decoder = decoder;
}

-- The method and the form of a request, `none` where it does not parse.
pub record Request : Type 0 where
  pub method : Bytes
  pub form : Option (Bytes → Bytes)

module _ {V : Type 0} (server : ReadonlyServer V) where
  unfoldable pub get : Bytes → Bytes × Option ℕ
  get path =
      let got = server.data_store path in
      elim (got.1) [ some e ↦ ([], some e) | none ↦ (server.encoder got.0, none) ]

  -- An entry of the batch, nil where the store has an error.
  unfoldable pub batch_entry : Bytes → Option Bytes
  batch_entry path =
      let got = server.data_store path in
      elim (got.1) [ some e ↦ none | none ↦ some (server.encoder got.0) ]

  -- The error is always nil.
  unfoldable pub get_batch : List Bytes → List (Option Bytes)
  unfolding batch_entry
  get_batch [] = []
  get_batch (path ∷ paths) = batch_entry path ∷ get_batch paths

  -- What is written to the response, if anything is; an error of the store is dropped.
  unfoldable pub receive : Request → Option Bytes
  receive r =
      if bytes_eq r.method (codes "GET")
      then elim r.form [
        | none ↦ none
        | some form_value ↦ elim ((server.data_store (form_value (codes "key"))).0) [
          | none ↦ none
          | some v ↦ some (server.encoder (some v))
        ]
      ]
      else none

  -- `Get` as the entry of a batch: its bytes, and nil where it has an error.
  abbrev as_entry : Bytes × Option ℕ → Option Bytes
  as_entry (b, none) = some b
  as_entry (b, some e) = none

  batch_entry-get : (path : Bytes) → batch_entry path ≡ as_entry (get path)
  unfolding batch_entry get
  batch_entry-get path = elim (Option-cases (server.data_store path).1) [
    | inl e ↦ rw (batch_entry, get, e) refl
    | inr (x, e) ↦ rw (batch_entry, get, e) refl
  ]

  -- A batch has one entry for each path, in their order: what `Get` of the path returns, and nil
  -- where `Get` has an error.
  pub get_batch-get : (paths : List Bytes) → get_batch paths ≡ map (λ p. as_entry (get p)) paths
  unfolding get_batch
  get_batch-get [] = refl
  get_batch-get (path ∷ paths) =
      ap (λ o. o ∷ get_batch paths) (batch_entry-get path)
      ∙ ap (◌∷◌ (as_entry (get path))) (get_batch-get paths)
