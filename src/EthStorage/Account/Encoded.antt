-- ===== src/EthStorage/Account/Encoded.antt =====
-- The encoded entries of an account's update, and the trie that they are written to.
use state_engine.Prelude.{
  ℕ, ◌≡◌, inl, inr, refl, sym, ap, ap₂, ◌∙◌, Option, none, some, List, [], ◌∷◌, Bytes, bytes_eq,
  bytes_eq_refl, bytes_eq_sound, length, if◌then◌else◌, Bool-cases, ◌>>=◌, arith,
}
use state_engine.Libs.SliceLib.{zip}
use state_engine.Libs.Search.{SearchLib, SearchLaws, Member}
use state_engine.Libs.EthLib.{EthLib, EthLaws, first_error}
use state_engine.Libs.Stores.{last_write}
use state_engine.EthStorage.Backend.{StorageError, library}
use state_engine.EthStorage.Account.{FieldLib, Account, to_storage_key}
use state_engine.EthStorage.Account.Update.{
  Batch, bytes_lt, encode_keys, encode_vals, settled, put_sorted, write_trie,
}
use state_engine.EthStorage.Account.Batches.{Entry, entries, IsAligned}

last_write-all :
    {W : Type 0} (key : Bytes) (w : W) (ws : List (Bytes × W)) (old : Option W)
    → ((u : W) → Member (key, u) ws → u ≡ w)
    → old ≡ some w
    → last_write key ws old ≡ some w
unfolding last_write
last_write-all key w [] old all h = h
last_write-all key w ((j, v) ∷ ws) old all h =
    last_write-all key w ws (if bytes_eq j key then some v else old) (λ u m. all u (inr m))
      (elim (Bool-cases (bytes_eq j key)) [
        | inl same ↦
            let key_is : j ≡ key = bytes_eq_sound j key same in
            rw same (ap some (all v (inl (ap (λ i. (i, v)) (sym key_is)))))
        | inr other ↦ rw other h
      ])

-- Writes that agree on a key leave what they agree on.
last_write-only :
    {W : Type 0} (key : Bytes) (w : W) (ws : List (Bytes × W)) (old : Option W)
    → Member (key, w) ws
    → ((u : W) → Member (key, u) ws → u ≡ w)
    → last_write key ws old ≡ some w
unfolding last_write
last_write-only key w [] old m all = absurd m
last_write-only {W} key w ((j, v) ∷ ws) old (inl eq) all =
    let key_is : key ≡ j = ap (λ (x : Bytes × W). x.0) eq in
    let value_is : w ≡ v = ap (λ (x : Bytes × W). x.1) eq in
    last_write-all key w ws (if bytes_eq j key then some v else old) (λ u m. all u (inr m))
      (rw (key_is, bytes_eq_refl j, value_is) refl)
last_write-only key w ((j, v) ∷ ws) old (inr m) all =
    last_write-only key w ws (if bytes_eq j key then some v else old) m (λ u n. all u (inr n))

some-inj : {a b : Bytes} → some a ≡ some b → a ≡ b
some-inj h = cc

module _ (l : EthLib) {V : Type 0} (encode : Bytes → V → Bytes) where
  -- What the trie holds for a value; a deletion is empty.
  abbrev pub encoded : Bytes → Option V → Bytes
  encoded k none = []
  encoded k (some v) = encode k v

  -- Every key has a storage key: it is not a native key that cannot be decoded.
  abbrev pub AllKeyed : Batch V → Type 0
  AllKeyed b =
      (e : Entry V) → Member e (entries b) → (key : Bytes) × (to_storage_key l e.0 ≡ some key)

  -- An entry after its encoding.
  abbrev IsCode : List Bytes → List (Option V) → Bytes × Bytes → Type 0
  IsCode ks vs c =
      (k : Bytes) × (v : Option V) × Member (k, v) (zip ks vs)
      × (to_storage_key l k ≡ some c.0)
      × (c.1 ≡ encoded k v)

  abbrev Coded : List Bytes → List (Option V) → Type 0
  Coded ks vs =
      (es : List Bytes) × (ws : List Bytes) × (encode_keys l ks ≡ some es)
      × (encode_vals encode ks vs ≡ some ws)
      × ((k : Bytes) (v : Option V) (key : Bytes)
          → Member (k, v) (zip ks vs)
          → to_storage_key l k ≡ some key
          → Member (key, encoded k v) (zip es ws))
      × ((c : Bytes × Bytes) → Member c (zip es ws) → IsCode ks vs c)

  encode_vals-cons :
      (k : Bytes) (ks : List Bytes) (v : Option V) (vs : List (Option V))
      → encode_vals encode (k ∷ ks) (v ∷ vs)
        ≡ (encode_vals encode ks vs >>= λ ws. some (encoded k v ∷ ws))
  unfolding encode_vals
  encode_vals-cons k ks none vs = refl
  encode_vals-cons k ks (some v) vs = refl

  coded-to :
      (k j : Bytes) (v u : Option V) (key c : Bytes) (old : List (Entry V))
      (new : List (Bytes × Bytes))
      → to_storage_key l k ≡ some key
      → to_storage_key l j ≡ some c
      → Member (j, u) ((k, v) ∷ old)
      → (Member (j, u) old → to_storage_key l j ≡ some c → Member (c, encoded j u) new)
      → Member (c, encoded j u) ((key, encoded k v) ∷ new)
  coded-to k j v u key c old new k_is j_is (inr m) f = inr (f m j_is)
  coded-to k j v u key c old new k_is j_is (inl eq) f =
      let same : j ≡ k = ap (λ (x : Entry V). x.0) eq in
      let one : c ≡ key = some-inj (sym j_is ∙ ap (to_storage_key l) same ∙ k_is) in
      inl (ap₂ (λ a b. (a, b)) one (ap (λ (x : Entry V). encoded x.0 x.1) eq))

  coded :
      (ks : List Bytes) (vs : List (Option V))
      → length ks ≡ length vs
      → ((e : Entry V) → Member e (zip ks vs) → (key : Bytes) × (to_storage_key l e.0 ≡ some key))
      → Coded ks vs
  unfolding encode_keys encode_vals
  coded [] [] h keyed = ([], [], refl, refl, λ k v key m. absurd m, λ c m. absurd m)
  coded [] (v ∷ vs) h keyed = absurd (omega arith)
  coded (k ∷ ks) [] h keyed = absurd (omega arith)
  coded (k ∷ ks) (v ∷ vs) h keyed =
      let (es, ws, ek, ev, to, from) = coded ks vs (omega arith) (λ e m. keyed e (inr m)) in
      let (key, is_key) = keyed (k, v) (inl refl) in
      (
        key ∷ es,
        encoded k v ∷ ws,
        rw (is_key, ek) refl,
        encode_vals-cons k ks v vs ∙ ap (λ r. r >>= λ ws. some (encoded k v ∷ ws)) ev,
        λ j u c m c_is. coded-to k j v u key c (zip ks vs) (zip es ws) is_key c_is m (to j u c),
        λ c m. elim m [
          | inl eq ↦ (
            k,
            v,
            inl refl,
            is_key ∙ ap (λ (x : Bytes × Bytes). some x.0) (sym eq),
            ap (λ (x : Bytes × Bytes). x.1) eq,
          )
          | inr later ↦
              let (j, u, member, j_is, value) = from c later in (j, u, inr member, j_is, value)
        ],
      )

  -- Entries with one storage key agree on what the trie is to hold.
  abbrev pub IsOnly : Batch V → Bytes → Bytes → Type 0
  IsOnly b key w =
      (j : Bytes) (u : Option V)
      → Member (j, u) (entries b)
      → to_storage_key l j ≡ some key
      → encoded j u ≡ w

  abbrev pub HoldsBatch : Batch V → l.Trie → Type 0
  HoldsBatch b t =
      (k : Bytes) (v : Option V) (key : Bytes)
      → Member (k, v) (entries b)
      → to_storage_key l k ≡ some key
      → IsOnly b key (encoded k v)
      → (l.get t key).0 ≡ encoded k v

  settled_lem :
      (fe : Option ℕ) (t : l.Trie) (a : Account l)
      → (err : Option StorageError) × (root : Bytes) × (settled l fe t a
          ≡ (err, record a { storage_trie = some t; state = record a.state { root = root } }))
        × (err ≡ none → (fe ≡ none) × (root ≡ l.hash t))
  unfolding settled
  settled_lem none t a = (none, l.hash t, refl, λ h. (refl, refl))
  settled_lem (some x) t a = (some (library x), a.state.root, refl, λ h. absurd cc)

  module _ (s : SearchLib) (sl : SearchLaws s) (el : EthLaws l) (f : FieldLib V) where
    updated-holds :
        (b : Batch V) (es ws : List Bytes) (t : l.Trie)
        → ((k : Bytes) (v : Option V) (key : Bytes)
            → Member (k, v) (entries b)
            → to_storage_key l k ≡ some key
            → Member (key, encoded k v) (zip es ws))
        → ((c : Bytes × Bytes) → Member c (zip es ws) → IsCode b.keys b.vals c)
        → first_error
            (l.parallel_update
              (s.sort_by_1st bytes_lt es ws).0
              (s.sort_by_1st bytes_lt es ws).1
              t).0
          ≡ none
        → HoldsBatch b
            (l.parallel_update
              (s.sort_by_1st bytes_lt es ws).0
              (s.sort_by_1st bytes_lt es ws).1
              t).1
    updated-holds b es ws t to from clean k v key m k_is only =
        let sorted = s.sort_by_1st bytes_lt es ws in
        let found = el.get-parallel_update sorted.0 sorted.1 t key clean in
        let decided =
          last_write-only key (encoded k v) (zip sorted.0 sorted.1) (some (l.get t key).0)
            (sl.sort_by_1st-to bytes_lt es ws (key, encoded k v) (to k v key m k_is))
            (λ u n.
              let (j, x, member, j_is, value) =
                from (key, u) (sl.sort_by_1st-from bytes_lt es ws (key, u) n) in
              value ∙ only j x member j_is) in
        some-inj (found ∙ decided)

    pub write_trie_lem :
        (a : Account l) (b : Batch V) (t : l.Trie)
        → IsAligned b
        → AllKeyed b
        → a.storage_trie ≡ some t
        → (err : Option StorageError) × (after : l.Trie) × (root : Bytes) × (write_trie l s f encode
              a b
            ≡ some (
              err,
              record a { storage_trie = some after; state = record a.state { root = root } },
            ))
          × (err ≡ none → (root ≡ l.hash after) × HoldsBatch b after)
    unfolding write_trie put_sorted
    write_trie_lem a b t aligned keyed has_trie =
        let (es, ws, ek, ev, to, from) = coded b.keys b.vals aligned keyed in
        let sorted = s.sort_by_1st bytes_lt es ws in
        let written = l.parallel_update sorted.0 sorted.1 t in
        let (err, root, eq, clean) = settled_lem (first_error written.0) written.1 a in
        (
          err,
          written.1,
          root,
          rw (ek, ev) (ap (λ o. o >>= λ t. some (put_sorted l sorted a t)) has_trie ∙ ap some eq),
          λ h. ((clean h).1, updated-holds b es ws t to from (clean h).0),
        )
