-- ===== src/EthStorage/Writer/Updated.antt =====
-- The updates of the accounts by `EthStorageWriter.Precommit`.
use state_engine.Prelude.{
  ◌≡◌, ◌≢◌, ◌⊎◌, inl, inr, refl, sym, ap, ◌∙◌, subst, Option, none, some, List, [], ◌∷◌, ◌++◌, map,
  ◌==◌, ==_iff, if◌then◌else◌, ◌>>=◌, >>=-eq-some, Bool-cases,
}
use state_engine.Libs.Cells.{Heap}
use state_engine.Libs.Search.{Member}
use state_engine.EthStorage.Backend.{StorageError, Databases}
use state_engine.EthStorage.Account.{Account}
use state_engine.EthStorage.Account.Update.{Batch, update_account_storage_trie}
use state_engine.EthStorage.World.{World, Ref, store_account}
use state_engine.EthStorage.World.Persist.{to_list}
use state_engine.EthStorage.Writer.{Env, Eth, AccountPair, update_account, update_accounts}

-- The accounts of the pairs.
abbrev pub accounts_of : List AccountPair → List Ref
accounts_of = map (λ p. p.first)

-- No account stands in two pairs.
abbrev pub AreDistinct : List AccountPair → Type 0
AreDistinct [] = Unit
AreDistinct (p ∷ ps) = (¬ Member p.first (accounts_of ps)) × AreDistinct ps

pub empty_left : {A : Type 0} (xs ys : List A) → xs ++ ys ≡ [] → xs ≡ []
empty_left [] ys h = refl
empty_left (x ∷ xs) ys h = cc

empty_right : {A : Type 0} (xs ys : List A) → xs ++ ys ≡ [] → ys ≡ []
empty_right [] ys h = h
empty_right (x ∷ xs) ys h = cc

to_list-nil : {A : Type 0} (o : Option A) → to_list o ≡ [] → o ≡ none
to_list-nil none h = refl
to_list-nil (some x) h = cc

-- A choice by whether a list is empty.
either :
    {A B : Type 0} (xs : List A) (skipped after : Option B) (b : B)
    → elim xs [ [] ↦ skipped | _ ∷ _ ↦ after ] ≡ some b
    → ((xs ≡ []) × (skipped ≡ some b)) ⊎ ((xs ≢ []) × (after ≡ some b))
either [] skipped after b h = inl (refl, h)
either (x ∷ xs) skipped after b h = inr (λ same. cc, h)

pub some-inj : {A : Type 0} {a b : A} → some a ≡ some b → a ≡ b
some-inj h = cc

untouched : {A : Type 0} (q r : Ref) (a old : A) → q ≢ r → (if q == r then a else old) ≡ old
untouched q r a old other = elim (Bool-cases (q == r)) [
  | inl same ↦ absurd (other ((==_iff q r).0 same))
  | inr no_match ↦ rw no_match refl
]

pub Member-of :
    (p : AccountPair) (ps : List AccountPair) → Member p ps → Member p.first (accounts_of ps)
Member-of p [] m = m
Member-of p (q ∷ ps) (inl same) = inl (ap AccountPair.first same)
Member-of p (q ∷ ps) (inr m) = inr (Member-of p ps m)

module _ {V : Type 0} (e : Env V) where
  abbrev pub batch_of : Heap e.cells → AccountPair → Batch V
  batch_of heap p = e.kvs (map heap p.second)

  -- The account is what its update with the batch of the pair makes of it, without an error where
  -- none is reported.
  abbrev pub IsUpdate :
      Heap e.cells → AccountPair → Account e.eth.lib → Account e.eth.lib → Type 0 → Type 0
  IsUpdate heap p before after clean =
      (x : Option StorageError) × (dbs : Databases e.eth.lib) × (final : Databases e.eth.lib)
      × (update_account_storage_trie e.eth.lib e.eth.search e.eth.fields e.eth.encoder before
            (batch_of heap p) dbs
          ≡ some (x, after, final))
      × (clean → x ≡ none)

  -- What the update of the pairs does to a world.
  pub record Effect (heap : Heap e.cells) (ps : List AccountPair) (w w' : World e.eth)
      : Type 0 where
    pub others : (q : Ref) → ¬ Member q (accounts_of ps) → w'.accounts q ≡ w.accounts q
    pub cache : w'.account_cache ≡ w.account_cache
    pub clean : w'.db_err ≡ [] → w.db_err ≡ []
    pub updated :
        (p : AccountPair)
        → Member p ps
        → p.second ≢ []
        → IsUpdate heap p (w.accounts p.first) (w'.accounts p.first) (w'.db_err ≡ [])

  skip :
      (p : AccountPair) (ps : List AccountPair) (h : Eth e) (w : World e.eth)
      → p.second ≡ []
      → Effect h.heap ps h.world w
      → Effect h.heap (p ∷ ps) h.world w
  skip p ps h w nothing_to_do f = record {
    others = λ q out. f.others q (λ m. out (inr m));
    cache = f.cache;
    clean = f.clean;
    updated = λ q m some_there. elim m [
      | inl same ↦ absurd (some_there (ap AccountPair.second same ∙ nothing_to_do))
      | inr later ↦ f.updated q later some_there
    ];
  }

  -- What the update of one account does to a world.
  abbrev One : AccountPair → Eth e → World e.eth → Type 0
  One p h w =
      IsUpdate h.heap p (h.world.accounts p.first) (w.accounts p.first) (w.db_err ≡ [])
      × ((q : Ref) → q ≢ p.first → w.accounts q ≡ h.world.accounts q)
      × (w.account_cache ≡ h.world.account_cache)
      × (w.db_err ≡ [] → h.world.db_err ≡ [])

  update_account-One :
      (p : AccountPair) (h : Eth e) (w : World e.eth) → update_account e p h ≡ some w → One p h w
  unfolding update_account store_account
  update_account-One p h w run =
      let w₀ = h.world in
      let (done, e₁, e₂) =
        >>=-eq-some
          (update_account_storage_trie e.eth.lib e.eth.search e.eth.fields e.eth.encoder
            (w₀.accounts p.first) (batch_of h.heap p) w₀.dbs)
          (λ done. some (record (store_account e.eth p.first done.1 w₀) {
            dbs = done.2;
            db_err = w₀.db_err ++ to_list done.0;
          }))
          w run in
      let self : (if p.first == p.first then done.1 else w₀.accounts p.first) ≡ done.1 =
        rw ((==_iff p.first p.first).1 refl) refl in
      subst (One p h) (some-inj e₂) (
        (
          done.0,
          w₀.dbs,
          done.2,
          e₁ ∙ ap (λ a. some (done.0, a, done.2)) (sym self),
          λ clean. to_list-nil done.0 (empty_right w₀.db_err (to_list done.0) clean),
        ),
        λ q other. untouched q p.first done.1 (w₀.accounts q) other,
        refl,
        empty_left w₀.db_err (to_list done.0),
      )

  next :
      (p : AccountPair) (ps : List AccountPair) (h : Eth e) (v w : World e.eth)
      → ¬ Member p.first (accounts_of ps)
      → One p h v
      → Effect h.heap ps v w
      → Effect h.heap (p ∷ ps) h.world w
  next p ps h v w apart ((x, dbs, final, run, no_error), others, cache, clean) f = record {
    others = λ q out. f.others q (λ m. out (inr m)) ∙ others q (λ same. out (inl same));
    cache = f.cache ∙ cache;
    clean = λ c. clean (f.clean c);
    updated = λ q m some_there. elim m [
      | inl same ↦
          let mine : IsUpdate h.heap p (h.world.accounts p.first) (w.accounts p.first)
              (w.db_err ≡ []) =
            (
              x,
              dbs,
              final,
              run ∙ ap (λ a. some (x, a, final)) (sym (f.others p.first apart)),
              λ c. no_error (f.clean c),
            ) in
          subst
            (λ r. IsUpdate h.heap r (h.world.accounts r.first) (w.accounts r.first) (w.db_err ≡ []))
            (sym same) mine
      | inr later ↦
          let other =
            others q.first (λ same.
              apart (subst (λ r. Member r (accounts_of ps)) same (Member-of q ps later))) in
          subst (λ a. IsUpdate h.heap q a (w.accounts q.first) (w.db_err ≡ [])) other
            (f.updated q later some_there)
    ];
  }

  pub update_accounts-Effect :
      (ps : List AccountPair) (h : Eth e) (w : World e.eth)
      → AreDistinct ps
      → update_accounts e ps h ≡ some w
      → Effect h.heap ps h.world w
  unfolding update_accounts
  update_accounts-Effect [] h w d run = subst (Effect h.heap [] h.world) (some-inj run) (record {
    others = λ q out. refl;
    cache = refl;
    clean = λ c. c;
    updated = λ p m some_there. absurd m;
  })
  update_accounts-Effect (p ∷ ps) h w (apart, d) run =
      elim (either p.second (update_accounts e ps h)
        (update_account e p h >>= λ v. update_accounts e ps (record h { world = v })) w run) [
          | inl (nothing_to_do, rest) ↦
              skip p ps h w nothing_to_do (update_accounts-Effect ps h w d rest)
          | inr (some_there, both) ↦
              let (v, first, rest) =
                >>=-eq-some (update_account e p h)
                  (λ v. update_accounts e ps (record h { world = v })) w both in
              next p ps h v w apart (update_account-One p h v first)
                (update_accounts-Effect ps (record h { world = v }) w d rest)
        ]
