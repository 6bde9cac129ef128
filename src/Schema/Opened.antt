-- ===== src/Schema/Opened.antt =====
-- What an opened database holds.
use tenso.Prelude.{
  ℕ, ◌+◌, ◌≡◌, refl, sym, ap, ◌∙◌, String, Bool, Option, none, some, List, [], ◌∷◌, Bool-cases, inl,
  inr, ◌⊎◌, if_pos, if_neg, text_discrete, text_eq, pair_eq,
}
use tenso.Floats.{Floats}
use tenso.Storage.{ok, err, engine_error}
use tenso.Storage.Runs.{Result-cases}
use tenso.Archive.{Database}
use tenso.Archive.Invariant.{ConsistentDatabase}
use tenso.Schema.{
  create_table, create_index, Ddl, migrations, Catalog, File, apply, execute_batch, run_migrations,
  open_conn, database_of, new_catalog,
}

-- The rows of a table, none if it is not there.
abbrev pub rows_of : {R : Type 0} → Option (List R) → List R
rows_of none = []
rows_of (some rows) = rows

create_table-some :
    {R : Type 0} (table : Option (List R)) → create_table table ≡ some (rows_of table)
create_table-some none = refl
create_table-some (some rows) = refl

create_table_idem :
    {R : Type 0} (table : Option (List R)) → create_table (create_table table) ≡ create_table table
create_table_idem none = refl
create_table_idem (some rows) = refl

HasIndex : String → List String → Type 0
HasIndex name [] = ⊥
HasIndex name (i ∷ indexes) = (i ≡ name) ⊎ HasIndex name indexes

create_index-HasIndex : (name : String) (is : List String) → HasIndex name (create_index name is)
unfolding create_index HasIndex
create_index-HasIndex name [] = inl refl
create_index-HasIndex name (i ∷ is) = elim (text_discrete i name) [
  | yes p ↦ rw (if_pos (text_discrete i name) p) (inl p)
  | no p ↦ rw (if_neg (text_discrete i name) p) (inr (create_index-HasIndex name is))
]

create_index_keeps :
    (n name : String) (is : List String) → HasIndex n is → HasIndex n (create_index name is)
unfolding create_index HasIndex
create_index_keeps n name [] h = elim h [ ]
create_index_keeps n name (i ∷ is) h = elim (text_discrete i name) [
  | yes p ↦ rw (if_pos (text_discrete i name) p) h
  | no p ↦
      rw (if_neg (text_discrete i name) p)
        (elim h [ inl e ↦ inl e | inr h' ↦ inr (create_index_keeps n name is h') ])
]

create_index_same :
    (name : String) (is : List String) → HasIndex name is → create_index name is ≡ is
unfolding create_index HasIndex
create_index_same name [] h = elim h [ ]
create_index_same name (i ∷ is) h = elim (text_discrete i name) [
  | yes p ↦ if_pos (text_discrete i name) p _ _
  | no p ↦
      if_neg (text_discrete i name) p _ _
      ∙ ap (◌∷◌ i) (create_index_same name is (elim h [ inl e ↦ absurd (p e) | inr h' ↦ h' ]))
]

-- The four indexes, in the order of the batch.
abbrev four : List String → List String
four is = create_index "idx_candles_mint_interval" (
    create_index "idx_balance_mint"
      (create_index "idx_tx_slot" (create_index "idx_locks_account" is)))

four_idem : (is : List String) → four (four is) ≡ four is
four_idem is =
    let a = create_index "idx_locks_account" is in
    let b = create_index "idx_tx_slot" a in
    let c = create_index "idx_balance_mint" b in
    let d = create_index "idx_candles_mint_interval" c in
    let has_d = create_index-HasIndex "idx_candles_mint_interval" c in
    let has_c =
      create_index_keeps "idx_balance_mint" "idx_candles_mint_interval" c
        (create_index-HasIndex "idx_balance_mint" b) in
    let has_b = create_index_keeps "idx_tx_slot" "idx_candles_mint_interval" c (
      create_index_keeps "idx_tx_slot" "idx_balance_mint" b
        (create_index-HasIndex "idx_tx_slot" a)) in
    let has_a = create_index_keeps "idx_locks_account" "idx_candles_mint_interval" c (
      create_index_keeps "idx_locks_account" "idx_balance_mint" b (
        create_index_keeps "idx_locks_account" "idx_tx_slot" a
          (create_index-HasIndex "idx_locks_account" is))) in
    ap
      (λ l.
        create_index "idx_candles_mint_interval"
          (create_index "idx_balance_mint" (create_index "idx_tx_slot" l)))
      (create_index_same "idx_locks_account" d has_a)
    ∙ ap (λ l. create_index "idx_candles_mint_interval" (create_index "idx_balance_mint" l))
        (create_index_same "idx_tx_slot" d has_b)
    ∙ ap (create_index "idx_candles_mint_interval") (create_index_same "idx_balance_mint" d has_c)
    ∙ create_index_same "idx_candles_mint_interval" d has_d

module _ (f : Floats) where
  apply_all : List Ddl → Catalog f → Catalog f
  apply_all [] c = c
  apply_all (statement ∷ statements) c = apply_all statements (apply f statement c)

  -- The catalog after the whole batch.
  abbrev pub migrated : Catalog f → Catalog f
  migrated c = record {
    blocks = create_table c.blocks;
    transactions = create_table c.transactions;
    account_locks = create_table c.account_locks;
    token_balance_changes = create_table c.token_balance_changes;
    candles = create_table c.candles;
    ingestion_status = create_table c.ingestion_status;
    indexes = four c.indexes;
  }

  apply_all-migrations : (c : Catalog f) → apply_all migrations c ≡ migrated c
  unfolding apply_all apply
  apply_all-migrations c = refl

  migrated_idem : (c : Catalog f) → migrated (migrated c) ≡ migrated c
  migrated_idem c =
      rw
        (
          create_table_idem c.blocks,
          create_table_idem c.transactions,
          create_table_idem c.account_locks,
          create_table_idem c.token_balance_changes,
          create_table_idem c.candles,
          create_table_idem c.ingestion_status,
          four_idem c.indexes,
        )
        refl

  -- The database of a catalog, with an empty table for each that is not there.
  abbrev pub loaded : Catalog f → ℕ → Database f
  loaded c clock = record {
    conn = record {
      tables = record {
        blocks = rows_of c.blocks;
        transactions = rows_of c.transactions;
        account_locks = rows_of c.account_locks;
        token_balance_changes = rows_of c.token_balance_changes;
        ingestion_status = rows_of c.ingestion_status;
      };
      saved = none;
      clock = clock;
    };
    candles = rows_of c.candles;
  }

  loaded_lem :
      (c : Catalog f) (clock : ℕ)
      → database_of f (record { catalog = migrated c; clock = clock }) ≡ some (loaded c clock)
  unfolding database_of
  loaded_lem c clock =
      rw
        (
          create_table-some c.blocks,
          create_table-some c.transactions,
          create_table-some c.account_locks,
          create_table-some c.token_balance_changes,
          create_table-some c.candles,
          create_table-some c.ingestion_status,
        )
        refl

  module _ (fault : ℕ → Bool) where
    execute_batch-ok :
        (statements : List Ddl) (file : File f)
        → (execute_batch f fault statements file).0 ≡ ok tt
        → (execute_batch f fault statements file).1.catalog ≡ apply_all statements file.catalog
    unfolding execute_batch apply_all
    execute_batch-ok [] file h = refl
    execute_batch-ok (statement ∷ statements) file h = elim (Bool-cases (fault file.clock)) [
      | inl e ↦ absurd (let bad : err engine_error ≡ ok tt = rw (e, execute_batch) at h in cc (bad))
      | inr e ↦
          let next : File f = record {
            catalog = apply f statement file.catalog;
            clock = file.clock + 1;
          } in
          rw (e, execute_batch) (execute_batch-ok statements next (rw (e, execute_batch) at h))
    ]

    open_conn-migrated :
        (file file' : File f)
        → open_conn f fault (ok file) ≡ ok file'
        → file'.catalog ≡ migrated file.catalog
    unfolding open_conn
    open_conn-migrated file file' h = elim (Result-cases (run_migrations f fault file).0) [
      | inr (x, e) ↦ absurd (let bad : err x ≡ ok file' = rw (e, open_conn) at h in cc (bad))
      | inl (u, e) ↦
          let same : ok (run_migrations f fault file).1 ≡ ok file' = rw (e, open_conn) at h in
          let same' : (run_migrations f fault file).1 ≡ file' = cc (same) in
          sym (ap (λ x. x.catalog) same')
          ∙ execute_batch-ok migrations file e
          ∙ apply_all-migrations file.catalog
    ]

    -- Where opening a file succeeds, all six tables are there, each with the rows that it had in
    -- the file, or with none if the file did not have it, and no transaction is open; and opening
    -- the file once more, where that succeeds too, changes neither a table nor an index.
    pub open_conn_lem :
        (file file' : File f)
        → open_conn f fault (ok file) ≡ ok file'
        → (database_of f file' ≡ some (loaded file.catalog file'.clock))
          × ((file'' : File f)
              → open_conn f fault (ok file') ≡ ok file''
              → file''.catalog ≡ file'.catalog)
    open_conn_lem file file' h =
        let same = open_conn-migrated file file' h in
        (
          ap (λ c. database_of f (record { catalog = c; clock = file'.clock })) same
              ∙ loaded_lem file.catalog file'.clock,
          λ file'' h'.
              open_conn-migrated file' file'' h'
              ∙ ap migrated same
              ∙ migrated_idem file.catalog
              ∙ sym same,
        )

    -- A new file that opens holds a consistent database.
    pub new-ConsistentDatabase :
        (clock : ℕ) (file' : File f)
        → open_conn f fault (ok (record { catalog = new_catalog f; clock = clock })) ≡ ok file'
        → (d : Database f) × (database_of f file' ≡ some d) × ConsistentDatabase f d
    new-ConsistentDatabase clock file' h = (
      loaded (new_catalog f) file'.clock,
      (open_conn_lem _ file' h).0,
      (
        (
          record {
            block_keys = tt;
            transaction_keys = tt;
            lock_keys = tt;
            balance_keys = tt;
            status_keys = tt;
            amounts = tt;
          },
          tt,
        ),
        tt,
      ),
    )
