-- ===== src/Archive.antt =====
-- crates/storage/src/repository.rs: the table of candles, and the queries that read.
-- `Database` holds the table of candles beside the other tables, on one connection: no statement
-- on candles stands in an open transaction. A query fails where the engine does, by `fault`.
-- Where SQL leaves the order of rows open, the order is a parameter.
pub mod Readback
pub mod Candles
pub mod Series
pub mod Ranking
pub mod Queries
pub mod Pass
pub mod Invariant
use tenso.Prelude.{
  ℕ, suc, ◌+◌, ◌-◌, ◌%◌, ◌^◌, String, Bool, ◌&&◌, not, List, [], ◌∷◌, if◌then◌else◌, ite, Eq, ltb,
  ℕ_discrete, text_discrete, decide_pair,
}
use tenso.Prelude.Int.{ℤ, pos, negsuc, ltb_ℤ, ℤ_discrete}
use tenso.Floats.{Floats}
use tenso.Ohlcv.{Candle}
use tenso.Storage.{Result, ok, err, engine_error, Conn, BalanceDbRow, as_i64}
use tenso.Pipeline.{BalanceChangeRow}

-- WHERE slot BETWEEN ? AND ?
abbrev pub is_between : ℕ → ℕ → ℤ → Bool
is_between from_slot to_slot slot =
    not (ltb_ℤ slot (as_i64 from_slot)) && not (ltb_ℤ (as_i64 to_slot) slot)

-- row.get::<_, i64>(1)? as u64
abbrev pub i64_as_u64 : ℤ → ℕ
i64_as_u64 (pos n) = n % 2 ^ 64
i64_as_u64 (negsuc n) = 2 ^ 64 - suc (n % 2 ^ 64)

-- A UBIGINT from 2^63 on cannot be read as an `i64`.
unfoldable pub read_balance_row : BalanceDbRow → Result BalanceChangeRow
read_balance_row r =
    if ltb r.pre_amount (2 ^ 63) && ltb r.post_amount (2 ^ 63)
    then ok (record {
      tx_signature = r.tx_signature;
      slot = i64_as_u64 r.slot;
      block_time = r.block_time;
      mint = r.mint;
      pre_amount = r.pre_amount;
      post_amount = r.post_amount;
      decimals = r.decimals % 256;
    })
    else err engine_error

-- The rows of the range, as they are read; the first that cannot be read ends the query.
unfoldable pub read_range : ℕ → ℕ → List BalanceDbRow → Result (List BalanceChangeRow)
read_range from_slot to_slot [] = ok []
read_range from_slot to_slot (r ∷ rows) =
    let rest = read_range from_slot to_slot rows in
    if is_between from_slot to_slot r.slot
    then elim (read_balance_row r) [
      | err e ↦ err e
      | ok b ↦ elim rest [ err e ↦ err e | ok bs ↦ ok (b ∷ bs) ]
    ]
    else rest

abbrev pub series_eq : Eq (String × ℕ)
series_eq = record { dec = λ a b. decide_pair a b (text_discrete a.0 b.0) (ℕ_discrete a.1 b.1) }

abbrev pub pk_eq : Eq ((String × ℕ) × ℤ)
pk_eq = record { dec = λ a b. decide_pair a b (series_eq.dec a.0 b.0) (ℤ_discrete a.1 b.1) }

module _ (f : Floats) where
  -- candles
  pub record CandleDbRow : Type 0 where
    pub mint : String
    pub interval_sec : ℕ
    pub candle : Candle f

  pub record Database : Type 0 where
    pub conn : Conn
    pub candles : List CandleDbRow

  abbrev pub Action : Type 0 → Type 0
  Action A = Database → Result A × Database

  -- The columns that a query selects by, and the primary key.
  abbrev pub series_key : CandleDbRow → String × ℕ
  series_key r = (r.mint, r.interval_sec)

  abbrev pub candle_key : CandleDbRow → (String × ℕ) × ℤ
  candle_key r = (series_key r, r.candle.bucket_start)

  -- INSERT INTO candles .. ON CONFLICT (mint, interval_sec, bucket_start) DO UPDATE
  unfoldable pub put_candle : CandleDbRow → List CandleDbRow → List CandleDbRow
  put_candle new [] = new ∷ []
  put_candle new (r ∷ rows) =
      ite (pk_eq.dec (candle_key r) (candle_key new)) (new ∷ rows) (r ∷ put_candle new rows)

  -- SELECT .. FROM candles WHERE mint = ? AND interval_sec = ?
  unfoldable pub select_candles : String × ℕ → List CandleDbRow → List (Candle f)
  select_candles series [] = []
  select_candles series (r ∷ rows) =
      ite (series_eq.dec (series_key r) series) (r.candle ∷ select_candles series rows)
        (select_candles series rows)

  -- ORDER BY bucket_start ASC: the key of the table leaves no ties.
  unfoldable pub insert_candle : Candle f → List (Candle f) → List (Candle f)
  insert_candle c [] = c ∷ []
  insert_candle c (d ∷ cs) =
      if ltb_ℤ d.bucket_start c.bucket_start then d ∷ insert_candle c cs else c ∷ d ∷ cs

  unfoldable pub sort_candles : List (Candle f) → List (Candle f)
  sort_candles [] = []
  sort_candles (c ∷ cs) = insert_candle c (sort_candles cs)

  module _ (fault : ℕ → Bool) where
    -- A statement counts, whatever comes of it.
    abbrev pub tick : Database → Database
    tick d = record d { conn = record d.conn { clock = d.conn.clock + 1 } }

    unfoldable pub upsert_candles : String → ℕ → List (Candle f) → Action (Unit {0})
    upsert_candles mint interval_sec [] d = (ok tt, d)
    upsert_candles mint interval_sec (c ∷ candles) d =
        if fault d.conn.clock
        then (err engine_error, tick d)
        else upsert_candles mint interval_sec candles (record (tick d) {
          candles =
              put_candle (record { mint = mint; interval_sec = interval_sec; candle = c })
                d.candles;
        })

    -- A query reads, or fails.
    abbrev pub query : {A : Type 0} → (Database → Result A) → Action A
    query read d = (if fault d.conn.clock then err engine_error else read d, tick d)

    unfoldable pub query_ohlcv : String → ℕ → Action (List (Candle f))
    query_ohlcv mint interval_sec =
        query (λ d. ok (sort_candles (select_candles (mint, interval_sec) d.candles)))

    -- ORDER BY slot ASC, tx_signature ASC: `order` is the order of the rows, which leaves ties.
    unfoldable pub query_balance_changes_for_range :
        (order : List BalanceDbRow → List BalanceDbRow) → ℕ → ℕ → Action (List BalanceChangeRow)
    query_balance_changes_for_range order from_slot to_slot =
        query (λ d. read_range from_slot to_slot (order d.conn.tables.token_balance_changes))
