-- ===== src/Archive/Readback.antt =====
-- What is stored is read back: `replace_slots_batch` and then `query_balance_changes_for_range`, of
-- crates/storage/src/repository.rs.
use mathlib.Core.Bool.{Bool-set}
use mathlib.Core.Logic.Or
use mathlib.Core.List.{Perm, filter, Mem, mem-cons, not-mem-nil, mem-cons_self, mem-cons_of_mem}
use mathlib.Core.List.Perm
use mathlib.Core.Path.{subst}
use tenso.Prelude.{
  ℕ, ltb, ◌%◌, ◌^◌, ◌<◌, ◌≡◌, refl, ap, ◌∙◌, String, Bool, true, false, not, ◌&&◌, Option, none,
  List, [], ◌∷◌, map, if_pos, if_neg, if◌then◌else◌, ite, All, Bool-cases, inl, inr, arith,
}
use tenso.Prelude.Int.{ℤ, ltb_ℤ, ℤ_discrete, eq_of_parts}
use tenso.Floats.{Floats}
use tenso.Coalesce.{TokenBalanceRow, coalesce_token_balance_rows}
use tenso.Storage.{
  ok, err, engine_error, BalanceDbRow, SlotBatchRow, has_column_range, as_i64, balance_db_row,
  replace_slots_batch,
}
use tenso.Storage.Replace.{slot_rows}
use tenso.Storage.Batch.{replace_slots_batch-slot_rows}
use tenso.Storage.Invariant.Methods.{ConsistentConn, Preserves-replace_slots_batch}
use tenso.Pipeline.{BalanceChangeRow}
use tenso.Archive.{
  Database, tick, i64_as_u64, read_balance_row, read_range, is_between,
  query_balance_changes_for_range,
}

-- A test passed by all rows is passed by them in any order.
module _ {A : Type 0} (test : A → Bool) where
  mem-passes : {a : A} (xs : List A) → All (λ x. test x ≡ true) xs → Mem a xs → test a ≡ true
  mem-passes [] h m = absurd (not-mem-nil m)
  mem-passes {a} (x ∷ xs) h m =
      Or.elim (Bool-set (test a) true) (mem-cons.0 m) (λ e. rw e h.0) (mem-passes xs h.1)

  passes-mem : (xs : List A) → ((a : A) → Mem a xs → test a ≡ true) → All (λ x. test x ≡ true) xs
  passes-mem [] h = tt
  passes-mem (x ∷ xs) h = (h x mem-cons_self, passes-mem xs (λ a m. h a (mem-cons_of_mem x m)))

  All-Perm :
      (xs ys : List A) → Perm xs ys → All (λ x. test x ≡ true) ys → All (λ x. test x ≡ true) xs
  All-Perm xs ys p h = passes-mem xs (λ a m. mem-passes ys h (Perm.subset p a m))

abbrev read_row : BalanceDbRow → BalanceChangeRow
read_row r = record {
  tx_signature = r.tx_signature;
  slot = i64_as_u64 r.slot;
  block_time = r.block_time;
  mint = r.mint;
  pre_amount = r.pre_amount;
  post_amount = r.post_amount;
  decimals = r.decimals % 256;
}

read_balance_row-ok :
    (r : BalanceDbRow) → has_column_range r ≡ true → read_balance_row r ≡ ok (read_row r)
unfolding read_balance_row
read_balance_row-ok r h =
    in_both (ltb r.pre_amount (2 ^ 63)) (ltb r.post_amount (2 ^ 63)) (ltb r.decimals 128)
      (read_row r) h
  where
    in_both :
        (p q x : Bool) (b : BalanceChangeRow)
        → (p && q && x) ≡ true
        → (if p && q then ok b else err engine_error) ≡ ok b
    in_both true true x b e = refl
    in_both true false x b e = absurd (cc (e))
    in_both false q x b e = absurd (cc (e))

is_between-same : (s : ℤ) (n : ℕ) → is_between n n s ≡ true → s ≡ as_i64 n
is_between-same s n h = same s (as_i64 n) h
  where
    same : (s a : ℤ) → (not (ltb_ℤ s a) && not (ltb_ℤ a s)) ≡ true → s ≡ a
    same s a h = eq_of_parts s a (ground (arith, h))

is_between_self : (s : ℤ) (n : ℕ) → s ≡ as_i64 n → is_between n n s ≡ true
is_between_self s n e = rw e (self (as_i64 n))
  where
    self : (a : ℤ) → (not (ltb_ℤ a a) && not (ltb_ℤ a a)) ≡ true
    self a = ground arith

-- The rows of one slot, read.
read_range-slot_rows :
    (n : ℕ) (rows : List BalanceDbRow)
    → All (λ r. has_column_range r ≡ true) rows
    → read_range n n rows ≡ ok (map read_row (slot_rows (λ r. r.slot) (as_i64 n) rows))
unfolding read_range slot_rows
read_range-slot_rows n [] a = refl
read_range-slot_rows n (r ∷ rows) (h, a) =
    let rest = read_range-slot_rows n rows a in
    elim (ℤ_discrete r.slot (as_i64 n)) [
      | yes p ↦
          rw
            (
              if_pos (ℤ_discrete r.slot (as_i64 n)) p,
              is_between_self r.slot n p,
              read_balance_row-ok r h,
              rest,
              read_range,
            )
            refl
      | no p ↦
          let out : is_between n n r.slot ≡ false = elim (Bool-cases (is_between n n r.slot)) [
            | inl t ↦ absurd (p (is_between-same r.slot n t))
            | inr t ↦ t
          ] in
          rw (if_neg (ℤ_discrete r.slot (as_i64 n)) p, out, read_range) rest
    ]

slot_rows-filter :
    (s : ℤ) (rows : List BalanceDbRow)
    → slot_rows (λ r. r.slot) s rows ≡ filter (λ r. ℤ_discrete r.slot s) rows
unfolding slot_rows filter
slot_rows-filter s [] = refl
slot_rows-filter s (r ∷ rows) =
    ap (ite (ℤ_discrete r.slot s) (r ∷ slot_rows (λ r. r.slot) s rows)) (slot_rows-filter s rows)
    ∙ ap (λ l. ite (ℤ_discrete r.slot s) (r ∷ l) (filter (λ r. ℤ_discrete r.slot s) rows))
        (slot_rows-filter s rows)

slot_rows-Perm :
    (s : ℤ) (xs ys : List BalanceDbRow)
    → Perm xs ys
    → Perm (slot_rows (λ r. r.slot) s xs) (slot_rows (λ r. r.slot) s ys)
slot_rows-Perm s xs ys p =
    rw (slot_rows-filter s xs, slot_rows-filter s ys) (Perm.filter (λ r. ℤ_discrete r.slot s) p)

-- A balance change as it was given, with its decimals as a byte.
abbrev pub read_back : ℕ → Option ℤ → TokenBalanceRow → BalanceChangeRow
read_back slot block_time (sig, mint, pre, post, decimals) = record {
  tx_signature = sig;
  slot = slot;
  block_time = block_time;
  mint = mint;
  pre_amount = pre;
  post_amount = post;
  decimals = decimals % 256;
}

i64_as_u64-as_i64 : (n : ℕ) → n < 2 ^ 64 → i64_as_u64 (as_i64 n) ≡ n
unfolding as_i64
i64_as_u64-as_i64 n h = ground (arith, h)

map-read_back :
    (slot : ℕ) (block_time : Option ℤ) (rows : List TokenBalanceRow)
    → slot < 2 ^ 64
    → map read_row (map (balance_db_row (as_i64 slot) block_time) rows)
      ≡ map (read_back slot block_time) rows
map-read_back slot block_time [] h = refl
map-read_back slot block_time (r ∷ rows) h =
    rw (i64_as_u64-as_i64 slot h)
      (ap (◌∷◌ (read_back slot block_time r)) (map-read_back slot block_time rows h))

module _ (f : Floats) (fault : ℕ → Bool) (to_json : List String → String) where
  -- On consistent tables with no open transaction, let a batch of one slot below 2^64 report
  -- success, with whatever amounts; let the engine not fail at the query that follows, and ORDER BY
  -- only order the rows. Then the query for the slot succeeds, and gives back just the balance
  -- changes of the batch, netted, in some order, each with its slot, block time and amounts as they
  -- were given, and with its decimals as a byte.
  pub query_balance_changes-replace_slots_batch :
      (order : List BalanceDbRow → List BalanceDbRow) (b : SlotBatchRow) (d : Database f)
      → ((rows : List BalanceDbRow) → Perm (order rows) rows)
      → ConsistentConn d.conn
      → d.conn.saved ≡ none
      → b.slot < 2 ^ 64
      → (replace_slots_batch fault to_json (b ∷ []) d.conn).0 ≡ ok tt
      → let c' = (replace_slots_batch fault to_json (b ∷ []) d.conn).1 in
        let d' : Database f = record d { conn = c' } in
        fault c'.clock ≡ false
        → (rows : List BalanceChangeRow) × (query_balance_changes_for_range f fault order b.slot
              b.slot d'
            ≡ (ok rows, tick f fault d'))
          × Perm rows
              (map (read_back b.slot b.block_time) (coalesce_token_balance_rows b.token_changes))
  unfolding query_balance_changes_for_range
  query_balance_changes-replace_slots_batch order b d orders w idle small stored quiet =
      let c' = (replace_slots_batch fault to_json (b ∷ []) d.conn).1 in
      let table = c'.tables.token_balance_changes in
      let w' = (Preserves-replace_slots_batch fault to_json (b ∷ [])).keeps d.conn w in
      let fits = All-Perm has_column_range (order table) table (orders table) w'.0.amounts in
      let read = read_range-slot_rows b.slot (order table) fits in
      let (_, _, kept) = replace_slots_batch-slot_rows fault to_json b d.conn idle stored in
      let back =
        ap (map read_row) kept
        ∙ map-read_back b.slot b.block_time (coalesce_token_balance_rows b.token_changes) small in
      (
        _,
        rw (query_balance_changes_for_range, quiet, read) refl,
        subst (λ l. Perm (map read_row (slot_rows (λ r. r.slot) (as_i64 b.slot) (order table))) l)
            back (Perm.map read_row (slot_rows-Perm (as_i64 b.slot) _ _ (orders table))),
      )
