-- ===== src/Pipeline/Parse.antt =====
-- What the parse stage hands to the store stage.
use mathlib.Core.Path.{subst}
use tenso.Prelude.{
  ℕ, suc, ◌≡◌, refl, sym, ap, ◌∙◌, Bool, true, false, some, List, [], ◌∷◌, ◌++◌, map, length,
  length-map, All, All-append, All-imp, get_elem?, if◌then◌else◌,
}
use tenso.Types.{DecodedTransaction, DecodedBlock, TokenBalanceChange}
use tenso.Contention.Spec.{reference_steps}
use tenso.Contention.Least.{length-reference_steps}
use tenso.Contention.Schedule.{build_schedule-reference_steps}
use tenso.Coalesce.{TokenBalanceRow}
use tenso.Pipeline.{ParsedBlock, parse_block, tx_locks, all_change_rows, change_rows_of}

-- Parsing a block does not panic. Its schedule is the reference schedule of the account locks of
-- its transactions, and has one step for each signature, so no step is lost where the two lists
-- are zipped.
pub parse_block-reference_steps :
    (block : DecodedBlock)
    → (p : ParsedBlock) × (parse_block block ≡ some p)
      × (p.schedule.steps ≡ reference_steps [] (map tx_locks block.transactions))
      × (length p.schedule.steps ≡ length p.signatures)
unfolding parse_block
parse_block-reference_steps block =
    let txs = map tx_locks block.transactions in
    let (r, ran, same) = build_schedule-reference_steps txs in
    rw (parse_block, ran)
      (
        _,
        refl,
        same,
        ap length same
            ∙ length-reference_steps [] txs
            ∙ length-map tx_locks block.transactions
            ∙ sym (length-map (λ t. t.signature) block.transactions),
      )

-- The row comes from a transaction that did not fail.
abbrev pub FromSuccess : List DecodedTransaction → TokenBalanceRow → Type 0
FromSuccess ts row =
    (t : DecodedTransaction) × (i : ℕ) × (get_elem? ts i ≡ some t)
    × (t.failed ≡ false)
    × (row.0 ≡ t.signature)

change_rows_of-All :
    (t : DecodedTransaction)
    → All (λ (row : TokenBalanceRow). row.0 ≡ t.signature) (change_rows_of t)
change_rows_of-All t = go t.token_deltas
  where
    go :
        (ds : List TokenBalanceChange)
        → All
            (λ (row : TokenBalanceRow). row.0 ≡ t.signature)
            (map (λ d. (t.signature, d.mint, d.pre_amount, d.post_amount, d.decimals)) ds)
    go [] = tt
    go (d ∷ ds) = (refl, go ds)

All-unless :
    {A : Type 0} (P : A → Type 0) (skip : Bool) (xs ys : List A)
    → (skip ≡ false → All P xs)
    → All P ys
    → All P (if skip then ys else xs ++ ys)
All-unless P true xs ys h k = k
All-unless P false xs ys h k = All-append P xs ys (h refl) k

all_change_rows-All : (ts : List DecodedTransaction) → All (FromSuccess ts) (all_change_rows ts)
unfolding all_change_rows
all_change_rows-All [] = tt
all_change_rows-All (t ∷ ts) =
    let later =
      All-imp (FromSuccess ts) (FromSuccess (t ∷ ts)) (all_change_rows ts)
        (λ row h. (h.0, suc h.1, h.2, h.3, h.4)) (all_change_rows-All ts) in
    All-unless (FromSuccess (t ∷ ts)) t.failed (change_rows_of t) (all_change_rows ts)
      (λ f.
        All-imp _ _ (change_rows_of t) (λ row same. (t, 0, refl, f, same)) (change_rows_of-All t))
      later

-- Every token change that is stored for the candles comes from a transaction of the block that
-- did not fail.
pub parse_block-FromSuccess :
    (block : DecodedBlock) {p : ParsedBlock}
    → parse_block block ≡ some p
    → All (FromSuccess block.transactions) p.token_changes
unfolding parse_block
parse_block-FromSuccess block {p} h =
    let (r, ran, same) = build_schedule-reference_steps (map tx_locks block.transactions) in
    let parsed = rw (parse_block, ran) at h in
    let rows : all_change_rows block.transactions ≡ p.token_changes = cc (parsed) in
    subst (All (FromSuccess block.transactions)) rows (all_change_rows-All block.transactions)

-- A parsed block keeps its slot.
pub parse_block-slot :
    (block : DecodedBlock) {p : ParsedBlock} → parse_block block ≡ some p → p.slot ≡ block.slot
unfolding parse_block
parse_block-slot block {p} h =
    let (r, ran, same) = build_schedule-reference_steps (map tx_locks block.transactions) in
    let parsed = rw (parse_block, ran) at h in
    let slots : block.slot ≡ p.slot = cc (parsed) in sym slots
