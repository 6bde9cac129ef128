-- ===== src/Pipeline/Snapshots.antt =====
-- The snapshots hold the balance rows of each transaction.
use tenso.Prelude.{
  ◌≡◌, refl, sym, ap, ◌∙◌, String, Option, none, some, List, [], ◌∷◌, ◌++◌, ite, if_pos, if_neg,
  text_discrete, text_eq, Option-cases, inl, inr,
}
use mathlib.Core.List.{append_assoc, append-nil}
use tenso.Prelude.Int.{ℤ}
use tenso.Prelude.Maps.{get, insert, get-insert_ne, get-insert_self}
use tenso.Ohlcv.{TokenDelta, TxSnapshot}
use tenso.Pipeline.{BalanceChangeRow, token_delta, snapshot_or, add_delta, group_rows}

-- The deltas of a snapshot, none if there is no snapshot.
abbrev pub deltas_of : Option TxSnapshot → List TokenDelta
deltas_of none = []
deltas_of (some tx) = tx.token_deltas

-- The rows of a signature that carry a block time, in order.
unfoldable pub timed_deltas : String → List BalanceChangeRow → List TokenDelta
timed_deltas sig [] = []
timed_deltas sig (r ∷ rows) = elim r.block_time [
  | none ↦ timed_deltas sig rows
  | some t ↦
      ite (text_discrete r.tx_signature sig) (token_delta r ∷ timed_deltas sig rows)
        (timed_deltas sig rows)
]

deltas_of-snapshot_or :
    (sig : String) (t : ℤ) (o : Option TxSnapshot)
    → (snapshot_or sig t o).token_deltas ≡ deltas_of o
deltas_of-snapshot_or sig t none = refl
deltas_of-snapshot_or sig t (some tx) = refl

added :
    (sig : String) (r : BalanceChangeRow) (t : ℤ) (m : List (String × TxSnapshot))
    → r.tx_signature ≡ sig
    → deltas_of (
        get sig (
          insert r.tx_signature
            (add_delta (token_delta r) (snapshot_or r.tx_signature t (get r.tx_signature m)))
            m))
      ≡ deltas_of (get sig m) ++ token_delta r ∷ []
added sig r t m p = rw (← p) (
    ap deltas_of (get-insert_self r.tx_signature _ m)
    ∙ ap (λ l. l ++ token_delta r ∷ [])
        (deltas_of-snapshot_or r.tx_signature t (get r.tx_signature m)))

deltas_of-group_rows :
    (sig : String) (rows : List BalanceChangeRow) (m : List (String × TxSnapshot))
    → deltas_of (get sig (group_rows rows m)) ≡ deltas_of (get sig m) ++ timed_deltas sig rows
unfolding group_rows timed_deltas
deltas_of-group_rows sig [] m = sym (append-nil _)
deltas_of-group_rows sig (r ∷ rows) m = elim (Option-cases r.block_time) [
  | inl n ↦ rw n (deltas_of-group_rows sig rows m)
  | inr (t, e) ↦
      let new = add_delta (token_delta r) (snapshot_or r.tx_signature t (get r.tx_signature m)) in
      let later = deltas_of-group_rows sig rows (insert r.tx_signature new m) in
      elim (text_discrete r.tx_signature sig) [
        | yes p ↦
            rw (group_rows, e, if_pos (text_discrete r.tx_signature sig) p)
              (later
                ∙ ap (λ l. l ++ timed_deltas sig rows) (added sig r t m p)
                ∙ append_assoc (deltas_of (get sig m)) (token_delta r ∷ []) (timed_deltas sig rows))
        | no p ↦
            rw (group_rows, e, if_neg (text_discrete r.tx_signature sig) p)
              (later
                ∙ ap (λ l. deltas_of l ++ timed_deltas sig rows)
                    (get-insert_ne r.tx_signature sig new m p))
      ]
]

-- In the grouped map, the snapshot of a signature holds the deltas of just those rows of the
-- signature that carry a block time, in the order of the rows.
pub group_rows_lem :
    (sig : String) (rows : List BalanceChangeRow)
    → deltas_of (get sig (group_rows rows [])) ≡ timed_deltas sig rows
unfolding timed_deltas get
group_rows_lem sig rows = deltas_of-group_rows sig rows []
