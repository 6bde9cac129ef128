-- ===== src/Ohlcv/Trades.antt =====
-- Which balance changes count as trades.
use tenso.Prelude.{
  ℕ, zero, suc, ◌≡◌, ◌≢◌, refl, false, some, List, [], ◌∷◌, ◌++◌, if_pos, if_neg, All, All-append,
  All-imp, get_elem?, Bool-cases, Option-cases, inl, inr, text_discrete,
}
use tenso.Floats.{Floats}
use tenso.Ohlcv.{
  TokenDelta, TxSnapshot, InferredTrade, wsol_mint, find_mint, same, delta_ui, infer_trade,
  infer_each, infer_trades,
}

get_elem?-shift {ℓ} :
    {A : Type ℓ} (xs ys : List A) (n : ℕ) (y : A)
    → get_elem? ys n ≡ some y
    → (m : ℕ) × (get_elem? (xs ++ ys) m ≡ some y)
get_elem?-shift [] ys n y h = (n, h)
get_elem?-shift (x ∷ xs) ys n y h = let (m, at) = get_elem?-shift xs ys n y h in (suc m, at)

module _ (f : Floats) (tx : TxSnapshot) where
  open f use {F64, div, abs, lt, eq}

  -- The balance change `d` moves against the wrapped-SOL leg `w`: another mint, in the other
  -- direction, and not dust.
  pub record IsSwap (w d : TokenDelta) : Type 0 where
    pub other_mint : d.mint ≢ wsol_mint
    pub sol_moves : eq (delta_ui f w) f.zero ≡ false
    pub token_moves : eq (delta_ui f d) f.zero ≡ false
    pub opposite : same (lt f.zero (delta_ui f d)) (lt f.zero (delta_ui f w)) ≡ false
    pub no_dust : lt (abs (delta_ui f w)) f.dust_threshold_sol ≡ false

  -- The trade at which a swap is counted.
  unfoldable pub swap_trade : TokenDelta → TokenDelta → InferredTrade f
  swap_trade w d = record {
    signature = tx.signature;
    block_time = tx.block_time;
    mint = d.mint;
    price_in_sol = div (abs (delta_ui f w)) (abs (delta_ui f d));
    volume_sol = abs (delta_ui f w);
  }

  -- A trade comes of a swap of the transaction against its first wrapped-SOL change.
  abbrev pub FromSwap : InferredTrade f → Type 0
  FromSwap t =
      (w : TokenDelta) × (d : TokenDelta) × (i : ℕ) × (find_mint wsol_mint tx.token_deltas ≡ some w)
      × (get_elem? tx.token_deltas i ≡ some d)
      × IsSwap w d
      × (t ≡ swap_trade w d)

  module _ (w : TokenDelta) (moves : eq (delta_ui f w) f.zero ≡ false) where
    infer_trade-IsSwap :
        (d : TokenDelta) → IsSwap w d → infer_trade f tx (delta_ui f w) d ≡ swap_trade w d ∷ []
    unfolding infer_trade swap_trade
    infer_trade-IsSwap d s =
        rw (
          if_neg (text_discrete d.mint wsol_mint) s.other_mint,
          s.token_moves,
          s.opposite,
          s.no_dust,
        )

    infer_trade-All :
        (d : TokenDelta)
        → All (λ t. IsSwap w d × (t ≡ swap_trade w d)) (infer_trade f tx (delta_ui f w) d)
    unfolding infer_trade swap_trade
    infer_trade-All d = elim (text_discrete d.mint wsol_mint) [
      | yes p ↦ rw (if_pos (text_discrete d.mint wsol_mint) p) tt
      | no p ↦
          rw (if_neg (text_discrete d.mint wsol_mint) p)
            (elim (Bool-cases (eq (delta_ui f d) f.zero)) [
              | inl e ↦ rw e tt
              | inr e ↦
                  rw e
                    (elim (Bool-cases
                      (same (lt f.zero (delta_ui f d)) (lt f.zero (delta_ui f w)))) [
                        | inl o ↦ rw o tt
                        | inr o ↦
                            rw o (elim (Bool-cases (lt (abs (delta_ui f w)) f.dust_threshold_sol)) [
                              | inl u ↦ rw u tt
                              | inr u ↦ rw u (
                                (
                                  record {
                                    other_mint = p;
                                    sol_moves = moves;
                                    token_moves = e;
                                    opposite = o;
                                    no_dust = u;
                                  },
                                  refl,
                                ),
                                tt,
                              )
                            ])
                      ])
            ])
    ]

    infer_each-All :
        (ds : List TokenDelta)
        → All
            (λ t.
              (d : TokenDelta) × (i : ℕ) × (get_elem? ds i ≡ some d)
              × IsSwap w d
              × (t ≡ swap_trade w d))
            (infer_each f tx (delta_ui f w) ds)
    unfolding infer_each
    infer_each-All [] = tt
    infer_each-All (d ∷ ds) =
        All-append _ (infer_trade f tx (delta_ui f w) d) (infer_each f tx (delta_ui f w) ds)
          (All-imp _ _ (infer_trade f tx (delta_ui f w) d) (λ t h. (d, 0, refl, h.0, h.1))
            (infer_trade-All d))
          (All-imp _ _ (infer_each f tx (delta_ui f w) ds) (λ t h. (h.0, suc h.1, h.2, h.3, h.4))
            (infer_each-All ds))

    infer_each_complete :
        (ds : List TokenDelta) (i : ℕ) (d : TokenDelta)
        → get_elem? ds i ≡ some d
        → IsSwap w d
        → (n : ℕ) × (get_elem? (infer_each f tx (delta_ui f w) ds) n ≡ some (swap_trade w d))
    unfolding infer_each
    infer_each_complete [] i d at s = absurd (cc (at))
    infer_each_complete (x ∷ ds) zero d at s =
        let here : x ≡ d = cc (at) in (0, rw (here, infer_trade-IsSwap d s))
    infer_each_complete (x ∷ ds) (suc i) d at s =
        let (n, found) = infer_each_complete ds i d at s in
        get_elem?-shift (infer_trade f tx (delta_ui f w) x) _ n _ found

  -- Every inferred trade is the price of a swap of the transaction against its wrapped-SOL leg.
  pub infer_trades-All : All FromSwap (infer_trades f tx)
  unfolding infer_trades
  infer_trades-All = elim (Option-cases (find_mint wsol_mint tx.token_deltas)) [
    | inl none_there ↦ rw (none_there, infer_trades) tt
    | inr (w, there) ↦
        rw (there, infer_trades)
          (elim (Bool-cases (eq (delta_ui f w) f.zero)) [
            | inl still ↦ rw still tt
            | inr moves ↦ rw moves (
                All-imp _ _ (infer_each f tx (delta_ui f w) tx.token_deltas)
                  (λ t h. (w, h.0, h.1, there, h.2, h.3, h.4))
                  (infer_each-All w moves tx.token_deltas))
          ])
  ]

  -- Every swap of the transaction against its wrapped-SOL leg is among the inferred trades.
  pub infer_trades_complete :
      (w d : TokenDelta) (i : ℕ)
      → find_mint wsol_mint tx.token_deltas ≡ some w
      → get_elem? tx.token_deltas i ≡ some d
      → IsSwap w d
      → (n : ℕ) × (get_elem? (infer_trades f tx) n ≡ some (swap_trade w d))
  unfolding infer_trades
  infer_trades_complete w d i there at s =
      rw (there, infer_trades, s.sol_moves)
        (infer_each_complete w s.sol_moves tx.token_deltas i d at s)
