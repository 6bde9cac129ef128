-- ===== src/Archive/Queries/Tokens.antt =====
-- The list of tokens counts the candles that `query_ohlcv` would return.
use mathlib.Core.Path.{subst}
use tenso.Prelude.{
  ℕ, ◌+◌, ◌≡◌, ◌≢◌, refl, sym, ap, ◌∙◌, String, Bool, true, false, ◌||◌, Option, none, some, List,
  [], ◌∷◌, map, if◌then◌else◌, ite, if_pos, if_neg, length, ltb, arith, Fresh, Distinct, Bool-cases,
  inl, inr, text_discrete, text_eq, ℕ_discrete,
}
use tenso.Prelude.Maps.{get, insert, get_here, get_there, get-insert_self, get-insert_ne}
use tenso.Floats.{Floats}
use tenso.Ohlcv.Groups.{Fresh-get}
use tenso.Storage.{ok, err, engine_error}
use tenso.Archive.{CandleDbRow, Database, series_key, series_eq, select_candles}
use tenso.Archive.Pass.Found.{Reorders}
use tenso.Archive.Ranking.{get-sort_ranked, Distinct-insert}
use tenso.Archive.Queries.{
  TokenOption, token_option, token_weight, one_if, add_row, or_zeros, having_candles, count_candles,
  token_groups, query_tokens,
}

-- The entry of a mint.
unfoldable pub find_token : String → List TokenOption → Option TokenOption
find_token mint [] = none
find_token mint (t ∷ ts) = ite (text_discrete t.mint mint) (some t) (find_token mint ts)

-- An entry that is listed has candles.
abbrev keep : ℕ × ℕ → Option (ℕ × ℕ)
keep n = if ltb 0 n.0 || ltb 0 n.1 then some n else none

abbrev keep_some : Option (ℕ × ℕ) → Option (ℕ × ℕ)
keep_some none = none
keep_some (some n) = keep n

keep-or_zeros : (o : Option (ℕ × ℕ)) → keep_some o ≡ keep (or_zeros o)
keep-or_zeros none = refl
keep-or_zeros (some n) = refl

Fresh-having_candles :
    (k : String) (groups : List (String × (ℕ × ℕ)))
    → Fresh k (map (λ g. g.0) groups)
    → Fresh k (map (λ g. g.0) (having_candles groups))
unfolding having_candles
Fresh-having_candles k [] h = tt
Fresh-having_candles k (g ∷ groups) (ne, h) = elim (Bool-cases (ltb 0 g.1.0 || ltb 0 g.1.1)) [
  | inl e ↦ rw e (ne, Fresh-having_candles k groups h)
  | inr e ↦ rw e (Fresh-having_candles k groups h)
]

Distinct-having_candles :
    (groups : List (String × (ℕ × ℕ)))
    → Distinct (map (λ g. g.0) groups)
    → Distinct (map (λ g. g.0) (having_candles groups))
unfolding having_candles
Distinct-having_candles [] d = tt
Distinct-having_candles (g ∷ groups) (f, d) = elim (Bool-cases (ltb 0 g.1.0 || ltb 0 g.1.1)) [
  | inl e ↦ rw e (Fresh-having_candles g.0 groups f, Distinct-having_candles groups d)
  | inr e ↦ rw e (Distinct-having_candles groups d)
]

keep_yes : (n : ℕ × ℕ) → (ltb 0 n.0 || ltb 0 n.1) ≡ true → keep n ≡ some n
keep_yes n e = rw e refl

keep_no : (n : ℕ × ℕ) → (ltb 0 n.0 || ltb 0 n.1) ≡ false → keep n ≡ none
keep_no n e = rw e refl

get-having_candles :
    (mint : String) (groups : List (String × (ℕ × ℕ)))
    → Distinct (map (λ g. g.0) groups)
    → get mint (having_candles groups) ≡ keep_some (get mint groups)
unfolding having_candles get
get-having_candles mint [] d = refl
get-having_candles mint (g ∷ groups) (f, d) =
    let ih = get-having_candles mint groups d in
    elim (Bool-cases (ltb 0 g.1.0 || ltb 0 g.1.1)) [
      | inl e ↦ elim (text_discrete g.0 mint) [
        | yes p ↦
            ap
              (λ (b : Bool).
                get mint (if b then g ∷ having_candles groups else having_candles groups))
              e
            ∙ get_here g.0 mint g.1 (having_candles groups) p
            ∙ sym (keep_yes g.1 e)
            ∙ sym (ap keep_some (get_here g.0 mint g.1 groups p))
        | no p ↦
            ap
              (λ (b : Bool).
                get mint (if b then g ∷ having_candles groups else having_candles groups))
              e
            ∙ get_there g.0 mint g.1 (having_candles groups) p
            ∙ ih
            ∙ sym (ap keep_some (get_there g.0 mint g.1 groups p))
      ]
      | inr e ↦
          ap
            (λ (b : Bool).
              get mint (if b then g ∷ having_candles groups else having_candles groups))
            e
          ∙ ih
          ∙ elim (text_discrete g.0 mint) [
            | yes p ↦
                ap (λ k. keep_some (get k groups)) (sym p)
                ∙ ap keep_some (Fresh-get g.0 groups f)
                ∙ sym (keep_no g.1 e)
                ∙ sym (ap keep_some (get_here g.0 mint g.1 groups p))
            | no p ↦ sym (ap keep_some (get_there g.0 mint g.1 groups p))
          ]
    ]

abbrev entry : String → Option (ℕ × ℕ) → Option TokenOption
entry mint none = none
entry mint (some n) = some (token_option (mint, n))

find_token-map :
    (mint : String) (groups : List (String × (ℕ × ℕ)))
    → find_token mint (map token_option groups) ≡ entry mint (get mint groups)
unfolding find_token get
find_token-map mint [] = refl
find_token-map mint (g ∷ groups) = elim (text_discrete g.0 mint) [
  | yes p ↦
      if_pos (text_discrete g.0 mint) p _ _
      ∙ ap (λ k. some (token_option (k, g.1))) p
      ∙ sym (ap (entry mint) (get_here g.0 mint g.1 groups p))
  | no p ↦
      if_neg (text_discrete g.0 mint) p _ _
      ∙ find_token-map mint groups
      ∙ sym (ap (entry mint) (get_there g.0 mint g.1 groups p))
]

entry-keep :
    (mint : String) (minutes fives : ℕ)
    → entry mint (keep (minutes, fives)) ≡ (
        if ltb 0 minutes || ltb 0 fives
        then some (record { mint = mint; candles_1m = minutes; candles_5m = fives })
        else none)
entry-keep mint minutes fives = ground arith

pair_path : {x y : ℕ × ℕ} → x.0 ≡ y.0 → x.1 ≡ y.1 → x ≡ y
pair_path p q i = (p i, q i)

module _ (f : Floats) where
  -- How many candles `query_ohlcv` finds.
  abbrev pub series_length : String → ℕ → List (CandleDbRow f) → ℕ
  series_length mint interval_sec rows = length (select_candles f (mint, interval_sec) rows)

  series_length-same :
      (mint : String) (wanted : ℕ) (r : CandleDbRow f) (rows : List (CandleDbRow f))
      → r.mint ≡ mint
      → series_length mint wanted (r ∷ rows)
        ≡ one_if r.interval_sec wanted + series_length mint wanted rows
  unfolding select_candles
  series_length-same mint wanted r rows p = elim (ℕ_discrete r.interval_sec wanted) [
    | yes q ↦
        rw
          (
            if_pos (ℕ_discrete r.interval_sec wanted) q,
            if_pos (series_eq.dec (series_key f r) (mint, wanted)) (λ i. (p i, q i)),
          )
          (omega arith)
    | no q ↦
        rw
          (
            if_neg (ℕ_discrete r.interval_sec wanted) q,
            if_neg (series_eq.dec (series_key f r) (mint, wanted)) (λ e. q (ap (λ x. x.1) e)),
          )
          (omega arith)
  ]

  series_length-other :
      (mint : String) (wanted : ℕ) (r : CandleDbRow f) (rows : List (CandleDbRow f))
      → r.mint ≢ mint
      → series_length mint wanted (r ∷ rows) ≡ series_length mint wanted rows
  unfolding select_candles
  series_length-other mint wanted r rows p =
      ap length
        (if_neg (series_eq.dec (series_key f r) (mint, wanted)) (λ e. p (ap (λ x. x.0) e)) _ _)

  or_zeros-count_candles :
      (mint : String) (rows : List (CandleDbRow f)) (m : List (String × (ℕ × ℕ)))
      → or_zeros (get mint (count_candles f rows m)) ≡ (
        (or_zeros (get mint m)).0 + series_length mint 60 rows,
        (or_zeros (get mint m)).1 + series_length mint 300 rows,
      )
  unfolding count_candles select_candles
  or_zeros-count_candles mint [] m = pair_path (omega arith) (omega arith)
  or_zeros-count_candles mint (r ∷ rows) m =
      let new = add_row r.interval_sec (or_zeros (get r.mint m)) in
      let later = or_zeros-count_candles mint rows (insert r.mint new m) in
      elim (text_discrete r.mint mint) [
        | yes p ↦
            let held : get mint (insert r.mint new m) ≡ some new =
              subst (λ k. get k (insert r.mint new m) ≡ some new) p
                (get-insert_self r.mint new m) in
            let was : or_zeros (get r.mint m) ≡ or_zeros (get mint m) =
              ap (λ k. or_zeros (get k m)) p in
            rw (series_length-same mint 60 r rows p, series_length-same mint 300 r rows p)
              (later ∙ rw (held, was) (pair_path (omega arith) (omega arith)))
        | no p ↦
            rw (series_length-other mint 60 r rows p, series_length-other mint 300 r rows p)
              (later ∙ rw (get-insert_ne r.mint mint new m p) refl)
      ]

  Distinct-count_candles :
      (rows : List (CandleDbRow f)) (m : List (String × (ℕ × ℕ)))
      → Distinct (map (λ g. g.0) m)
      → Distinct (map (λ g. g.0) (count_candles f rows m))
  unfolding count_candles
  Distinct-count_candles [] m d = d
  Distinct-count_candles (r ∷ rows) m d =
      Distinct-count_candles rows _ (Distinct-insert r.mint _ m d)

  module _ (fault : ℕ → Bool)
      (group_order : List (String × (ℕ × ℕ)) → List (String × (ℕ × ℕ))) where
    ok_of :
        {A : Type 0} (b : Bool) {x y : A} → (if b then err engine_error else ok x) ≡ ok y → x ≡ y
    ok_of true h = absurd (cc (h))
    ok_of false h = cc (h)

    -- Where GROUP BY leaves the groups in any order, a `query_tokens` that succeeds lists a mint
    -- just if the table holds a candle of it at one minute or at five, with the numbers of
    -- candles that `query_ohlcv` finds for it.
    pub find_token-query_tokens :
        (mint : String) (d : Database f) (ts : List TokenOption)
        → Reorders group_order
        → (query_tokens f fault group_order d).0 ≡ ok ts
        → find_token mint ts ≡ (
            if ltb 0 (series_length mint 60 d.candles) || ltb 0 (series_length mint 300 d.candles)
            then some (record {
              mint = mint;
              candles_1m = series_length mint 60 d.candles;
              candles_5m = series_length mint 300 d.candles;
            })
            else none)
    unfolding query_tokens token_groups get
    find_token-query_tokens mint d ts reorders h =
        let counted = count_candles f d.candles [] in
        let (dist, same) = reorders counted (Distinct-count_candles d.candles [] tt) in
        let groups = having_candles (group_order counted) in
        let made : map token_option (token_groups f group_order d.candles) ≡ ts =
          ok_of (fault d.conn.clock) h in
        let held : get mint (token_groups f group_order d.candles)
            ≡ keep (series_length mint 60 d.candles, series_length mint 300 d.candles) =
          get-sort_ranked token_weight mint groups
            (Distinct-having_candles (group_order counted) dist)
          ∙ get-having_candles mint (group_order counted) dist
          ∙ ap keep_some (same mint)
          ∙ keep-or_zeros (get mint counted)
          ∙ ap keep {y = (series_length mint 60 d.candles, series_length mint 300 d.candles)}
              (or_zeros-count_candles mint d.candles [] ∙ pair_path (omega arith) (omega arith)) in
        sym (ap (find_token mint) made)
        ∙ find_token-map mint (token_groups f group_order d.candles)
        ∙ ap (entry mint) held
        ∙ entry-keep mint (series_length mint 60 d.candles) (series_length mint 300 d.candles)
