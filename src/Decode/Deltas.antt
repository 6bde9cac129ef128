-- ===== src/Decode/Deltas.antt =====
-- The netted token deltas of a transaction account for the change of its balances, mint by mint.
use mathlib.Core.List.{map-append}
use tenso.Prelude.{
  ℕ, ◌+◌, ◌^◌, ◌<◌, ◌==◌, ◌≡◌, ◌≢◌, refl, sym, ap, ◌∙◌, String, none, some, List, [], ◌∷◌, map, ite,
  text_discrete, text_eq, arith, Fresh, Distinct, if◌then◌else◌, Bool-cases, inl, inr,
}
use tenso.Prelude.Int.{sub_ℕ, ◌+ℤ◌}
use tenso.Coalesce.{from_delta, to_delta, delta, coalesce, coalesce_token_deltas, Change}
use tenso.Coalesce.Net.{Fits, net_of-coalesce, net_of-append}
use tenso.Coalesce.Loop.{net_of}
use tenso.Raw.{RawTokenBalance}
use tenso.Decode.{
  amount_of, find_account, found_amount, is_found, post_deltas, closed_deltas, account_deltas,
  build_token_deltas,
}

-- The amount of a mint over all accounts.
unfoldable pub total : String → List RawTokenBalance → ℕ
total mint [] = 0
total mint (b ∷ balances) = ite (text_discrete b.mint mint) (amount_of b) 0 + total mint balances

abbrev pub indices : List RawTokenBalance → List ℕ
indices = map (λ b. b.account_index)

-- An account that is in both lists holds one mint.
abbrev pub SameMint : List RawTokenBalance → List RawTokenBalance → Type 0
SameMint pre post =
    (i : ℕ) (p b : RawTokenBalance)
    → find_account i pre ≡ some p
    → find_account i post ≡ some b
    → p.mint ≡ b.mint

-- The earlier amounts that the loop over `post` finds.
unfoldable pub found_total : String → List RawTokenBalance → List RawTokenBalance → ℕ
found_total mint pre [] = 0
found_total mint pre (b ∷ post) =
    ite (text_discrete b.mint mint) (found_amount (find_account b.account_index pre)) 0
    + found_total mint pre post

-- The amounts that the loop over `pre` closes.
unfoldable pub closed_total : String → List RawTokenBalance → List RawTokenBalance → ℕ
closed_total mint post [] = 0
closed_total mint post (b ∷ pre) =
    ite (text_discrete b.mint mint)
      (if is_found (find_account b.account_index post) then 0 else amount_of b) 0
    + closed_total mint post pre

net_of-post :
    (mint : String) (pre post : List RawTokenBalance)
    → net_of mint (map from_delta (post_deltas pre post))
      ≡ sub_ℕ (total mint post) (found_total mint pre post)
unfolding net_of post_deltas total found_total delta ◌+ℤ◌
net_of-post mint pre [] = refl
net_of-post mint pre (b ∷ post) = elim (text_discrete b.mint mint) [
  | yes p ↦ ground (arith, p, net_of-post mint pre post)
  | no p ↦ ground (arith, p, net_of-post mint pre post)
]

net_of-closed :
    (mint : String) (post pre : List RawTokenBalance)
    → net_of mint (map from_delta (closed_deltas post pre)) ≡ sub_ℕ 0 (closed_total mint post pre)
unfolding net_of closed_deltas closed_total delta ◌+ℤ◌
net_of-closed mint post [] = refl
net_of-closed mint post (b ∷ pre) = elim (text_discrete b.mint mint) [
  | yes p ↦ ground (arith, p, net_of-closed mint post pre)
  | no p ↦ ground (arith, p, net_of-closed mint post pre)
]

find_account-Fresh :
    (i : ℕ) (bs : List RawTokenBalance) → Fresh i (indices bs) → find_account i bs ≡ none
unfolding find_account
find_account-Fresh i [] f = refl
find_account-Fresh i (b ∷ bs) f = ground (arith, f.0, find_account-Fresh i bs f.1)

find_account-head :
    (p : RawTokenBalance) (pre : List RawTokenBalance)
    → find_account p.account_index (p ∷ pre) ≡ some p
unfolding find_account
find_account-head p pre = ground arith

find_account-later :
    (i : ℕ) (p : RawTokenBalance) (pre : List RawTokenBalance) (b : RawTokenBalance)
    → Fresh p.account_index (indices pre)
    → find_account i pre ≡ some b
    → find_account i (p ∷ pre) ≡ some b
unfolding find_account
find_account-later i p pre b f h = elim (Bool-cases (p.account_index == i)) [
  | inl e ↦
      let idx : p.account_index ≡ i = ground (arith, e) in
      let gone = find_account-Fresh i pre (rw (← idx) f) in absurd (cc (gone, h))
  | inr e ↦ ground (arith, e, h)
]

found_total-nil : (mint : String) (post : List RawTokenBalance) → found_total mint [] post ≡ 0
unfolding found_total find_account
found_total-nil mint [] = refl
found_total-nil mint (b ∷ post) = elim (text_discrete b.mint mint) [
  | yes p ↦ ground (arith, p, found_total-nil mint post)
  | no p ↦ ground (arith, p, found_total-nil mint post)
]

-- One more earlier balance adds its amount, if its account is still there.
found_total-cons :
    (mint : String) (p : RawTokenBalance) (pre post : List RawTokenBalance)
    → Fresh p.account_index (indices pre)
    → Distinct (indices post)
    → ((b : RawTokenBalance) → find_account p.account_index post ≡ some b → p.mint ≡ b.mint)
    → found_total mint (p ∷ pre) post
      ≡ ite
          (text_discrete p.mint mint)
          (if is_found (find_account p.account_index post) then amount_of p else 0)
          0
        + found_total mint pre post
unfolding found_total find_account
found_total-cons mint p pre [] f d same = ground arith
found_total-cons mint p pre (b ∷ post) f (fb, d) same =
    elim (Bool-cases (b.account_index == p.account_index)) [
      | inl e ↦
          let idx : b.account_index ≡ p.account_index = ground (arith, e) in
          let gone = find_account-Fresh p.account_index post (rw (← idx) fb) in
          let unseen = find_account-Fresh p.account_index pre f in
          let mints = same b (ground (arith, e)) in
          let rest = found_total-cons mint p pre post f d (λ b' h. absurd (cc (gone, h))) in
          elim (text_discrete p.mint mint) [
            | yes q ↦
                let q' : b.mint ≡ mint = sym mints ∙ q in
                ground (arith, e, idx, gone, unseen, rest, q, q')
            | no q ↦
                let q' : b.mint ≢ mint = λ r. q (mints ∙ r) in
                ground (arith, e, idx, gone, unseen, rest, q, q')
          ]
      | inr e ↦
          let rest =
            found_total-cons mint p pre post f d (λ b' h. same b' (ground (arith, e, h))) in
          ground (arith, e, rest)
    ]

-- The amounts of the earlier balances are those found and those closed.
found_closed_total :
    (mint : String) (pre post : List RawTokenBalance)
    → Distinct (indices pre)
    → Distinct (indices post)
    → SameMint pre post
    → found_total mint pre post + closed_total mint post pre ≡ total mint pre
unfolding closed_total total
found_closed_total mint [] post dp dq same = ground (arith, found_total-nil mint post)
found_closed_total mint (p ∷ pre) post (fp, dp) dq same =
    let here =
      found_total-cons mint p pre post fp dq
        (λ b h. same p.account_index p b (find_account-head p pre) h) in
    let rest =
      found_closed_total mint pre post dp dq
        (λ i p' b hp hb. same i p' b (find_account-later i p pre p' fp hp) hb) in
    elim (text_discrete p.mint mint) [
      | yes q ↦ ground (arith, q, here, rest)
      | no q ↦ ground (arith, q, here, rest)
    ]

net_of-account_deltas :
    (mint : String) (pre post : List RawTokenBalance)
    → Distinct (indices pre)
    → Distinct (indices post)
    → SameMint pre post
    → net_of mint (map from_delta (account_deltas pre post))
      ≡ sub_ℕ (total mint post) (total mint pre)
unfolding account_deltas ◌+ℤ◌
net_of-account_deltas mint pre post dp dq same =
    let sums = found_closed_total mint pre post dp dq same in
    ap (net_of mint) (map-append from_delta (post_deltas pre post) (closed_deltas post pre))
    ∙ net_of-append mint (map from_delta (post_deltas pre post))
        (map from_delta (closed_deltas post pre))
    ∙ rw (net_of-post mint pre post, net_of-closed mint post pre) (rw (← sums) (ground arith))

from_to_delta : (cs : List (Change String)) → map from_delta (map to_delta cs) ≡ cs
from_to_delta [] = refl
from_to_delta (c ∷ cs) = ap (◌∷◌ c) (from_to_delta cs)

-- Where an account stands at most once in each list of balances, an account in both holds one
-- mint, and the amounts of each mint sum to less than 2^64 before and after, the token deltas of
-- a transaction hold, for each mint, just the difference of the two sums.
pub net_of-build_token_deltas :
    (pre post : List RawTokenBalance) (mint : String)
    → Distinct (indices pre)
    → Distinct (indices post)
    → SameMint pre post
    → ((m : String) → (total m pre < 2 ^ 64) × (total m post < 2 ^ 64))
    → net_of mint (map from_delta (build_token_deltas pre post))
      ≡ sub_ℕ (total mint post) (total mint pre)
unfolding build_token_deltas coalesce_token_deltas
net_of-build_token_deltas pre post mint dp dq same small =
    let ds = map from_delta (account_deltas pre post) in
    let fits : (m : String) → Fits (net_of m ds) =
      λ m. rw (net_of-account_deltas m pre post dp dq same) (small-Fits m) in
    ap (net_of mint) (from_to_delta (coalesce ds))
    ∙ net_of-coalesce ds mint fits
    ∙ net_of-account_deltas mint pre post dp dq same
  where
    small-Fits : (m : String) → Fits (sub_ℕ (total m post) (total m pre))
    small-Fits m = ground (arith, small m)
