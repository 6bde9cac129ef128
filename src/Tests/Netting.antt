-- ===== src/Tests/Netting.antt =====
-- Two accounts of one mint, the second of which gives back a part, and a mint that nets to zero.
use tenso.Prelude.{ℕ, ◌≡◌, refl, String, List, [], ◌∷◌, arith, text_eq, ite, text_discrete}
use tenso.Prelude.Int.{pos, negsuc, ◌+ℤ◌}
use tenso.Coalesce.{Change, delta, coalesce}
use tenso.Coalesce.Loop.{net_of}
use tenso.Coalesce.Net.{Fits, net_of-coalesce}

abbrev change : String → ℕ → ℕ → Change String
change mint pre post = record { key = mint; pre = pre; post = post; decimals = 6 }

abbrev rows : List (Change String)
rows = change "usdt" 10 25 ∷ change "wsol" 7 3 ∷ change "usdt" 9 4 ∷ change "wsol" 0 4 ∷ []

abbrev netted : List (Change String)
netted = change "usdt" 0 10 ∷ []

coalesce-rows : coalesce rows ≡ netted
unfolding coalesce tenso.Coalesce.emit tenso.Coalesce.net_changes tenso.Coalesce.net_change
    tenso.Prelude.Maps.get tenso.Prelude.Maps.insert text_discrete ◌+ℤ◌ delta
coalesce-rows = refl

Fits-either :
    (k : String) (c : Dec ("usdt" ≡ k)) (d : Dec ("wsol" ≡ k))
    → Fits (
        ite c (pos 15) (pos 0)
        +ℤ (ite d (negsuc 3) (pos 0)
            +ℤ (ite c (negsuc 4) (pos 0) +ℤ (ite d (pos 4) (pos 0) +ℤ pos 0))))
unfolding ◌+ℤ◌
Fits-either k (yes p) (yes q) = (omega arith, omega arith)
Fits-either k (yes p) (no q) = (omega arith, omega arith)
Fits-either k (no p) (yes q) = (omega arith, omega arith)
Fits-either k (no p) (no q) = (omega arith, omega arith)

rows_fit : (k : String) → Fits (net_of k rows)
unfolding net_of delta
rows_fit k = Fits-either k (text_discrete "usdt" k) (text_discrete "wsol" k)

net_of-coalesce_example : net_of "usdt" (coalesce rows) ≡ net_of "usdt" rows
net_of-coalesce_example = net_of-coalesce rows "usdt" rows_fit
