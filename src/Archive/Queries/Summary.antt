-- ===== src/Archive/Queries/Summary.antt =====
-- What the contention summary says of the stored steps and locks.
use mathlib.Core.Path.{subst}
use tenso.Prelude.{
  ℕ, ◌+◌, ◌≤◌, ◌≡◌, ◌⊎◌, refl, sym, ap, ◌∙◌, String, Bool, true, false, ◌&&◌, Option, none, some,
  List, [], ◌∷◌, map, if◌then◌else◌, ite, if_pos, if_neg, length, take, arith, All, All-imp,
  All-intro, Distinct, Bool-cases, Option-cases, inl, inr, text_discrete, text_eq, max,
}
use tenso.Prelude.Maps.{get, insert, get-insert_self, get-insert_ne}
use tenso.Floats.{Floats}
use tenso.Storage.{ok, err, engine_error, TransactionDbRow, AccountLockDbRow}
use tenso.Archive.{Database, is_between}
use tenso.Archive.Pass.Found.{Reorders}
use tenso.Archive.Ranking.{
  sort_ranked, Ranked-sort_ranked, Distinct-sort_ranked, get-sort_ranked, Distinct-insert,
  take-Ranked, take-All_get, All-get,
}
use tenso.Archive.Queries.{
  ContentionSummary, max_stored_step, next_step, larger, count_or_zero, is_counted, count_locks,
  count_weight, top_accounts, count_where, query_contention_summary,
}

-- The writable locks of an account in the range.
abbrev pub lock_count : ℕ → ℕ → String → List AccountLockDbRow → ℕ
lock_count from_slot to_slot account =
    count_where
      (λ l. is_counted from_slot to_slot l && ite (text_discrete l.account account) true false)

-- One more than the step of a row in the range, if it has one.
abbrev pub reach : ℕ → ℕ → TransactionDbRow → ℕ
reach from_slot to_slot r = if is_between from_slot to_slot r.slot then next_step r.step else 0

-- One more than the greatest step of the range.
unfoldable pub greatest : ℕ → ℕ → List TransactionDbRow → ℕ
greatest from_slot to_slot [] = 0
greatest from_slot to_slot (r ∷ rows) =
    max (reach from_slot to_slot r) (greatest from_slot to_slot rows)

next_step-larger : (m n : Option ℕ) → next_step (larger m n) ≡ max (next_step m) (next_step n)
next_step-larger none n = omega arith
next_step-larger (some m) none = omega arith
next_step-larger (some m) (some n) = omega arith

next_step-max_stored_step :
    (from_slot to_slot : ℕ) (rows : List TransactionDbRow)
    → next_step (max_stored_step from_slot to_slot rows) ≡ greatest from_slot to_slot rows
unfolding max_stored_step greatest
next_step-max_stored_step from_slot to_slot [] = refl
next_step-max_stored_step from_slot to_slot (r ∷ rows) =
    let ih = next_step-max_stored_step from_slot to_slot rows in
    elim (Bool-cases (is_between from_slot to_slot r.slot)) [
      | inl e ↦ rw e (
          next_step-larger r.step (max_stored_step from_slot to_slot rows)
          ∙ ap (max (next_step r.step)) ih)
      | inr e ↦ rw e (omega (arith, ih))
    ]

count_or_zero-count_locks :
    (from_slot to_slot : ℕ) (account : String) (locks : List AccountLockDbRow)
    (m : List (String × ℕ))
    → count_or_zero (get account (count_locks from_slot to_slot locks m))
      ≡ count_or_zero (get account m) + lock_count from_slot to_slot account locks
unfolding count_locks count_where
count_or_zero-count_locks from_slot to_slot account [] m = omega arith
count_or_zero-count_locks from_slot to_slot account (l ∷ locks) m =
    elim (Bool-cases (is_counted from_slot to_slot l)) [
      | inr e ↦ rw e (count_or_zero-count_locks from_slot to_slot account locks m)
      | inl e ↦
          let new = count_or_zero (get l.account m) + 1 in
          let later =
            count_or_zero-count_locks from_slot to_slot account locks (insert l.account new m) in
          elim (text_discrete l.account account) [
            | yes p ↦
                let held : get account (insert l.account new m) ≡ some new =
                  subst (λ k. get k (insert l.account new m) ≡ some new) p
                    (get-insert_self l.account new m) in
                let was : count_or_zero (get l.account m) ≡ count_or_zero (get account m) =
                  ap (λ k. count_or_zero (get k m)) p in
                rw (e, if_pos (text_discrete l.account account) p)
                  (later ∙ rw (held, was) (omega arith))
            | no p ↦
                rw (e, if_neg (text_discrete l.account account) p)
                  (later ∙ rw (get-insert_ne l.account account new m p) refl)
          ]
    ]

Distinct-count_locks :
    (from_slot to_slot : ℕ) (locks : List AccountLockDbRow) (m : List (String × ℕ))
    → Distinct (map (λ g. g.0) m)
    → Distinct (map (λ g. g.0) (count_locks from_slot to_slot locks m))
unfolding count_locks
Distinct-count_locks from_slot to_slot [] m d = d
Distinct-count_locks from_slot to_slot (l ∷ locks) m d =
    elim (Bool-cases (is_counted from_slot to_slot l)) [
      | inl e ↦
          rw e (Distinct-count_locks from_slot to_slot locks _ (Distinct-insert l.account _ m d))
      | inr e ↦ rw e (Distinct-count_locks from_slot to_slot locks m d)
    ]

-- An account stands in the list with its count, or is missing and counts no more than any that
-- stands there, and then it has no lock or the list is full.
abbrev pub Listed : ℕ → ℕ → List AccountLockDbRow → List (String × ℕ) → String → Type 0
Listed from_slot to_slot locks top account =
    (get account top ≡ some (lock_count from_slot to_slot account locks))
    ⊎ ((get account top ≡ none)
        × All (λ e. lock_count from_slot to_slot account locks ≤ e.1) top
        × ((lock_count from_slot to_slot account locks ≡ 0) ⊎ (length top ≡ 20)))

module _ (from_slot to_slot : ℕ) (group_order : List (String × ℕ) → List (String × ℕ))
    (locks : List AccountLockDbRow) (reorders : Reorders group_order) where
  abbrev groups : List (String × ℕ)
  groups = group_order (count_locks from_slot to_slot locks [])

  groups_lem :
      Distinct (map (λ g. g.0) groups)
      × ((account : String)
          → count_or_zero (get account groups) ≡ lock_count from_slot to_slot account locks)
  unfolding get
  groups_lem =
      let (dist, same) =
        reorders (count_locks from_slot to_slot locks [])
          (Distinct-count_locks from_slot to_slot locks [] tt) in
      (
        dist,
        λ account.
            ap count_or_zero (same account)
            ∙ count_or_zero-count_locks from_slot to_slot account locks []
            ∙ omega arith,
      )

  top_accounts_lem :
      All
        (λ e. e.1 ≡ lock_count from_slot to_slot e.0 locks)
        (top_accounts group_order from_slot to_slot locks)
      × ((account : String)
          → Listed from_slot to_slot locks
              (top_accounts group_order from_slot to_slot locks)
              account)
  unfolding top_accounts
  top_accounts_lem =
      let (dist, counts) = groups_lem in
      let sorted = sort_ranked count_weight groups in
      let held : (account : String) → get account sorted ≡ get account groups =
        λ account. get-sort_ranked count_weight account groups dist in
      let counted : (account : String) (n : ℕ)
          → get account sorted ≡ some n
          → n ≡ lock_count from_slot to_slot account locks =
        λ account n h. ap count_or_zero (sym h ∙ held account) ∙ counts account in
      let listed =
        take-All_get count_weight 20 sorted (Distinct-sort_ranked count_weight groups dist) in
      let right : All (λ e. e.1 ≡ lock_count from_slot to_slot e.0 locks) (take 20 sorted) =
        All-imp _ _ (take 20 sorted) (λ e h. counted e.0 e.1 h) listed in
      (
        right,
        λ account. elim (Option-cases (get account (take 20 sorted))) [
          | inr (n, h) ↦ inl (
              h
              ∙ ap some (
                  All-get count_weight (λ e. e.1 ≡ lock_count from_slot to_slot e.0 locks) account n
                    (take 20 sorted) right h))
          | inl gone ↦ elim (Option-cases (get account sorted)) [
            | inl absent ↦
                let zero_count : lock_count from_slot to_slot account locks ≡ 0 =
                  sym (counts account) ∙ ap count_or_zero (sym (held account) ∙ absent) in
                inr (
                  gone,
                  All-intro _ (take 20 sorted) (λ e. omega (arith, zero_count)),
                  inl zero_count,
                )
            | inr (n, h) ↦
                let (below, full) =
                  take-Ranked count_weight 20 sorted account n
                    (Ranked-sort_ranked count_weight groups) gone h in
                let same = counted account n h in
                inr (gone, All-imp _ _ (take 20 sorted) (λ e le. rw (← same) le) below, inr full)
          ]
        ],
      )

ok_path : {A : Type 0} {x y : A} → ok x ≡ ok y → x ≡ y
ok_path h = cc (h)

module _ (f : Floats) (fault : ℕ → Bool) (group_order : List (String × ℕ) → List (String × ℕ))
    (from_slot to_slot : ℕ) where
  abbrev pub Told : Database f → ContentionSummary → Type 0
  Told d s =
      (s.depth ≡ greatest from_slot to_slot d.conn.tables.transactions)
      × All (λ e. e.1 ≡ lock_count from_slot to_slot e.0 d.conn.tables.account_locks)
          s.top_conflicting_accounts
      × ((account : String)
          → Listed from_slot to_slot d.conn.tables.account_locks s.top_conflicting_accounts account)

  -- Where GROUP BY leaves the groups in any order, a `query_contention_summary` that succeeds
  -- gives one more than the greatest step of the range as its depth, 0 if there is none. Each
  -- account that it lists stands with the number of its writable locks in the range; and each
  -- account is listed, or counts no more than any that is, and then it has no such lock or twenty
  -- are listed.
  pub query_contention_summary_lem :
      (d : Database f) (s : ContentionSummary)
      → Reorders group_order
      → (query_contention_summary f fault group_order from_slot to_slot d).0 ≡ ok s
      → Told d s
  unfolding query_contention_summary
  query_contention_summary_lem d s reorders h = elim (Bool-cases (fault d.conn.clock)) [
    | inl e ↦ absurd (let h' : err engine_error ≡ ok s = rw e at h in ground arith)
    | inr e ↦ elim (Bool-cases (fault (d.conn.clock + 1))) [
      | inl e' ↦ absurd (let h' : err engine_error ≡ ok s = rw (e, e') at h in ground arith)
      | inr e' ↦
          let made : ok (record {
            depth = next_step (max_stored_step from_slot to_slot d.conn.tables.transactions);
            top_conflicting_accounts =
                top_accounts group_order from_slot to_slot d.conn.tables.account_locks;
          })
              ≡ ok s =
            rw (e, e') at h in
          let (counted, listed) =
            top_accounts_lem from_slot to_slot group_order d.conn.tables.account_locks reorders in
          subst (Told d) (ok_path made) (
            next_step-max_stored_step from_slot to_slot d.conn.tables.transactions,
            counted,
            listed,
          )
    ]
  ]
