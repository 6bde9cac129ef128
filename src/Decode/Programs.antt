-- ===== src/Decode/Programs.antt =====
-- The program ids of a transaction are those its instructions name, each kept.
use text.Mathlib.Text.{is_lt}
use tenso.Prelude.{
  String, List, [], ◌∷◌, ◌++◌, if_pos, if_neg, All, ◌↔◌, Bool-cases, inl, inr, text_discrete,
}
use tenso.Raw.{RawInstruction}
use tenso.Decode.{insert_id, sort_ids, dedup_after, dedup, resolve_programs, extract_program_ids}

module _ (P : String → Type 0) where
  insert_id-All : (x : String) (ids : List String) → All P (insert_id x ids) ↔ (P x × All P ids)
  unfolding insert_id
  insert_id-All x [] = (λ a. a, λ a. a)
  insert_id-All x (y ∷ ids) = elim (Bool-cases (is_lt (Prim.Native.String.compare y x))) [
    | inl t ↦ rw t (
      λ a. let (px, rest) = (insert_id-All x ids).0 a.1 in (px, (a.0, rest)),
      λ a. (a.1.0, (insert_id-All x ids).1 (a.0, a.1.1)),
    )
    | inr t ↦ rw t (λ a. a, λ a. a)
  ]

  sort_ids-All : (ids : List String) → All P (sort_ids ids) ↔ All P ids
  unfolding sort_ids
  sort_ids-All [] = (λ a. a, λ a. a)
  sort_ids-All (x ∷ ids) = (
    λ a. let (px, rest) = (insert_id-All x (sort_ids ids)).0 a in (px, (sort_ids-All ids).0 rest),
    λ a. (insert_id-All x (sort_ids ids)).1 (a.0, (sort_ids-All ids).1 a.1),
  )

  dedup_after-All :
      (last : String) (ids : List String) → P last → All P (dedup_after last ids) ↔ All P ids
  unfolding dedup_after
  dedup_after-All last [] p = (λ a. a, λ a. a)
  dedup_after-All last (x ∷ ids) p = elim (text_discrete x last) [
    | yes e ↦
        rw (if_pos (text_discrete x last) e)
          (λ a. (rw e p, (dedup_after-All last ids p).0 a), λ a. (dedup_after-All last ids p).1 a.1)
    | no e ↦ rw (if_neg (text_discrete x last) e) (
      λ a. (a.0, (dedup_after-All x ids a.0).0 a.1),
      λ a. (a.0, (dedup_after-All x ids a.0).1 a.1),
    )
  ]

  dedup-All : (ids : List String) → All P (dedup ids) ↔ All P ids
  unfolding dedup
  dedup-All [] = (λ a. a, λ a. a)
  dedup-All (x ∷ ids) =
      (λ a. (a.0, (dedup_after-All x ids a.0).0 a.1), λ a. (a.0, (dedup_after-All x ids a.0).1 a.1))

  -- A predicate holds of all extracted program ids just if it holds of every account that an
  -- instruction names by its index into the static keys, the loaded writable and the loaded
  -- read-only addresses, in this order: sorting and deduplication neither lose nor add an id.
  pub extract_program_ids-All :
      (static_keys loaded_writable loaded_readonly : List String)
      (instructions : List RawInstruction)
      → All P (extract_program_ids static_keys loaded_writable loaded_readonly instructions)
        ↔ All P (resolve_programs (static_keys ++ loaded_writable ++ loaded_readonly) instructions)
  unfolding extract_program_ids
  extract_program_ids-All static_keys loaded_writable loaded_readonly instructions =
      let ids = resolve_programs (static_keys ++ loaded_writable ++ loaded_readonly) instructions in
      (
        λ a. (sort_ids-All ids).0 ((dedup-All (sort_ids ids)).0 a),
        λ a. (dedup-All (sort_ids ids)).1 ((sort_ids-All ids).1 a),
      )
