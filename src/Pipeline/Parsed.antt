-- ===== src/Pipeline/Parsed.antt =====
-- What `parse_outcome` of crates/cli/src/main.rs makes of an outcome.
use tenso.Prelude.{◌≡◌, refl, some}
use tenso.Fetch.{FetchOutcome, fetch_outcome_slot}
use tenso.Pipeline.{ParsedOutcome, parse_outcome, parsed_slot}
use tenso.Pipeline.Parse.{parse_block-reference_steps, parse_block-slot}

-- Parsing an outcome does not panic, and keeps the slot.
pub parse_outcome_lem :
    (o : FetchOutcome)
    → (p : ParsedOutcome) × (parse_outcome o ≡ some p) × (parsed_slot p ≡ fetch_outcome_slot o)
unfolding parse_outcome parsed_slot fetch_outcome_slot
parse_outcome_lem (FetchOutcome.skipped slot) = (ParsedOutcome.skipped slot, refl, refl)
parse_outcome_lem (FetchOutcome.failed slot error) = (ParsedOutcome.failed slot error, refl, refl)
parse_outcome_lem (FetchOutcome.ingested block) =
    let (p, ran, same, len) = parse_block-reference_steps block in
    (ParsedOutcome.ingested p, rw (parse_outcome, ran) refl, parse_block-slot block ran)

-- What an outcome is parsed to.
unfoldable pub parsed : FetchOutcome → ParsedOutcome
parsed o = (parse_outcome_lem o).0

pub parsed_eq : (o : FetchOutcome) (p : ParsedOutcome) → parse_outcome o ≡ some p → p ≡ parsed o
unfolding parsed
parsed_eq o p h = let (q, ran, same) = parse_outcome_lem o in cc (h, ran)
