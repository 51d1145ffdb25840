-- ===== src/SwapJournal/Receipts.antt =====
-- The hash chain of receipts of src/lib/swap-journal.ts, and the state root of src/lib/swap-root.ts.
-- `return false` in `verifySwapJournal` is an error here, since the source turns every exception there
-- into `false`.
use phlebas.Base.{
  ℕ, Bool, true, false, not, ◌&&◌, ◌||◌, List, [], ◌∷◌, Option, none, some, Result, ok, ◌>>=◌, ◌>>◌,
  throw_if, ltb, ◌==◌, uint64_max, without_value,
}
use phlebas.Base.Text.{codes}
use phlebas.Base.Entries.{or_else}
use phlebas.OrderDomain.{Text, same_text, normalize_hex32}
use phlebas.SwapDomain.{is_there}
use phlebas.SwapDomain.Terms.{SwapLeg, zec, evm, SpendAction, claim, refund}
use phlebas.SwapDomain.Markets.{is_empty_list, same_texts}
use phlebas.Swap.{
  SwapState, SwapDisputeReason, observer_conflict, observer_stale, reorganization,
  semantic_mismatch,
}
use phlebas.Swap.Legs.{is_unfunded}
use phlebas.SwapJournal.{
  SwapEventPayload, authorize_terms, prepare_funding, abandon_funding, expire, observe_funding,
  confirm_funding, observe_spend, confirm_spend, flag_dispute, retract_evidence,
  replace_funding_attestation, replace_spend_attestation,
}

-- The text of a slot, by the parts that it joins. The parts of an event that is applied are
-- canonical and hold no colon, but for the last.
pub record SemanticSlot : Type 0 where
  pub kind : Text
  pub parts : List Text
  pub at : Option ℕ

abbrev pub slot_of : Text → List Text → SemanticSlot
slot_of kind parts = record { kind = kind; parts = parts; at = none }

abbrev pub leg_text : SwapLeg → Text
leg_text zec = codes "zec"
leg_text evm = codes "evm"

abbrev pub action_text : SpendAction → Text
action_text claim = codes "claim"
action_text refund = codes "refund"

abbrev pub reason_text : SwapDisputeReason → Text
reason_text observer_conflict = codes "observer-conflict"
reason_text observer_stale = codes "observer-stale"
reason_text reorganization = codes "reorganization"
reason_text semantic_mismatch = codes "semantic-mismatch"

unfoldable pub swap_event_semantic_slot : SwapEventPayload → SemanticSlot
swap_event_semantic_slot (authorize_terms party hash at) =
    slot_of (codes "authorize-terms") (party ∷ [])
swap_event_semantic_slot (prepare_funding leg hash at) =
    slot_of (codes "prepare-funding") (leg_text leg ∷ hash ∷ [])
swap_event_semantic_slot (abandon_funding leg hash at) =
    slot_of (codes "abandon-funding") (leg_text leg ∷ hash ∷ [])
swap_event_semantic_slot (expire at reason) = record {
  kind = codes "expire-swap";
  parts = [];
  at = some at;
}
swap_event_semantic_slot (observe_funding evidence) = slot_of (codes "observe-funding") (
    leg_text evidence.fact.unsigned.leg
    ∷ evidence.fact.fact_id
    ∷ evidence.attestation.source_id
    ∷ [])
swap_event_semantic_slot (confirm_funding leg id at) =
    slot_of (codes "confirm-funding") (leg_text leg ∷ id ∷ [])
swap_event_semantic_slot (observe_spend evidence) = slot_of (codes "observe-spend") (
    leg_text evidence.fact.unsigned.leg
    ∷ action_text evidence.fact.unsigned.action
    ∷ evidence.fact.fact_id
    ∷ evidence.attestation.source_id
    ∷ [])
swap_event_semantic_slot (confirm_spend leg id at) =
    slot_of (codes "confirm-spend") (leg_text leg ∷ id ∷ [])
swap_event_semantic_slot (flag_dispute reason detail id) =
    slot_of (codes "flag-dispute") (reason_text reason ∷ or_else id (codes "none") ∷ detail ∷ [])
swap_event_semantic_slot (retract_evidence id detail) = slot_of (codes "retract-evidence") (id ∷ [])
swap_event_semantic_slot (replace_funding_attestation leg old evidence id at detail) =
    slot_of (codes "replace-funding-attestation") (leg_text leg ∷ old ∷ id ∷ [])
swap_event_semantic_slot (replace_spend_attestation leg old evidence id at detail) =
    slot_of (codes "replace-spend-attestation") (leg_text leg ∷ old ∷ id ∷ [])

abbrev pub same_time : Option ℕ → Option ℕ → Bool
same_time none none = true
same_time (some s) (some t) = s == t
same_time _ _ = false

unfoldable pub same_slot : SemanticSlot → SemanticSlot → Bool
same_slot l r = same_text l.kind r.kind && same_texts l.parts r.parts && same_time l.at r.at

-- A receipt without its hash (`Omit<SwapEventReceipt, "eventHash">`).
pub record UnsignedReceipt : Type 0 where
  pub version : ℕ
  pub sequence : ℕ
  pub swap_id : Text
  pub terms_hash : Text
  pub previous_event_hash : Text
  pub prior_state_root : Text
  pub next_state_root : Text
  pub payload : SwapEventPayload
  pub payload_hash : Text
  pub semantic_slot : SemanticSlot

pub record SwapEventReceipt : Type 0 where
  pub unsigned : UnsignedReceipt
  pub event_hash : Text

pub record SwapJournal : Type 0 where
  pub swap_id : Text
  pub terms_hash : Text
  pub initial_state : SwapState
  pub initial_state_root : Text
  pub receipts : List SwapEventReceipt
  pub head : Text
  pub next_sequence : ℕ

unfoldable pub journal_hex32 : Text → Result Text
journal_hex32 value = normalize_hex32 value >>= λ normalized.
    throw_if (not (same_text normalized value)) "must be canonical" >> ok normalized

-- Lines 250 to 260.
abbrev pub is_pristine : SwapState → Bool
is_pristine state = not (
    is_there state.authorizations.zec_seller
    || is_there state.authorizations.stablecoin_seller
    || not (is_unfunded state.zec.phase)
    || not (is_unfunded state.evm.phase)
    || is_there state.observed_secret
    || is_there state.observed_secret_fact_id
    || is_there state.confirmed_secret
    || is_there state.confirmed_secret_fact_id
    || is_there state.terminal
    || not (is_empty_list state.disputes)
    || not (is_empty_list state.resolutions)
    || not (is_empty_list state.retracted_evidence_ids))

-- `receipts.at(-1)?.nextStateRoot ?? initial`.
unfoldable pub last_root : Text → List SwapEventReceipt → Text
last_root initial [] = initial
last_root initial (r ∷ rs) = last_root r.unsigned.next_state_root rs

-- Lines 221 to 232: what the hash of an event is of.
pub record EventParts : Type 0 where
  pub version : ℕ
  pub sequence : ℕ
  pub hashes : List Text
  pub semantic_slot : SemanticSlot

unfoldable pub check_event_parts : UnsignedReceipt → List (Result (Unit {0}))
check_event_parts receipt =
    throw_if (receipt.sequence == 0 || ltb uint64_max receipt.sequence)
      "Swap event sequence must be a positive uint64"
    ∷ without_value (journal_hex32 receipt.swap_id)
    ∷ without_value (journal_hex32 receipt.terms_hash)
    ∷ without_value (journal_hex32 receipt.previous_event_hash)
    ∷ without_value (journal_hex32 receipt.prior_state_root)
    ∷ without_value (journal_hex32 receipt.next_state_root)
    ∷ without_value (journal_hex32 receipt.payload_hash)
    ∷ []
