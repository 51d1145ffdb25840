-- ===== src/SwapJournal.antt =====
-- src/lib/swap-journal.ts: the events of a swap, and the operation that each of them is.
pub mod Transitions
pub mod Histories
pub mod Order
pub mod Terminal
pub mod Atomicity
pub mod Receipts
pub mod Chain
pub mod Verified
pub mod Appending
pub mod Appended
pub mod Events
mod Examples
mod JournalExamples
use phlebas.Base.{ℕ, List, [], ◌∷◌, Option, Result, ok, err, ◌>>=◌}
use phlebas.OrderDomain.{Text}
use phlebas.SwapDomain.Terms.{SwapLeg, Hashed}
use phlebas.Swap.{FundingEvidence, SpendEvidence, SwapDisputeReason, SwapState}
use phlebas.Swap.Operations.{
  authorize_swap_terms, prepare_swap_funding, abandon_swap_funding, expire_swap,
}
use phlebas.Swap.Observations.{
  observe_swap_funding, confirm_swap_funding, observe_swap_spend, confirm_swap_spend,
}
use phlebas.Swap.Recovery.{
  replace_swap_funding_attestation, replace_swap_spend_attestation, flag_swap_dispute,
  retract_swap_evidence,
}

-- The fields of each kind are its arguments, in the source's order. The checks of
-- `assertSwapEventPayload` on unknown kinds and on missing or unknown fields never throw on them.
pub data SwapEventPayload : Type 0 where
  authorize_terms : Text → Text → ℕ → SwapEventPayload
  prepare_funding : SwapLeg → Text → ℕ → SwapEventPayload
  abandon_funding : SwapLeg → Text → ℕ → SwapEventPayload
  expire : ℕ → Text → SwapEventPayload
  observe_funding : FundingEvidence → SwapEventPayload
  confirm_funding : SwapLeg → Text → ℕ → SwapEventPayload
  observe_spend : SpendEvidence → SwapEventPayload
  confirm_spend : SwapLeg → Text → ℕ → SwapEventPayload
  flag_dispute : SwapDisputeReason → Text → Option Text → SwapEventPayload
  retract_evidence : Text → Text → SwapEventPayload
  replace_funding_attestation :
      SwapLeg → Text → FundingEvidence → Text → ℕ → Text → SwapEventPayload
  replace_spend_attestation : SwapLeg → Text → SpendEvidence → Text → ℕ → Text → SwapEventPayload

module _ (sha256_hex : Hashed → Text) where
  unfoldable pub apply_swap_event : SwapState → SwapEventPayload → Result SwapState
  apply_swap_event state (authorize_terms party hash at) =
      authorize_swap_terms sha256_hex state party hash at
  apply_swap_event state (prepare_funding leg hash at) =
      prepare_swap_funding sha256_hex state leg hash at
  apply_swap_event state (abandon_funding leg hash at) =
      abandon_swap_funding sha256_hex state leg hash at
  apply_swap_event state (expire at reason) = expire_swap sha256_hex state at reason
  apply_swap_event state (observe_funding evidence) = observe_swap_funding sha256_hex state evidence
  apply_swap_event state (confirm_funding leg id at) =
      confirm_swap_funding sha256_hex state leg id at
  apply_swap_event state (observe_spend evidence) = observe_swap_spend sha256_hex state evidence
  apply_swap_event state (confirm_spend leg id at) = confirm_swap_spend sha256_hex state leg id at
  apply_swap_event state (flag_dispute reason detail id) =
      flag_swap_dispute sha256_hex state reason detail id
  apply_swap_event state (retract_evidence id detail) =
      retract_swap_evidence sha256_hex state id detail
  apply_swap_event state (replace_funding_attestation leg old evidence id at detail) =
      replace_swap_funding_attestation sha256_hex state leg old evidence id at detail
  apply_swap_event state (replace_spend_attestation leg old evidence id at detail) =
      replace_swap_spend_attestation sha256_hex state leg old evidence id at detail

  -- The events one after another, up to the first that throws.
  unfoldable pub apply_swap_events : SwapState → List SwapEventPayload → Result SwapState
  apply_swap_events state [] = ok state
  apply_swap_events state (event ∷ events) =
      apply_swap_event state event >>= λ next. apply_swap_events next events
