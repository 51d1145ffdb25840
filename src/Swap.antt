-- ===== src/Swap.antt =====
-- src/lib/swap-state.ts: the state of a swap of ZEC against a stablecoin in two legs. The records
-- have exactly their fields, so that the checks on unknown or undefined fields, on plain objects and
-- on the type of a value never throw; `Object.freeze` changes no value.
pub mod Attestations
pub mod Evidence
pub mod Legs
pub mod Resolutions
pub mod Integrity
pub mod Inversion
pub mod Moves
pub mod Payments
pub mod Outcomes
pub mod Preparation
pub mod Quorum
pub mod Fixtures
pub mod Operations
pub mod Observations
pub mod Recovery
pub mod Phase
use phlebas.Base.{
  ℕ, Bool, true, false, not, ◌&&◌, ◌||◌, List, [], ◌∷◌, ◌++◌, Option, none, some, Result, ok, err,
  ◌>>=◌, ◌>>◌, throw_if, ltb, leb, ◌==◌, if◌then◌else◌, uint64_max, length, String,
}
use phlebas.OrderDomain.{Text, same_text, normalize_hex32}
use phlebas.PriceTime.{has_text}
use phlebas.SwapDomain.{SwapTerms, SwapMarketPolicy, SwapRole, zero_hex, is_there}
use phlebas.SwapDomain.Terms.{SwapTimingPolicy, SwapLeg, zec, evm, UnsignedFunding, UnsignedSpend}
use phlebas.SwapPolicy.{SwapEvidencePolicies, is_untrimmed}

pub data SwapLegPhase : Type 0 where
  unfunded funding_prepared funding_seen funded_confirmed claim_seen claimed_confirmed refund_seen
        refunded_confirmed :
      SwapLegPhase

pub record FundingFact : Type 0 where
  pub fact_id : Text
  pub unsigned : UnsignedFunding

pub record SpendFact : Type 0 where
  pub fact_id : Text
  pub unsigned : UnsignedSpend

pub record ObserverAttestation : Type 0 where
  pub evidence_id : Text
  pub fact_id : Text
  pub source_id : Text
  pub observer_policy_id : Text
  pub finality_policy_id : Text
  pub observed_at_seconds : ℕ
  pub tip_block_hash : Text
  pub tip_block_height : ℕ

pub record FundingEvidence : Type 0 where
  pub fact : FundingFact
  pub attestation : ObserverAttestation

pub record SpendEvidence : Type 0 where
  pub fact : SpendFact
  pub attestation : ObserverAttestation

pub record SwapLegState : Type 0 where
  pub phase : SwapLegPhase
  pub funding_artifact_hash : Option Text
  pub funding_prepared_at_seconds : Option ℕ
  pub funding : Option FundingFact
  pub funding_attestations : Option (List ObserverAttestation)
  pub funding_confirmed_at_seconds : Option ℕ
  pub spend : Option SpendFact
  pub spend_attestations : Option (List ObserverAttestation)
  pub spend_confirmed_at_seconds : Option ℕ

pub record Authorizations : Type 0 where
  pub zec_seller : Option ℕ
  pub stablecoin_seller : Option ℕ

pub data SwapDisputeReason : Type 0 where
  observer_conflict observer_stale reorganization semantic_mismatch : SwapDisputeReason

pub record SwapDispute : Type 0 where
  pub reason : SwapDisputeReason
  pub evidence_id : Option Text
  pub detail : Text

pub data EvidenceKind : Type 0 where
  funding_kind spend_kind : EvidenceKind

pub record SwapEvidenceResolution : Type 0 where
  pub resolution_id : Text
  pub leg : SwapLeg
  pub evidence_kind : EvidenceKind
  pub fact_id : Text
  pub retracted_evidence_id : Text
  pub retracted_source_id : Text
  pub retracted_attestation : ObserverAttestation
  pub replacement_evidence_id : Text
  pub replacement_source_id : Text
  pub replacement_attestation : ObserverAttestation
  pub occurred_at_seconds : ℕ
  pub detail : Text

-- The only kind is "expired".
pub record Terminal : Type 0 where
  pub occurred_at_seconds : ℕ
  pub reason : Text

-- The retracted evidence IDs are the keys of a map to `true`.
pub record SwapState : Type 0 where
  pub terms : SwapTerms
  pub terms_hash : Text
  pub swap_id : Text
  pub timing_policy : SwapTimingPolicy
  pub market_policy : SwapMarketPolicy
  pub evidence_policies : SwapEvidencePolicies
  pub authorizations : Authorizations
  pub zec : SwapLegState
  pub evm : SwapLegState
  pub observed_secret : Option Text
  pub observed_secret_fact_id : Option Text
  pub confirmed_secret : Option Text
  pub confirmed_secret_fact_id : Option Text
  pub terminal : Option Terminal
  pub disputes : List SwapDispute
  pub resolutions : List SwapEvidenceResolution
  pub retracted_evidence_ids : List Text

abbrev pub empty_leg : SwapLegState
empty_leg = record {
  phase = unfunded;
  funding_artifact_hash = none;
  funding_prepared_at_seconds = none;
  funding = none;
  funding_attestations = none;
  funding_confirmed_at_seconds = none;
  spend = none;
  spend_attestations = none;
  spend_confirmed_at_seconds = none;
}

-- `state[leg]`, and `{ ...state, [leg]: next }`.
abbrev pub leg_of : SwapState → SwapLeg → SwapLegState
leg_of state zec = state.zec
leg_of state evm = state.evm

abbrev pub with_leg : SwapState → SwapLeg → SwapLegState → SwapState
with_leg state zec next = record state { zec = next }
with_leg state evm next = record state { evm = next }

-- `list ?? []`.
abbrev pub list_of {ℓ} : {A : Type ℓ} → Option (List A) → List A
list_of none = []
list_of (some xs) = xs

-- `xs.some(test)`, and `xs.find(test)`.
unfoldable pub any_of {ℓ} : {A : Type ℓ} → (A → Bool) → List A → Bool
any_of test [] = false
any_of test (x ∷ xs) = test x || any_of test xs

unfoldable pub find_in {ℓ} : {A : Type ℓ} → (A → Bool) → List A → Option A
find_in test [] = none
find_in test (x ∷ xs) = if test x then some x else find_in test xs

unfoldable pub uint64 : ℕ → Result ℕ
uint64 value = throw_if (ltb uint64_max value) "must fit uint64" >> ok value

-- `uint64(value, label, false)`.
unfoldable pub nonzero_uint64 : ℕ → Result ℕ
nonzero_uint64 value = throw_if (value == 0 || ltb uint64_max value) "must fit uint64" >> ok value

unfoldable pub canonical_id : Text → Result Text
canonical_id value = normalize_hex32 value >>= λ normalized.
    throw_if (not (same_text normalized value)) "must be canonical"
    >> throw_if (same_text normalized (zero_hex 64)) "cannot be zero"
    >> ok normalized

unfoldable pub canonical_detail : Text → Result Text
canonical_detail detail =
    throw_if (length detail == 0 || ltb 500 (length detail) || is_untrimmed detail)
      "must be a non-empty canonical message"
    >> ok detail

unfoldable pub observer_attestations : SwapState → List ObserverAttestation
observer_attestations state =
    list_of state.zec.funding_attestations
    ++ list_of state.zec.spend_attestations
    ++ list_of state.evm.funding_attestations
    ++ list_of state.evm.spend_attestations

abbrev pub has_id : Text → ObserverAttestation → Bool
has_id id attestation = same_text attestation.evidence_id id

unfoldable pub has_observer_attestation : SwapState → Text → Bool
has_observer_attestation state evidence_id =
    any_of (has_id evidence_id) (observer_attestations state)

unfoldable pub is_retracted : SwapState → Text → Bool
is_retracted state evidence_id = has_text state.retracted_evidence_ids evidence_id

-- The later of two times that are both there (lines 433 to 435).
unfoldable pub later_of : Option ℕ → Option ℕ → Option ℕ
later_of (some a) (some b) = some (if ltb b a then a else b)
later_of (some a) none = none
later_of none b = none

unfoldable pub all_authorized : SwapState → Bool
all_authorized state =
    is_there state.authorizations.zec_seller && is_there state.authorizations.stablecoin_seller

-- `a ?? throw`.
abbrev pub or_throw {ℓ} : {A : Type ℓ} → Option A → String → Result A
or_throw none message = err message
or_throw (some a) message = ok a

unfoldable pub latest_authorization_time : SwapState → Result ℕ
latest_authorization_time state =
    or_throw (later_of state.authorizations.zec_seller state.authorizations.stablecoin_seller)
      "Both parties have not authorized exact swap terms"
