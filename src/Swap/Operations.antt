-- ===== src/Swap/Operations.antt =====
-- The operations of src/lib/swap-state.ts that need no evidence: creation, authorization, preparation,
-- abandonment and expiry. Each first asserts the integrity of the state that it is given.
use phlebas.Base.{
  ℕ, Bool, not, ◌||◌, [], none, some, Result, ok, ◌>>=◌, ◌>>◌, throw_if, ltb, leb, if◌then◌else◌,
  without_value,
}
use phlebas.Base.Entries.{or_else}
use phlebas.OrderDomain.{Text, same_text}
use phlebas.SwapDomain.{
  SwapTerms, SwapMarketPolicy, SwapRole, zec_seller, stablecoin_seller, is_there, role_for_party,
}
use phlebas.SwapDomain.Terms.{
  SwapTimingPolicy, SwapLeg, zec, evm, Hashed, hash_swap_terms, swap_id_for_terms,
}
use phlebas.SwapDomain.Markets.{assert_approved_swap_market}
use phlebas.SwapPolicy.{
  SwapEvidencePolicies, assert_swap_timing_policy, assert_swap_evidence_policies,
}
use phlebas.Swap.{
  funding_prepared, SwapLegState, SwapState, empty_leg, leg_of, with_leg, uint64, canonical_id,
  canonical_detail, all_authorized, latest_authorization_time,
}
use phlebas.Swap.Legs.{is_unfunded, is_prepared, is_funded_confirmed, requires_funding}
use phlebas.Swap.Resolutions.{is_text_of}
use phlebas.Swap.Integrity.{assert_swap_state_integrity, assert_not_disputed}

-- `Object.hasOwn(state.authorizations, role)`.
abbrev pub has_authorized : SwapState → SwapRole → Bool
has_authorized state zec_seller = is_there state.authorizations.zec_seller
has_authorized state stablecoin_seller = is_there state.authorizations.stablecoin_seller

-- `{ ...state, authorizations: { ...state.authorizations, [role]: nowSeconds } }`.
abbrev pub with_authorization : SwapState → SwapRole → ℕ → SwapState
with_authorization state zec_seller now = record state {
  authorizations = record state.authorizations { zec_seller = some now };
}
with_authorization state stablecoin_seller now = record state {
  authorizations = record state.authorizations { stablecoin_seller = some now };
}

-- Lines 786 to 798.
unfoldable pub check_window_open : SwapState → SwapLeg → ℕ → Result (Unit {0})
check_window_open state zec now = latest_authorization_time state >>= λ authorized.
    throw_if (ltb now authorized) "Funding preparation cannot predate exact terms authorization"
    >> throw_if (leb state.terms.zec_fund_by now) "ZEC funding cutoff has passed"
check_window_open state evm now =
    throw_if (not (is_funded_confirmed state.zec.phase))
      "EVM funding requires confirmed ZEC funding"
    >> latest_authorization_time state
    >>= λ authorized.
        throw_if (ltb now authorized) "Funding preparation cannot predate exact terms authorization"
        >> throw_if (ltb now (or_else state.zec.funding_confirmed_at_seconds 0))
            "EVM funding preparation cannot predate policy-confirmed ZEC funding"
        >> throw_if (ltb state.terms.evm_fund_by now || leb state.terms.evm_claim_safety_cutoff now)
            "Safe EVM funding window has closed"

abbrev pub prepared_leg : Text → ℕ → SwapLegState
prepared_leg artifact_hash now = record empty_leg {
  phase = funding_prepared;
  funding_artifact_hash = some artifact_hash;
  funding_prepared_at_seconds = some now;
}

-- Lines 833 to 834.
abbrev pub has_chain_evidence : SwapState → Bool
has_chain_evidence state = requires_funding state.zec.phase || requires_funding state.evm.phase

module _ (sha256_hex : Hashed → Text) where
  unfoldable pub create_swap_state :
      SwapTerms → SwapTimingPolicy → SwapEvidencePolicies → SwapMarketPolicy → Result SwapState
  create_swap_state terms timing evidence market =
      assert_swap_timing_policy sha256_hex terms timing >>= λ valid.
      assert_approved_swap_market sha256_hex valid market >>= λ valid_market.
      assert_swap_evidence_policies sha256_hex valid evidence >>= λ valid_evidence.
      hash_swap_terms sha256_hex valid >>= λ hash. swap_id_for_terms sha256_hex valid >>= λ id.
      ok (record {
        terms = valid;
        terms_hash = hash;
        swap_id = id;
        timing_policy = timing;
        market_policy = valid_market;
        evidence_policies = valid_evidence;
        authorizations = record { zec_seller = none; stablecoin_seller = none };
        zec = empty_leg;
        evm = empty_leg;
        observed_secret = none;
        observed_secret_fact_id = none;
        confirmed_secret = none;
        confirmed_secret_fact_id = none;
        terminal = none;
        disputes = [];
        resolutions = [];
        retracted_evidence_ids = [];
      })

  unfoldable pub authorize_swap_terms : SwapState → Text → Text → ℕ → Result SwapState
  authorize_swap_terms state party_id terms_hash now =
      without_value (assert_swap_state_integrity sha256_hex state)
      >> throw_if (is_there state.terminal) "Swap is terminal; no further transitions are allowed"
      >> without_value (uint64 now)
      >> throw_if (leb state.terms.authorization_deadline now)
          "Swap authorization deadline has passed"
      >> canonical_id terms_hash
      >>= λ hash.
          throw_if (not (same_text hash state.terms_hash)) "Authorized terms hash does not match"
          >> role_for_party state.terms party_id
          >>= λ role.
              ok (if has_authorized state role then state else with_authorization state role now)

  unfoldable pub prepare_swap_funding : SwapState → SwapLeg → Text → ℕ → Result SwapState
  prepare_swap_funding state leg artifact_hash now =
      assert_not_disputed sha256_hex state
      >> without_value (uint64 now)
      >> throw_if (not (all_authorized state))
          "Both parties must authorize exact swap terms before funding"
      >> throw_if (not (is_unfunded (leg_of state leg).phase))
          "funding is already prepared or observed"
      >> check_window_open state leg now
      >> canonical_id artifact_hash
      >>= λ hash. ok (with_leg state leg (prepared_leg hash now))

  unfoldable pub abandon_swap_funding : SwapState → SwapLeg → Text → ℕ → Result SwapState
  abandon_swap_funding state leg artifact_hash occurred_at =
      assert_not_disputed sha256_hex state
      >> without_value (uint64 occurred_at)
      >> throw_if
          (not (is_prepared (leg_of state leg).phase)
            || not (is_there (leg_of state leg).funding_artifact_hash))
          "has no unbroadcast funding artifact to abandon"
      >> canonical_id artifact_hash
      >>= λ hash.
          throw_if (not (is_text_of (leg_of state leg).funding_artifact_hash hash))
            "Funding abandonment does not match the prepared artifact"
          >> ok (with_leg state leg empty_leg)

  unfoldable pub expire_swap : SwapState → ℕ → Text → Result SwapState
  expire_swap state occurred_at reason =
      assert_not_disputed sha256_hex state
      >> without_value (uint64 occurred_at)
      >> without_value (canonical_detail reason)
      >> throw_if (has_chain_evidence state)
          "A swap with observed chain evidence must use claim or refund recovery"
      >> throw_if
          (ltb occurred_at (
            if all_authorized state
            then state.terms.zec_fund_by
            else state.terms.authorization_deadline))
          "Swap cannot expire before its active signed deadline"
      >> ok (record state {
        zec = empty_leg;
        evm = empty_leg;
        terminal = some (record { occurred_at_seconds = occurred_at; reason = reason });
      })
