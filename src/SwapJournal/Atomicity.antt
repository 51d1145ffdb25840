-- ===== src/SwapJournal/Atomicity.antt =====
-- The order of the legs after any events from the creation of a swap (src/lib/swap-state.ts,
-- src/lib/swap-journal.ts).
use phlebas.Base.{List, [], ◌∷◌, ok, ◌≡◌, subst, Yields, arith, >>=-returned, ok-injective}
use phlebas.OrderDomain.{Text}
use phlebas.SwapDomain.{SwapTerms, SwapMarketPolicy}
use phlebas.SwapDomain.Terms.{SwapTimingPolicy, Hashed}
use phlebas.SwapPolicy.{SwapEvidencePolicies}
use phlebas.Swap.{SwapState}
use phlebas.Swap.Operations.{create_swap_state}
use phlebas.SwapJournal.{
  SwapEventPayload, authorize_terms, prepare_funding, abandon_funding, expire, observe_funding,
  confirm_funding, observe_spend, confirm_spend, flag_dispute, retract_evidence,
  replace_funding_attestation, replace_spend_attestation, apply_swap_event, apply_swap_events,
}
use phlebas.SwapJournal.Order.{
  IsOrdered, authorize_swap_terms-IsOrdered, prepare_swap_funding-IsOrdered,
  abandon_swap_funding-IsOrdered, expire_swap-IsOrdered, observe_swap_funding-IsOrdered,
  confirm_swap_funding-IsOrdered, observe_swap_spend-IsOrdered, confirm_swap_spend-IsOrdered,
  flag_swap_dispute-IsOrdered, retract_swap_evidence-IsOrdered,
  replace_swap_funding_attestation-IsOrdered, replace_swap_spend_attestation-IsOrdered,
}

module _ (sha256_hex : Hashed → Text) where
  apply_swap_event-IsOrdered :
      (state : SwapState) (event : SwapEventPayload)
      → Yields IsOrdered (apply_swap_event sha256_hex state event)
  unfolding apply_swap_event
  apply_swap_event-IsOrdered state (authorize_terms party hash at) =
      authorize_swap_terms-IsOrdered sha256_hex state party hash at
  apply_swap_event-IsOrdered state (prepare_funding leg hash at) =
      prepare_swap_funding-IsOrdered sha256_hex state leg hash at
  apply_swap_event-IsOrdered state (abandon_funding leg hash at) =
      abandon_swap_funding-IsOrdered sha256_hex state leg hash at
  apply_swap_event-IsOrdered state (expire at reason) =
      expire_swap-IsOrdered sha256_hex state at reason
  apply_swap_event-IsOrdered state (observe_funding evidence) =
      observe_swap_funding-IsOrdered sha256_hex state evidence
  apply_swap_event-IsOrdered state (confirm_funding leg id at) =
      confirm_swap_funding-IsOrdered sha256_hex state leg id at
  apply_swap_event-IsOrdered state (observe_spend evidence) =
      observe_swap_spend-IsOrdered sha256_hex state evidence
  apply_swap_event-IsOrdered state (confirm_spend leg id at) =
      confirm_swap_spend-IsOrdered sha256_hex state leg id at
  apply_swap_event-IsOrdered state (flag_dispute reason detail id) =
      flag_swap_dispute-IsOrdered sha256_hex state reason detail id
  apply_swap_event-IsOrdered state (retract_evidence id detail) =
      retract_swap_evidence-IsOrdered sha256_hex state id detail
  apply_swap_event-IsOrdered state (replace_funding_attestation leg old evidence id at detail) =
      replace_swap_funding_attestation-IsOrdered sha256_hex state leg old evidence id at detail
  apply_swap_event-IsOrdered state (replace_spend_attestation leg old evidence id at detail) =
      replace_swap_spend_attestation-IsOrdered sha256_hex state leg old evidence id at detail

  pub apply_swap_events-IsOrdered :
      (state next : SwapState) (events : List SwapEventPayload)
      → IsOrdered state
      → apply_swap_events sha256_hex state events ≡ ok next
      → IsOrdered next
  unfolding apply_swap_events
  apply_swap_events-IsOrdered state next [] o h = subst IsOrdered (ok-injective h) o
  apply_swap_events-IsOrdered state next (event ∷ events) o h =
      let (mid, first, rest) =
        >>=-returned (apply_swap_event sha256_hex state event)
          (λ s. apply_swap_events sha256_hex s events) next h in
      apply_swap_events-IsOrdered mid next events
        (subst (Yields IsOrdered) first (apply_swap_event-IsOrdered state event)) rest

  create_swap_state-IsOrdered :
      (terms : SwapTerms) (timing : SwapTimingPolicy) (evidence : SwapEvidencePolicies)
      (market : SwapMarketPolicy)
      → Yields IsOrdered (create_swap_state sha256_hex terms timing evidence market)
  unfolding create_swap_state
  create_swap_state-IsOrdered terms timing evidence market = ground arith

  -- From the creation of a swap on, after any events that are applied one after another, the EVM leg
  -- has left its unfunded phase only if the ZEC funding is confirmed, and the ZEC leg is in a claim
  -- phase only if the EVM claim is confirmed and its secret recorded.
  pub created_swap-IsOrdered :
      (terms : SwapTerms) (timing : SwapTimingPolicy) (evidence : SwapEvidencePolicies)
      (market : SwapMarketPolicy) (state next : SwapState) (events : List SwapEventPayload)
      → create_swap_state sha256_hex terms timing evidence market ≡ ok state
      → apply_swap_events sha256_hex state events ≡ ok next
      → IsOrdered next
  created_swap-IsOrdered terms timing evidence market state next events c h =
      apply_swap_events-IsOrdered state next events
        (subst (Yields IsOrdered) c (create_swap_state-IsOrdered terms timing evidence market)) h
