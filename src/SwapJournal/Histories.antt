-- ===== src/SwapJournal/Histories.antt =====
-- Sequences of events of a swap (src/lib/swap-journal.ts, src/lib/swap-state.ts).
use phlebas.Base.{
  true, >>=-returned, ok-injective, List, [], ◌∷◌, ok, ◌≡◌, refl, sym, subst, ◌∙◌, Yields,
}
use phlebas.OrderDomain.{Text}
use phlebas.SwapDomain.Terms.{Hashed}
use phlebas.Swap.{SwapLegPhase, SwapState}
use phlebas.Swap.Legs.{requires_confirmed_spend}
use phlebas.Swap.Moves.{Keeps, Moves-Keeps, LegsMove}
use phlebas.SwapJournal.{SwapEventPayload, apply_swap_event, apply_swap_events}
use phlebas.SwapJournal.Transitions.{apply_swap_event-LegsMove}

Keeps-transitive : (p q r : SwapLegPhase) → Keeps p q → Keeps q r → Keeps p r
Keeps-transitive p q r first second = (
  λ h. second.0 (first.0 h),
  λ h. second.1 (first.1 h),
  λ h.
      let same = first.2 h in
      second.2 (subst (λ x. requires_confirmed_spend x ≡ true) (sym same) h) ∙ same,
)

-- What is kept of both legs.
abbrev pub LegsKeep : SwapState → SwapState → Type 0
LegsKeep state next = Keeps state.zec.phase next.zec.phase × Keeps state.evm.phase next.evm.phase

module _ (sha256_hex : Hashed → Text) where
  apply_swap_event-LegsKeep :
      (state next : SwapState) (event : SwapEventPayload)
      → apply_swap_event sha256_hex state event ≡ ok next
      → LegsKeep state next
  apply_swap_event-LegsKeep state next event h =
      let moves =
        subst (Yields (LegsMove state)) h (apply_swap_event-LegsMove sha256_hex state event) in
      (Moves-Keeps _ _ moves.0, Moves-Keeps _ _ moves.1)

  -- After any events that are applied one after another, a leg in a claim phase is in a claim phase
  -- still, a leg in a refund phase is in a refund phase still, and a leg whose claim or refund is
  -- confirmed has not moved: no leg is both claimed and refunded.
  pub apply_swap_events-LegsKeep :
      (state next : SwapState) (events : List SwapEventPayload)
      → apply_swap_events sha256_hex state events ≡ ok next
      → LegsKeep state next
  unfolding apply_swap_events
  apply_swap_events-LegsKeep state next [] h =
      subst (LegsKeep state) (ok-injective h)
        ((λ x. x, λ x. x, λ x. refl), (λ x. x, λ x. x, λ x. refl))
  apply_swap_events-LegsKeep state next (event ∷ events) h =
      let (mid, first, rest) =
        >>=-returned (apply_swap_event sha256_hex state event)
          (λ s. apply_swap_events sha256_hex s events) next h in
      let one = apply_swap_event-LegsKeep state mid event first in
      let more = apply_swap_events-LegsKeep mid next events rest in
      (Keeps-transitive _ _ _ one.0 more.0, Keeps-transitive _ _ _ one.1 more.1)
