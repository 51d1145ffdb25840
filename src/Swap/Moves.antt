-- ===== src/Swap/Moves.antt =====
-- The moves of a leg from phase to phase (src/lib/swap-state.ts).
use phlebas.Base.{true, false, not, ◌||◌, ◌≡◌, refl, arith}
use phlebas.Swap.{
  SwapLegPhase, unfunded, funding_prepared, funding_seen, funded_confirmed, claim_seen,
  claimed_confirmed, refund_seen, refunded_confirmed, SwapLegState, SwapState, leg_of, with_leg,
}
use phlebas.Swap.Legs.{
  is_unfunded, is_prepared, is_funding_seen, is_funded_confirmed, is_claim_seen, is_refund_seen,
  requires_funding, is_claim_phase, is_refund_phase, requires_confirmed_spend,
}
use phlebas.Swap.Observations.{seen_phase, is_seen_phase, confirmed_phase}
use phlebas.SwapDomain.Terms.{SwapLeg, zec, evm, SpendAction, claim, refund}

pub data Moves : SwapLegPhase → SwapLegPhase → Type 0 where
  stays : {p : SwapLegPhase} → Moves p p
  prepares : Moves unfunded funding_prepared
  abandons : Moves funding_prepared unfunded
  sees_funding : Moves funding_prepared funding_seen
  confirms_funding : Moves funding_seen funded_confirmed
  sees_claim : Moves funded_confirmed claim_seen
  sees_refund : Moves funded_confirmed refund_seen
  confirms_claim : Moves claim_seen claimed_confirmed
  confirms_refund : Moves refund_seen refunded_confirmed

pub Moves-stays : (p : SwapLegPhase) → Moves p p
Moves-stays p = stays

-- The moves that the guards of the operations allow.
pub Moves-prepares : (p : SwapLegPhase) → not (is_unfunded p) ≡ false → Moves p funding_prepared
Moves-prepares unfunded h = prepares
Moves-prepares _ h = cc

pub Moves-abandons : (p : SwapLegPhase) → is_prepared p ≡ true → Moves p unfunded
Moves-abandons funding_prepared h = abandons
Moves-abandons _ h = cc

pub Moves-empties : (p : SwapLegPhase) → requires_funding p ≡ false → Moves p unfunded
Moves-empties unfunded h = stays
Moves-empties funding_prepared h = abandons
Moves-empties _ h = cc

pub Moves-sees_funding :
    (p : SwapLegPhase) → not (is_prepared p || is_funding_seen p) ≡ false → Moves p funding_seen
Moves-sees_funding funding_prepared h = sees_funding
Moves-sees_funding funding_seen h = stays
Moves-sees_funding _ h = cc

pub Moves-confirms_funding :
    (p : SwapLegPhase) → not (is_funding_seen p) ≡ false → Moves p funded_confirmed
Moves-confirms_funding funding_seen h = confirms_funding
Moves-confirms_funding _ h = cc

pub Moves-sees_spend :
    (action : SpendAction) (p : SwapLegPhase)
    → not (is_funded_confirmed p || is_seen_phase action p) ≡ false
    → Moves p (seen_phase action)
Moves-sees_spend claim funded_confirmed h = sees_claim
Moves-sees_spend claim claim_seen h = stays
Moves-sees_spend claim _ h = cc
Moves-sees_spend refund funded_confirmed h = sees_refund
Moves-sees_spend refund refund_seen h = stays
Moves-sees_spend refund _ h = cc

pub Moves-confirms_spend :
    (p : SwapLegPhase)
    → not (is_claim_seen p || is_refund_seen p) ≡ false
    → Moves p (confirmed_phase p)
Moves-confirms_spend claim_seen h = confirms_claim
Moves-confirms_spend refund_seen h = confirms_refund
Moves-confirms_spend _ h = cc

-- Both legs move, or stay.
abbrev pub LegsMove : SwapState → SwapState → Type 0
LegsMove state next = Moves state.zec.phase next.zec.phase × Moves state.evm.phase next.evm.phase

pub with_leg-LegsMove :
    (state : SwapState) (leg : SwapLeg) (current : SwapLegState)
    → Moves (leg_of state leg).phase current.phase
    → LegsMove state (with_leg state leg current)
with_leg-LegsMove state zec current m = (m, stays)
with_leg-LegsMove state evm current m = (stays, m)

-- A claim is not followed by a refund, nor a refund by a claim, and a confirmed spend is the end.
abbrev pub Keeps : SwapLegPhase → SwapLegPhase → Type 0
Keeps p q =
    (is_claim_phase p ≡ true → is_claim_phase q ≡ true)
    × (is_refund_phase p ≡ true → is_refund_phase q ≡ true)
    × (requires_confirmed_spend p ≡ true → q ≡ p)

pub Moves-Keeps : (p q : SwapLegPhase) → Moves p q → Keeps p q
Moves-Keeps p q stays = (λ h. h, λ h. h, λ h. refl)
Moves-Keeps p q prepares = ground arith
Moves-Keeps p q abandons = ground arith
Moves-Keeps p q sees_funding = ground arith
Moves-Keeps p q confirms_funding = ground arith
Moves-Keeps p q sees_claim = ground arith
Moves-Keeps p q sees_refund = ground arith
Moves-Keeps p q confirms_claim = ground arith
Moves-Keeps p q confirms_refund = ground arith
