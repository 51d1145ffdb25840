-- ===== src/SwapDomain/Markets.antt =====
-- The market policies of src/lib/swap-domain.ts.
use phlebas.Base.{
  Bool, true, false, not, ◌&&◌, ◌||◌, List, [], ◌∷◌, ◌++◌, map, Result, ok, ◌>>=◌, ◌>>◌, throw_if,
  ◌==◌, without_value, all_checks,
}
use phlebas.Base.Sort.{sort}
use phlebas.Base.Text.{text_le}
use phlebas.OrderDomain.{Text, same_text}
use phlebas.PriceTime.{has_text}
use phlebas.SwapDomain.{
  SwapTerms, SwapMarketIdentity, SwapMarketPolicy, canonical_zcash_chain, canonical_quote_chain,
  canonical_zec_asset, canonical_quote_asset,
}
use phlebas.SwapDomain.Terms.{Hashed, market_policy, validate_swap_terms}

abbrev pub is_empty_list {ℓ} : {A : Type ℓ} → List A → Bool
is_empty_list [] = true
is_empty_list (x ∷ xs) = false

-- `new Set(texts).size !== texts.length`.
unfoldable pub has_duplicate : List Text → Bool
has_duplicate [] = false
has_duplicate (t ∷ ts) = has_text ts t || has_duplicate ts

-- Every text is the one at its place in the other list.
unfoldable pub same_texts : List Text → List Text → Bool
same_texts [] [] = true
same_texts [] (u ∷ us) = false
same_texts (t ∷ ts) [] = false
same_texts (t ∷ ts) (u ∷ us) = same_text t u && same_texts ts us

-- `texts.some((text, index) => text !== sorted[index])`, with the sorted texts.
unfoldable pub is_unsorted : List Text → Bool
is_unsorted ts = not (same_texts ts (sort text_le ts))

-- Lines 237 to 244: the market is returned as it is.
unfoldable pub check_market : SwapMarketIdentity → Result (Unit {0})
check_market market = all_checks (
    without_value (canonical_zcash_chain market.zec_chain)
    ∷ without_value (canonical_quote_chain market.quote_chain)
    ∷ without_value (canonical_zec_asset market.zec_asset market.zec_chain)
    ∷ without_value (canonical_quote_asset market.quote_asset market.quote_chain)
    ∷ [])

unfoldable pub market_key : SwapMarketIdentity → Text
market_key market =
    market.zec_chain
    ++ b'|' ∷ market.zec_asset
    ++ b'|' ∷ market.quote_chain
    ++ b'|' ∷ market.quote_asset

unfoldable pub validate_swap_market_policy : SwapMarketPolicy → Result SwapMarketPolicy
validate_swap_market_policy policy =
    throw_if (not (policy.version == 1)) "Unsupported market policy version"
    >> throw_if (is_empty_list policy.markets)
        "Market policy must approve at least one exact market"
    >> all_checks (map check_market policy.markets)
    >> throw_if (has_duplicate (map market_key policy.markets))
        "Market policy contains duplicate identities"
    >> throw_if (is_unsorted (map market_key policy.markets))
        "Market policy identities must be sorted canonically"
    >> ok policy

unfoldable pub is_market_of : SwapTerms → List SwapMarketIdentity → Bool
is_market_of terms [] = false
is_market_of terms (m ∷ ms) =
    (same_text m.zec_chain terms.zec_chain
      && same_text m.zec_asset terms.zec_asset
      && same_text m.quote_chain terms.quote_chain
      && same_text m.quote_asset terms.quote_asset)
    || is_market_of terms ms

module _ (sha256_hex : Hashed → Text) where
  unfoldable pub hash_swap_market_policy : SwapMarketPolicy → Result Text
  hash_swap_market_policy policy = validate_swap_market_policy policy >>= λ validated.
      ok (sha256_hex (market_policy validated.markets))

  unfoldable pub assert_approved_swap_market :
      SwapTerms → SwapMarketPolicy → Result SwapMarketPolicy
  assert_approved_swap_market terms policy = validate_swap_terms sha256_hex terms >>= λ valid.
      validate_swap_market_policy policy >>= λ valid_policy.
      hash_swap_market_policy valid_policy >>= λ hash.
      throw_if (not (same_text hash valid.market_policy_id))
        "Market policy does not match signed terms"
      >> throw_if (not (is_market_of valid valid_policy.markets))
          "Swap market is not approved by the signed market policy"
      >> ok valid_policy
