-- ===== src/SwapJournal/Appending.antt =====
-- An append to a journal (src/lib/swap-journal.ts).
use phlebas.Base.{
  ◌+◌, Bool, true, false, ◌||◌, List, [], ◌∷◌, ◌++◌, none, ok, ◌≡◌, refl, sym, subst, ap, ◌∙◌,
  Yields, Result-cases, >>=-returned, ok-injective, inl, inr, arith, all_checks,
}
use phlebas.OrderDomain.{Text, same_text}
use phlebas.OrderDomain.Canonical.{same_text_iff}
use phlebas.PriceTime.{has_text}
use phlebas.SwapDomain.Terms.{Hashed}
use phlebas.SwapDomain.Markets.{same_texts}
use phlebas.Swap.{SwapState, any_of, find_in}
use phlebas.SwapJournal.{SwapEventPayload, apply_swap_event}
use phlebas.SwapJournal.Receipts.{
  SemanticSlot, same_slot, swap_event_semantic_slot, UnsignedReceipt, SwapEventReceipt, SwapJournal,
  journal_hex32, EventParts, check_event_parts,
}
use phlebas.SwapJournal.Verified.{root_of, journal_hex32_same}
use phlebas.SwapJournal.Chain.{
  Progress, hash_swap_event, check_receipt, verify_receipt, verify_receipts,
}

pub same_text_refl : (t : Text) → same_text t t ≡ true
same_text_refl t = ground (arith, same_text_iff t t)

same_texts_refl : (ts : List Text) → same_texts ts ts ≡ true
unfolding same_texts
same_texts_refl [] = refl
same_texts_refl (t ∷ ts) = ground (arith, same_text_refl t, same_texts_refl ts)

same_slot_refl : (s : SemanticSlot) → same_slot s s ≡ true
unfolding same_slot
same_slot_refl s = ground (arith, same_text_refl s.kind, same_texts_refl s.parts)

same_text_comm : (s t : Text) → same_text s t ≡ same_text t s
same_text_comm s t = ground (arith, same_text_iff s t, same_text_iff t s)

same_texts_comm : (ss ts : List Text) → same_texts ss ts ≡ same_texts ts ss
unfolding same_texts
same_texts_comm [] [] = refl
same_texts_comm [] (t ∷ ts) = refl
same_texts_comm (s ∷ ss) [] = refl
same_texts_comm (s ∷ ss) (t ∷ ts) = ground (arith, same_text_comm s t, same_texts_comm ss ts)

same_slot_comm : (l r : SemanticSlot) → same_slot l r ≡ same_slot r l
unfolding same_slot
same_slot_comm l r = ground (arith, same_text_comm l.kind r.kind, same_texts_comm l.parts r.parts)

or_swap : (a b c : Bool) → (a || (b || c)) ≡ ((b || a) || c)
or_swap a b c = ground arith

-- The payload hash and the slot of a receipt.
abbrev pub has_payload : Text → SwapEventReceipt → Bool
has_payload hash r = same_text r.unsigned.payload_hash hash

abbrev pub has_slot : SemanticSlot → SwapEventReceipt → Bool
has_slot slot r = same_slot r.unsigned.semantic_slot slot

pub find_in-none {ℓ} :
    {A : Type ℓ} (p : A → Bool) (xs : List A) → find_in p xs ≡ none → any_of p xs ≡ false
unfolding find_in any_of
find_in-none p [] h = refl
find_in-none p (x ∷ xs) h = ground (arith, find_in-none p xs)

module _ (sha256_hex : Hashed → Text) (payload_sha256 : SwapEventPayload → Text)
    (event_sha256 : EventParts → Text) (state_sha256 : SwapState → Text) where
  -- The loop does not read the receipts, the head or the next sequence of the journal.
  verify_receipt_of :
      (journal other : SwapJournal) (at : Progress) (r : SwapEventReceipt)
      → other.swap_id ≡ journal.swap_id
      → other.terms_hash ≡ journal.terms_hash
      → verify_receipt sha256_hex payload_sha256 event_sha256 state_sha256 other at r
        ≡ verify_receipt sha256_hex payload_sha256 event_sha256 state_sha256 journal at r
  unfolding verify_receipt check_receipt
  verify_receipt_of journal other at r i t = rw (i, t) refl

  pub verify_receipts-append :
      (journal other : SwapJournal) (rs : List SwapEventReceipt) (r : SwapEventReceipt)
      (at end last : Progress)
      → other.swap_id ≡ journal.swap_id
      → other.terms_hash ≡ journal.terms_hash
      → verify_receipts sha256_hex payload_sha256 event_sha256 state_sha256 journal at rs ≡ ok end
      → verify_receipt sha256_hex payload_sha256 event_sha256 state_sha256 journal end r ≡ ok last
      → verify_receipts sha256_hex payload_sha256 event_sha256 state_sha256 other at (rs ++ r ∷ [])
        ≡ ok last
  unfolding verify_receipts
  verify_receipts-append journal other [] r at end last i t h k =
      ground (arith, h, k, verify_receipt_of journal other at r i t)
  verify_receipts-append journal other (x ∷ rs) r at end last i t h k =
      let (next, first, rest) =
        >>=-returned
          (verify_receipt sha256_hex payload_sha256 event_sha256 state_sha256 journal at x)
          (λ p. verify_receipts sha256_hex payload_sha256 event_sha256 state_sha256 journal p rs)
          end h in
      ground (
        arith,
        first,
        verify_receipt_of journal other at x i t,
        verify_receipts-append journal other rs r next end last i t rest k,
      )

  verify_receipt_sets :
      (journal : SwapJournal) (at next : Progress) (r : SwapEventReceipt)
      → verify_receipt sha256_hex payload_sha256 event_sha256 state_sha256 journal at r ≡ ok next
      → (next.payloads ≡ r.unsigned.payload_hash ∷ at.payloads)
        × (next.slots ≡ r.unsigned.semantic_slot ∷ at.slots)
  unfolding verify_receipt
  verify_receipt_sets journal at next r h = ground arith

  -- What the sets hold after the loop.
  pub verify_receipts_sets :
      (journal : SwapJournal) (hash : Text) (slot : SemanticSlot) (rs : List SwapEventReceipt)
      (at end : Progress)
      → verify_receipts sha256_hex payload_sha256 event_sha256 state_sha256 journal at rs ≡ ok end
      → (has_text end.payloads hash ≡ (any_of (has_payload hash) rs || has_text at.payloads hash))
        × (any_of (same_slot slot) end.slots
            ≡ (any_of (has_slot slot) rs || any_of (same_slot slot) at.slots))
  unfolding verify_receipts any_of has_text
  verify_receipts_sets journal hash slot [] at end h = (
    ap (λ p. has_text p.payloads hash) (sym (ok-injective h)),
    ap (λ p. any_of (same_slot slot) p.slots) (sym (ok-injective h)),
  )
  verify_receipts_sets journal hash slot (x ∷ rs) at end h =
      let (next, first, rest) =
        >>=-returned
          (verify_receipt sha256_hex payload_sha256 event_sha256 state_sha256 journal at x)
          (λ p. verify_receipts sha256_hex payload_sha256 event_sha256 state_sha256 journal p rs)
          end h in
      let (payloads, slots) = verify_receipt_sets journal at next x first in
      let (more_payloads, more_slots) = verify_receipts_sets journal hash slot rs next end rest in
      (
        more_payloads
            ∙ ap (λ ps. any_of (has_payload hash) rs || has_text ps hash) payloads
            ∙ or_swap (any_of (has_payload hash) rs) (same_text x.unsigned.payload_hash hash)
                (has_text at.payloads hash),
        more_slots
            ∙ ap (λ ss. any_of (has_slot slot) rs || any_of (same_slot slot) ss) slots
            ∙ ap (λ b. any_of (has_slot slot) rs || (b || any_of (same_slot slot) at.slots))
                (same_slot_comm slot x.unsigned.semantic_slot)
            ∙ or_swap (any_of (has_slot slot) rs) (same_slot x.unsigned.semantic_slot slot)
                (any_of (same_slot slot) at.slots),
      )

  -- The receipt that an append makes.
  abbrev pub new_receipt :
      SwapJournal → SwapState → SwapEventPayload → Text → Text → Text → SwapEventReceipt
  new_receipt journal state payload prior root hash = record {
    unsigned = record {
      version = 1;
      sequence = journal.next_sequence;
      swap_id = state.swap_id;
      terms_hash = state.terms_hash;
      previous_event_hash = journal.head;
      prior_state_root = prior;
      next_state_root = root;
      payload = payload;
      payload_hash = payload_sha256 payload;
      semantic_slot = swap_event_semantic_slot payload;
    };
    event_hash = hash;
  }

  -- A hash of an event has canonical parts.
  hash_swap_event_root :
      (r : UnsignedReceipt) (hash : Text)
      → hash_swap_event sha256_hex payload_sha256 event_sha256 state_sha256 r ≡ ok hash
      → journal_hex32 r.next_state_root ≡ ok r.next_state_root
  unfolding hash_swap_event check_event_parts all_checks
  hash_swap_event_root r hash h = elim (Result-cases (journal_hex32 r.next_state_root)) [
    | inl (v, e) ↦ e ∙ ap ok (subst (Yields _) e (journal_hex32_same r.next_state_root))
    | inr (m, e) ↦ ground arith
  ]

  pub new_receipt_verified :
      (journal : SwapJournal) (at : Progress) (state next : SwapState) (payload : SwapEventPayload)
      (prior root hash : Text)
      → journal.next_sequence ≡ at.sequence
      → same_text journal.swap_id state.swap_id ≡ true
      → same_text journal.terms_hash state.terms_hash ≡ true
      → same_text journal.head at.previous ≡ true
      → same_text prior at.state_root ≡ true
      → has_text at.payloads (payload_sha256 payload) ≡ false
      → any_of (same_slot (swap_event_semantic_slot payload)) at.slots ≡ false
      → hash_swap_event sha256_hex payload_sha256 event_sha256 state_sha256
          (new_receipt journal state payload prior root hash).unsigned
        ≡ ok hash
      → apply_swap_event sha256_hex at.state payload ≡ ok next
      → root_of sha256_hex payload_sha256 event_sha256 state_sha256 next ≡ ok root
      → verify_receipt sha256_hex payload_sha256 event_sha256 state_sha256 journal at
          (new_receipt journal state payload prior root hash)
        ≡ ok (record {
          state = next;
          state_root = root;
          previous = hash;
          sequence = at.sequence + 1;
          payloads = payload_sha256 payload ∷ at.payloads;
          slots = swap_event_semantic_slot payload ∷ at.slots;
        })
  unfolding verify_receipt check_receipt all_checks
  new_receipt_verified journal at state next payload prior root hash s i t p q np ns h a f =
      ground (
        arith,
        hash_swap_event_root (new_receipt journal state payload prior root hash).unsigned hash h,
        same_text_comm journal.swap_id state.swap_id,
        same_text_comm journal.terms_hash state.terms_hash,
        same_text_refl hash,
        same_text_refl root,
        same_text_refl (payload_sha256 payload),
        same_slot_refl (swap_event_semantic_slot payload),
      )
