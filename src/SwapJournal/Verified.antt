-- ===== src/SwapJournal/Verified.antt =====
-- What a journal that `verifySwapJournal` accepts is good for (src/lib/swap-journal.ts,
-- src/lib/swap-replay.ts).
use phlebas.Base.{
  true, List, [], ◌∷◌, map, Result, ok, ◌≡◌, subst, ap, Yields, Result-cases, >>=-returned,
  ok-injective, inl, inr, arith, all_checks,
}
use phlebas.OrderDomain.{Text, same_text, normalize_hex32}
use phlebas.OrderDomain.Canonical.{same_text_iff}
use phlebas.SwapDomain.{zero_hex}
use phlebas.SwapDomain.Terms.{Hashed}
use phlebas.Swap.{SwapState}
use phlebas.SwapJournal.{SwapEventPayload, apply_swap_event, apply_swap_events}
use phlebas.SwapJournal.Order.{IsOrdered}
use phlebas.SwapJournal.Atomicity.{apply_swap_events-IsOrdered}
use phlebas.SwapJournal.Receipts.{
  SwapEventReceipt, SwapJournal, journal_hex32, is_pristine, EventParts,
}
use phlebas.SwapJournal.Chain.{
  Progress, swap_state_root, assert_genesis_swap_state, check_receipt, verify_receipt,
  verify_receipts, check_swap_journal, verify_swap_journal, replay_receipts, replay_swap_journal,
}

pub journal_hex32_same : (value : Text) → Yields (λ v. v ≡ value) (journal_hex32 value)
unfolding journal_hex32
journal_hex32_same value = elim (Result-cases (normalize_hex32 value)) [
  | inl (n, e) ↦ ground (arith, same_text_iff n value)
  | inr (m, e) ↦ ground arith
]

-- The events that are on record.
abbrev pub payloads_of : List SwapEventReceipt → List SwapEventPayload
payloads_of receipts = map (λ r. r.unsigned.payload) receipts

module _ (sha256_hex : Hashed → Text) (payload_sha256 : SwapEventPayload → Text)
    (event_sha256 : EventParts → Text) (state_sha256 : SwapState → Text) where
  abbrev pub root_of : SwapState → Result Text
  root_of = swap_state_root sha256_hex payload_sha256 event_sha256 state_sha256

  pub verify_receipt_lem :
      (journal : SwapJournal) (at next : Progress) (r : SwapEventReceipt)
      → verify_receipt sha256_hex payload_sha256 event_sha256 state_sha256 journal at r ≡ ok next
      → (apply_swap_event sha256_hex at.state r.unsigned.payload ≡ ok next.state)
        × (root_of next.state ≡ ok next.state_root)
        × (r.unsigned.prior_state_root ≡ at.state_root)
        × (r.unsigned.next_state_root ≡ next.state_root)
  unfolding verify_receipt check_receipt all_checks
  verify_receipt_lem journal at next r h =
      elim (Result-cases (apply_swap_event sha256_hex at.state r.unsigned.payload)) [
        | inl (state, e) ↦ elim (Result-cases (root_of state)) [
          | inl (root, f) ↦ ground (
            arith,
            same_text_iff root r.unsigned.next_state_root,
            same_text_iff r.unsigned.prior_state_root at.state_root,
            journal_hex32_same r.unsigned.next_state_root,
          )
          | inr (m, f) ↦ ground arith
        ]
        | inr (m, e) ↦ ground arith
      ]

  -- The receipts that are verified are replayed.
  pub verify_receipts_lem :
      (journal : SwapJournal) (rs : List SwapEventReceipt) (at end : Progress)
      → root_of at.state ≡ ok at.state_root
      → verify_receipts sha256_hex payload_sha256 event_sha256 state_sha256 journal at rs ≡ ok end
      → (replay_receipts sha256_hex payload_sha256 event_sha256 state_sha256 at.state rs
          ≡ ok end.state)
        × (apply_swap_events sha256_hex at.state (payloads_of rs) ≡ ok end.state)
  unfolding verify_receipts replay_receipts apply_swap_events
  verify_receipts_lem journal [] at end root h =
      (ap (λ p. ok p.state) (ok-injective h), ap (λ p. ok p.state) (ok-injective h))
  verify_receipts_lem journal (r ∷ rs) at end root h =
      let (next, first, rest) =
        >>=-returned
          (verify_receipt sha256_hex payload_sha256 event_sha256 state_sha256 journal at r)
          (λ p. verify_receipts sha256_hex payload_sha256 event_sha256 state_sha256 journal p rs)
          end h in
      let (applied, root', prior, later) = verify_receipt_lem journal at next r first in
      let (replayed, all) = verify_receipts_lem journal rs next end root' rest in
      (
        ground (
          arith,
          root,
          applied,
          root',
          prior,
          later,
          replayed,
          same_text_iff r.unsigned.prior_state_root at.state_root,
          same_text_iff r.unsigned.next_state_root next.state_root,
        ),
        ground (arith, applied, all),
      )

  abbrev pub start_of : SwapJournal → Text → Progress
  start_of journal root = record {
    state = journal.initial_state;
    state_root = root;
    previous = zero_hex 64;
    sequence = 1;
    payloads = [];
    slots = [];
  }

  -- What a check of the journal says of its start.
  abbrev pub IsStarted : SwapJournal → Type 0
  IsStarted journal =
      (same_text journal.initial_state.swap_id journal.swap_id ≡ true)
      × (same_text journal.initial_state.terms_hash journal.terms_hash ≡ true)
      × (is_pristine journal.initial_state ≡ true)
      × (root_of journal.initial_state ≡ ok journal.initial_state_root)

  pub check_swap_journal_parts :
      (journal : SwapJournal)
      → check_swap_journal sha256_hex payload_sha256 event_sha256 state_sha256 journal ≡ ok tt
      → (end : Progress) × (verify_receipts sha256_hex payload_sha256 event_sha256 state_sha256
            journal
            (start_of journal journal.initial_state_root)
            journal.receipts
          ≡ ok end)
        × IsStarted journal
  unfolding check_swap_journal assert_genesis_swap_state
  check_swap_journal_parts journal h =
      elim (Result-cases (journal_hex32 journal.initial_state_root)) [
        | inl (root, e) ↦
            let same = subst (Yields _) e (journal_hex32_same journal.initial_state_root) in
            elim (Result-cases (root_of journal.initial_state)) [
              | inl (initial, f) ↦
                  elim (Result-cases (
                    verify_receipts sha256_hex payload_sha256 event_sha256 state_sha256 journal
                      (start_of journal root) journal.receipts)) [
                        | inl (end, g) ↦ (
                          end,
                          subst
                              (λ t.
                                verify_receipts sha256_hex payload_sha256 event_sha256 state_sha256
                                  journal (start_of journal t) journal.receipts
                                ≡ ok end)
                              same g,
                          (
                            ground arith,
                            ground arith,
                            ground arith,
                            ground (arith, same_text_iff initial root),
                          ),
                        )
                        | inr (m, g) ↦ absurd (ground arith)
                      ]
              | inr (m, f) ↦ absurd (ground arith)
            ]
        | inr (m, e) ↦ absurd (ground arith)
      ]

  pub verified_check :
      (journal : SwapJournal)
      → verify_swap_journal sha256_hex payload_sha256 event_sha256 state_sha256 journal ≡ true
      → check_swap_journal sha256_hex payload_sha256 event_sha256 state_sha256 journal ≡ ok tt
  unfolding verify_swap_journal
  verified_check journal v = ground arith

  pristine-IsOrdered : (state : SwapState) → is_pristine state ≡ true → IsOrdered state
  pristine-IsOrdered state p = (ground arith, ground arith, ground arith)

  -- Where a journal is verified, it can be replayed from its initial state: the replay returns the
  -- state to which its events lead one after another, in which the legs are in order.
  pub verify_swap_journal-replays :
      (journal : SwapJournal)
      → verify_swap_journal sha256_hex payload_sha256 event_sha256 state_sha256 journal ≡ true
      → (state : SwapState) × (replay_swap_journal sha256_hex payload_sha256 event_sha256
            state_sha256 journal.initial_state journal
          ≡ ok state)
        × (apply_swap_events sha256_hex journal.initial_state (payloads_of journal.receipts)
            ≡ ok state)
        × IsOrdered state
  unfolding replay_swap_journal
  verify_swap_journal-replays journal v =
      let (end, run, (swap, terms, pristine, root)) =
        check_swap_journal_parts journal (verified_check journal v) in
      let (replayed, applied) =
        verify_receipts_lem journal journal.receipts (start_of journal journal.initial_state_root)
          end root run in
      (
        end.state,
        ground (
          arith,
          v,
          swap,
          terms,
          root,
          replayed,
          same_text_iff journal.initial_state.swap_id journal.swap_id,
          same_text_iff journal.swap_id journal.initial_state.swap_id,
          same_text_iff journal.initial_state.terms_hash journal.terms_hash,
          same_text_iff journal.terms_hash journal.initial_state.terms_hash,
          same_text_iff journal.initial_state_root journal.initial_state_root,
        ),
        applied,
        apply_swap_events-IsOrdered sha256_hex journal.initial_state end.state
            (payloads_of journal.receipts) (pristine-IsOrdered journal.initial_state pristine)
            applied,
      )
