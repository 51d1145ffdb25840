-- ===== src/SwapJournal/Appended.antt =====
-- A journal that is verified stays verified under appends (src/lib/swap-journal.ts).
use phlebas.Base.{
  ◌+◌, true, false, [], ◌∷◌, ◌++◌, Option, none, some, ok, ◌≡◌, refl, sym, subst, ap, ◌∙◌, throw_if,
  Yields, Result-cases, >>-returned, throw_if-returned, ok-injective, inl, inr, arith,
}
use phlebas.OrderDomain.{Text, same_text}
use phlebas.OrderDomain.Canonical.{same_text_iff}
use phlebas.PriceTime.{has_text}
use phlebas.SwapDomain.Terms.{Hashed}
use phlebas.Swap.{SwapState, any_of, find_in}
use phlebas.SwapJournal.{SwapEventPayload, apply_swap_event, apply_swap_events}
use phlebas.SwapJournal.Receipts.{
  EventParts, SwapEventReceipt, SwapJournal, journal_hex32, swap_event_semantic_slot,
}
use phlebas.SwapJournal.Chain.{
  Appended, Progress, append_fresh, append_unless, append_swap_event, hash_swap_event,
  verify_receipts, check_swap_journal, verify_swap_journal,
}
use phlebas.SwapJournal.Verified.{
  payloads_of, root_of, start_of, journal_hex32_same, verify_receipts_lem, check_swap_journal_parts,
  verified_check,
}
use phlebas.SwapJournal.Appending.{
  has_payload, has_slot, new_receipt, find_in-none, verify_receipts-append, verify_receipts_sets,
  new_receipt_verified, same_text_refl,
}

module _ (sha256_hex : Hashed → Text) (payload_sha256 : SwapEventPayload → Text)
    (event_sha256 : EventParts → Text) (state_sha256 : SwapState → Text) where
  -- The journal with one receipt more.
  abbrev extended : SwapJournal → SwapEventReceipt → SwapJournal
  extended journal r = record journal {
    receipts = journal.receipts ++ r ∷ [];
    head = r.event_hash;
    next_sequence = journal.next_sequence + 1;
  }

  check_end :
      (journal : SwapJournal)
      → check_swap_journal sha256_hex payload_sha256 event_sha256 state_sha256 journal ≡ ok tt
      → (end : Progress) × (verify_receipts sha256_hex payload_sha256 event_sha256 state_sha256
            journal
            (start_of sha256_hex payload_sha256 event_sha256 state_sha256 journal
              journal.initial_state_root)
            journal.receipts
          ≡ ok end)
        × (same_text journal.head end.previous ≡ true)
        × (journal.next_sequence ≡ end.sequence)
        × (root_of sha256_hex payload_sha256 event_sha256 state_sha256 end.state
            ≡ ok end.state_root)
  unfolding check_swap_journal
  check_end journal h = elim (Result-cases (journal_hex32 journal.initial_state_root)) [
    | inl (root, e) ↦
        let same = subst (Yields _) e (journal_hex32_same journal.initial_state_root) in
        elim (Result-cases (
          verify_receipts sha256_hex payload_sha256 event_sha256 state_sha256 journal
            (start_of sha256_hex payload_sha256 event_sha256 state_sha256 journal root)
            journal.receipts)) [
              | inl (end, g) ↦ (
                end,
                subst
                    (λ t.
                      verify_receipts sha256_hex payload_sha256 event_sha256 state_sha256 journal
                        (start_of sha256_hex payload_sha256 event_sha256 state_sha256 journal t)
                        journal.receipts
                      ≡ ok end)
                    same g,
                ground arith,
                ground arith,
                elim (Result-cases
                    (root_of sha256_hex payload_sha256 event_sha256 state_sha256 end.state)) [
                      | inl (last, k) ↦ ground (arith, same_text_iff last end.state_root)
                      | inr (m, k) ↦ ground arith
                    ],
              )
              | inr (m, g) ↦ absurd (ground arith)
            ]
    | inr (m, e) ↦ absurd (ground arith)
  ]

  check_extended :
      (journal : SwapJournal) (r : SwapEventReceipt) (last : Progress)
      → check_swap_journal sha256_hex payload_sha256 event_sha256 state_sha256 journal ≡ ok tt
      → verify_receipts sha256_hex payload_sha256 event_sha256 state_sha256
          (extended journal r)
          (start_of sha256_hex payload_sha256 event_sha256 state_sha256 journal
            journal.initial_state_root)
          (journal.receipts ++ r ∷ [])
        ≡ ok last
      → last.previous ≡ r.event_hash
      → last.sequence ≡ journal.next_sequence + 1
      → root_of sha256_hex payload_sha256 event_sha256 state_sha256 last.state ≡ ok last.state_root
      → check_swap_journal sha256_hex payload_sha256 event_sha256 state_sha256 (extended journal r)
        ≡ ok tt
  unfolding check_swap_journal
  check_extended journal r last h run p s f =
      elim (Result-cases (journal_hex32 journal.initial_state_root)) [
        | inl (root, e) ↦
            let same = subst (Yields _) e (journal_hex32_same journal.initial_state_root) in
            let here =
              subst
                (λ t.
                  verify_receipts sha256_hex payload_sha256 event_sha256 state_sha256
                    (extended journal r)
                    (start_of sha256_hex payload_sha256 event_sha256 state_sha256 journal t)
                    (journal.receipts ++ r ∷ [])
                  ≡ ok last)
                (sym same) run in
            ground (
              arith,
              h,
              e,
              here,
              p,
              s,
              f,
              same_text_iff r.event_hash last.previous,
              same_text_iff last.state_root last.state_root,
            )
        | inr (m, e) ↦ ground arith
      ]

  succeeded :
      (journal : SwapJournal)
      → check_swap_journal sha256_hex payload_sha256 event_sha256 state_sha256 journal ≡ ok tt
      → verify_swap_journal sha256_hex payload_sha256 event_sha256 state_sha256 journal ≡ true
  unfolding verify_swap_journal
  succeeded journal h = ground (arith, h)

  -- What an append of a fresh event returns.
  made_of :
      (journal : SwapJournal) (state : SwapState) (payload : SwapEventPayload) (prior : Text)
      (next : SwapState) (root hash : Text) (a : Appended)
      → apply_swap_event sha256_hex state payload ≡ ok next
      → root_of sha256_hex payload_sha256 event_sha256 state_sha256 next ≡ ok root
      → hash_swap_event sha256_hex payload_sha256 event_sha256 state_sha256
          (new_receipt sha256_hex payload_sha256 event_sha256 state_sha256 journal state payload
            prior root []).unsigned
        ≡ ok hash
      → append_fresh sha256_hex payload_sha256 event_sha256 state_sha256 journal state payload prior
        ≡ ok a
      → ok (record {
        journal = extended journal (
            new_receipt sha256_hex payload_sha256 event_sha256 state_sha256 journal state payload
              prior root hash);
        state = next;
        receipt =
            new_receipt sha256_hex payload_sha256 event_sha256 state_sha256 journal state payload
              prior root hash;
        appended = true;
      })
        ≡ ok a
  unfolding append_fresh
  made_of journal state payload prior next root hash a e f g h = sym (simp (e, f, g)) ∙ h

  -- A fresh event: what an append does past its tests.
  append_fresh-verified :
      (journal : SwapJournal) (state : SwapState) (payload : SwapEventPayload) (prior : Text)
      (a : Appended)
      → check_swap_journal sha256_hex payload_sha256 event_sha256 state_sha256 journal ≡ ok tt
      → apply_swap_events sha256_hex journal.initial_state (payloads_of journal.receipts) ≡ ok state
      → same_text journal.swap_id state.swap_id ≡ true
      → same_text journal.terms_hash state.terms_hash ≡ true
      → root_of sha256_hex payload_sha256 event_sha256 state_sha256 state ≡ ok prior
      → any_of (has_payload (payload_sha256 payload)) journal.receipts ≡ false
      → any_of (has_slot (swap_event_semantic_slot payload)) journal.receipts ≡ false
      → append_fresh sha256_hex payload_sha256 event_sha256 state_sha256 journal state payload prior
        ≡ ok a
      → (verify_swap_journal sha256_hex payload_sha256 event_sha256 state_sha256 a.journal ≡ true)
        × (apply_swap_events sha256_hex a.journal.initial_state (payloads_of a.journal.receipts)
            ≡ ok a.state)
  unfolding append_fresh has_text any_of
  append_fresh-verified journal state payload prior a c ev i t root fp fs h =
      let start =
        start_of sha256_hex payload_sha256 event_sha256 state_sha256 journal
          journal.initial_state_root in
      let (end, run, head, seq, end_root) = check_end journal c in
      let (_, _, (_, _, _, start_root)) =
        check_swap_journal_parts sha256_hex payload_sha256 event_sha256 state_sha256 journal c in
      let (_, applied) =
        verify_receipts_lem sha256_hex payload_sha256 event_sha256 state_sha256 journal
          journal.receipts start end start_root run in
      let same : state ≡ end.state = ok-injective (sym ev ∙ applied) in
      let prior_root : prior ≡ end.state_root = ok-injective (
        sym root
        ∙ ap (root_of sha256_hex payload_sha256 event_sha256 state_sha256) same
        ∙ end_root) in
      let (payloads, slots) =
        verify_receipts_sets sha256_hex payload_sha256 event_sha256 state_sha256 journal
          (payload_sha256 payload) (swap_event_semantic_slot payload) journal.receipts start end
          run in
      elim (Result-cases (apply_swap_event sha256_hex state payload)) [
        | inl (next, e2) ↦
            elim (Result-cases (root_of sha256_hex payload_sha256 event_sha256 state_sha256 next)) [
              | inl (new_root, e3) ↦
                  elim (Result-cases (
                    hash_swap_event sha256_hex payload_sha256 event_sha256 state_sha256
                      (new_receipt sha256_hex payload_sha256 event_sha256 state_sha256 journal state
                        payload prior new_root []).unsigned)) [
                          | inl (hash, e4) ↦
                              let new =
                                new_receipt sha256_hex payload_sha256 event_sha256 state_sha256
                                  journal state payload prior new_root hash in
                              let last : Progress = record {
                                state = next;
                                state_root = new_root;
                                previous = hash;
                                sequence = end.sequence + 1;
                                payloads = payload_sha256 payload ∷ end.payloads;
                                slots = swap_event_semantic_slot payload ∷ end.slots;
                              } in
                              let one =
                                new_receipt_verified sha256_hex payload_sha256 event_sha256
                                  state_sha256 journal end state next payload prior new_root hash
                                  seq i t head
                                  (subst (λ r. same_text prior r ≡ true) prior_root
                                    (same_text_refl prior))
                                  (ground (arith, payloads, fp)) (ground (arith, slots, fs)) e4
                                  (subst (λ s. apply_swap_event sha256_hex s payload ≡ ok next) same
                                    e2)
                                  e3 in
                              let more =
                                verify_receipts-append sha256_hex payload_sha256 event_sha256
                                  state_sha256 journal (extended journal new) journal.receipts new
                                  start end last refl refl run one in
                              let checked =
                                check_extended journal new last c more refl
                                  (ap (λ n. n + 1) (sym seq)) e3 in
                              let (_, all) =
                                verify_receipts_lem sha256_hex payload_sha256 event_sha256
                                  state_sha256 (extended journal new) (journal.receipts ++ new ∷ [])
                                  start last start_root more in
                              subst
                                (λ a.
                                  (verify_swap_journal sha256_hex payload_sha256 event_sha256
                                      state_sha256 a.journal
                                    ≡ true)
                                  × (apply_swap_events sha256_hex a.journal.initial_state
                                        (payloads_of a.journal.receipts)
                                      ≡ ok a.state))
                                (ok-injective (
                                  made_of journal state payload prior next new_root hash a e2 e3 e4
                                    h))
                                (succeeded (extended journal new) checked, all)
                          | inr (m, e4) ↦ absurd (ground arith)
                        ]
              | inr (m, e3) ↦ absurd (ground arith)
            ]
        | inr (m, e2) ↦ absurd (ground arith)
      ]

  append_unless-verified :
      (journal : SwapJournal) (state : SwapState) (payload : SwapEventPayload) (prior : Text)
      (a : Appended) (found : Option SwapEventReceipt)
      → find_in (has_payload (payload_sha256 payload)) journal.receipts ≡ found
      → check_swap_journal sha256_hex payload_sha256 event_sha256 state_sha256 journal ≡ ok tt
      → apply_swap_events sha256_hex journal.initial_state (payloads_of journal.receipts) ≡ ok state
      → same_text journal.swap_id state.swap_id ≡ true
      → same_text journal.terms_hash state.terms_hash ≡ true
      → root_of sha256_hex payload_sha256 event_sha256 state_sha256 state ≡ ok prior
      → append_unless sha256_hex payload_sha256 event_sha256 state_sha256 journal state payload
          prior found
        ≡ ok a
      → (verify_swap_journal sha256_hex payload_sha256 event_sha256 state_sha256 a.journal ≡ true)
        × (apply_swap_events sha256_hex a.journal.initial_state (payloads_of a.journal.receipts)
            ≡ ok a.state)
  unfolding append_unless
  append_unless-verified journal state payload prior a (some receipt) q c ev i t root h =
      subst
        (λ a.
          (verify_swap_journal sha256_hex payload_sha256 event_sha256 state_sha256 a.journal ≡ true)
          × (apply_swap_events sha256_hex a.journal.initial_state (payloads_of a.journal.receipts)
              ≡ ok a.state))
        (ok-injective h) (succeeded journal c, ev)
  append_unless-verified journal state payload prior a none q c ev i t root h =
      let (free, fresh) =
        >>-returned
          (throw_if (any_of (has_slot (swap_event_semantic_slot payload)) journal.receipts) _)
          (append_fresh sha256_hex payload_sha256 event_sha256 state_sha256 journal state payload
            prior)
          a h in
      append_fresh-verified journal state payload prior a c ev i t root
        (find_in-none (has_payload (payload_sha256 payload)) journal.receipts q)
        (throw_if-returned _ _ free) fresh

  -- An append to a journal, of an event on the state to which the journal's events lead, gives a
  -- journal that is verified and whose events lead to the state that is returned.
  pub append_swap_event-verified :
      (journal : SwapJournal) (state : SwapState) (payload : SwapEventPayload) (a : Appended)
      → apply_swap_events sha256_hex journal.initial_state (payloads_of journal.receipts) ≡ ok state
      → append_swap_event sha256_hex payload_sha256 event_sha256 state_sha256 journal state payload
        ≡ ok a
      → (verify_swap_journal sha256_hex payload_sha256 event_sha256 state_sha256 a.journal ≡ true)
        × (apply_swap_events sha256_hex a.journal.initial_state (payloads_of a.journal.receipts)
            ≡ ok a.state)
  unfolding append_swap_event
  append_swap_event-verified journal state payload a ev h =
      let valid : verify_swap_journal sha256_hex payload_sha256 event_sha256 state_sha256 journal
          ≡ true =
        ground arith in
      elim (Result-cases (root_of sha256_hex payload_sha256 event_sha256 state_sha256 state)) [
        | inl (prior, e) ↦
            append_unless-verified journal state payload prior a
              (find_in (has_payload (payload_sha256 payload)) journal.receipts) refl
              (verified_check sha256_hex payload_sha256 event_sha256 state_sha256 journal valid) ev
              (ground arith) (ground arith) e (ground arith)
        | inr (m, e) ↦ absurd (ground arith)
      ]
