-- ===== src/SwapJournal/Chain.antt =====
-- Appending to the journal of src/lib/swap-journal.ts, verifying it, and replaying it
-- (src/lib/swap-replay.ts). The SHA-256 of a payload, of the parts of an event and of an encoded state
-- are parameters.
use phlebas.Base.{
  ℕ, ◌+◌, Bool, true, false, not, ◌||◌, List, [], ◌∷◌, ◌++◌, Option, none, some, Result, ok, err,
  ◌>>=◌, ◌>>◌, throw_if, ◌==◌, without_value, all_checks,
}
use phlebas.OrderDomain.{Text, same_text}
use phlebas.PriceTime.{has_text}
use phlebas.SwapDomain.{zero_hex}
use phlebas.SwapDomain.Terms.{Hashed}
use phlebas.Swap.{SwapState, any_of, find_in}
use phlebas.Swap.Integrity.{assert_swap_state_integrity}
use phlebas.SwapJournal.{SwapEventPayload, apply_swap_event}
use phlebas.SwapJournal.Receipts.{
  SemanticSlot, swap_event_semantic_slot, same_slot, UnsignedReceipt, SwapEventReceipt, SwapJournal,
  journal_hex32, is_pristine, last_root, EventParts, check_event_parts,
}

-- What an append returns.
pub record Appended : Type 0 where
  pub journal : SwapJournal
  pub state : SwapState
  pub receipt : SwapEventReceipt
  pub appended : Bool

-- Where the loop of `verifySwapJournal` stands, with its two sets.
pub record Progress : Type 0 where
  pub state : SwapState
  pub state_root : Text
  pub previous : Text
  pub sequence : ℕ
  pub payloads : List Text
  pub slots : List SemanticSlot

-- `try { ...; return true; } catch { return false; }`.
abbrev pub succeeds {ℓ} : {A : Type ℓ} → Result A → Bool
succeeds (ok a) = true
succeeds (err e) = false

module _ (sha256_hex : Hashed → Text) (payload_sha256 : SwapEventPayload → Text)
    (event_sha256 : EventParts → Text) (state_sha256 : SwapState → Text) where
  -- The encoded state has hashes of policies that the integrity of the state has computed already.
  unfoldable pub swap_state_root : SwapState → Result Text
  swap_state_root state =
      assert_swap_state_integrity sha256_hex state >>= λ valid. ok (state_sha256 valid)

  unfoldable pub hash_swap_event : UnsignedReceipt → Result Text
  hash_swap_event receipt =
      all_checks (check_event_parts receipt)
      >> ok (
          event_sha256 (record {
            version = receipt.version;
            sequence = receipt.sequence;
            hashes =
                receipt.swap_id ∷ receipt.terms_hash ∷ receipt.previous_event_hash
                ∷ receipt.prior_state_root ∷ receipt.next_state_root ∷ receipt.payload_hash ∷ [];
            semantic_slot = receipt.semantic_slot;
          }))

  unfoldable pub assert_genesis_swap_state : SwapState → Result (Unit {0})
  assert_genesis_swap_state state =
      without_value (assert_swap_state_integrity sha256_hex state)
      >> throw_if (not (is_pristine state))
          "A swap journal must begin from the pristine created state"

  unfoldable pub empty_swap_journal : SwapState → Result SwapJournal
  empty_swap_journal state = assert_genesis_swap_state state >> swap_state_root state >>= λ root.
      ok (record {
        swap_id = state.swap_id;
        terms_hash = state.terms_hash;
        initial_state = state;
        initial_state_root = root;
        receipts = [];
        head = zero_hex 64;
        next_sequence = 1;
      })

  -- Lines 376 to 381, up to the hash of the event.
  unfoldable pub check_receipt : SwapJournal → Progress → UnsignedReceipt → List (Result (Unit {0}))
  check_receipt journal at r =
      throw_if (not (r.version == 1) || not (r.sequence == at.sequence)) "sequence"
      ∷ throw_if
          (not (same_text r.swap_id journal.swap_id)
            || not (same_text r.terms_hash journal.terms_hash)
            || not (same_text r.previous_event_hash at.previous))
          "link"
      ∷ throw_if (not (same_text r.prior_state_root at.state_root)) "prior state root"
      ∷ throw_if (not (same_text r.payload_hash (payload_sha256 r.payload))) "payload hash"
      ∷ throw_if (not (same_slot r.semantic_slot (swap_event_semantic_slot r.payload))) "slot"
      ∷ throw_if
          (has_text at.payloads r.payload_hash || any_of (same_slot r.semantic_slot) at.slots)
          "replayed event"
      ∷ []

  -- The body of the loop of `verifySwapJournal`.
  unfoldable pub verify_receipt : SwapJournal → Progress → SwapEventReceipt → Result Progress
  verify_receipt journal at r =
      all_checks (check_receipt journal at r.unsigned) >> hash_swap_event r.unsigned >>= λ hash.
      throw_if (not (same_text r.event_hash hash)) "event hash"
      >> apply_swap_event sha256_hex at.state r.unsigned.payload
      >>= λ next. swap_state_root next >>= λ root.
          throw_if (not (same_text root r.unsigned.next_state_root)) "next state root"
          >> journal_hex32 r.unsigned.next_state_root
          >>= λ canonical. ok (record {
            state = next;
            state_root = canonical;
            previous = r.event_hash;
            sequence = at.sequence + 1;
            payloads = r.unsigned.payload_hash ∷ at.payloads;
            slots = r.unsigned.semantic_slot ∷ at.slots;
          })

  unfoldable pub verify_receipts : SwapJournal → Progress → List SwapEventReceipt → Result Progress
  verify_receipts journal at [] = ok at
  verify_receipts journal at (r ∷ rs) =
      verify_receipt journal at r >>= λ next. verify_receipts journal next rs

  -- Lines 363 to 403, of which the result is `true` where they return.
  unfoldable pub check_swap_journal : SwapJournal → Result (Unit {0})
  check_swap_journal journal =
      without_value (journal_hex32 journal.swap_id)
      >> without_value (journal_hex32 journal.terms_hash)
      >> journal_hex32 journal.initial_state_root
      >>= λ root.
          throw_if
            (not (same_text journal.initial_state.swap_id journal.swap_id)
              || not (same_text journal.initial_state.terms_hash journal.terms_hash))
            "initial state"
          >> assert_genesis_swap_state journal.initial_state
          >> swap_state_root journal.initial_state
          >>= λ initial.
              throw_if (not (same_text initial root)) "initial state root"
              >> verify_receipts journal
                  (record {
                    state = journal.initial_state;
                    state_root = root;
                    previous = zero_hex 64;
                    sequence = 1;
                    payloads = [];
                    slots = [];
                  })
                  journal.receipts
              >>= λ end. swap_state_root end.state >>= λ last.
                  throw_if
                    (not (same_text journal.head end.previous)
                      || not (journal.next_sequence == end.sequence)
                      || not (same_text last end.state_root))
                    "end of the journal"

  unfoldable pub verify_swap_journal : SwapJournal → Bool
  verify_swap_journal journal = succeeds (check_swap_journal journal)

  -- Lines 333 to 358.
  unfoldable pub append_fresh : SwapJournal → SwapState → SwapEventPayload → Text → Result Appended
  append_fresh journal state payload prior = apply_swap_event sha256_hex state payload >>= λ next.
      swap_state_root next >>= λ root.
      let unsigned : UnsignedReceipt = record {
        version = 1;
        sequence = journal.next_sequence;
        swap_id = state.swap_id;
        terms_hash = state.terms_hash;
        previous_event_hash = journal.head;
        prior_state_root = prior;
        next_state_root = root;
        payload = payload;
        payload_hash = payload_sha256 payload;
        semantic_slot = swap_event_semantic_slot payload;
      } in
      hash_swap_event unsigned >>= λ hash. ok (record {
        journal = record journal {
          receipts = journal.receipts ++ record { unsigned = unsigned; event_hash = hash } ∷ [];
          head = hash;
          next_sequence = journal.next_sequence + 1;
        };
        state = next;
        receipt = record { unsigned = unsigned; event_hash = hash };
        appended = true;
      })

  -- Lines 328 to 331, with the receipt of the same payload, if there is one.
  unfoldable pub append_unless :
      SwapJournal → SwapState → SwapEventPayload → Text → Option SwapEventReceipt → Result Appended
  append_unless journal state payload prior (some duplicate) =
      ok (record { journal = journal; state = state; receipt = duplicate; appended = false })
  append_unless journal state payload prior none =
      throw_if
        (any_of (λ r. same_slot r.unsigned.semantic_slot (swap_event_semantic_slot payload))
          journal.receipts)
        "Conflicting event occupies the same semantic slot"
      >> append_fresh journal state payload prior

  unfoldable pub append_swap_event : SwapJournal → SwapState → SwapEventPayload → Result Appended
  append_swap_event journal state payload =
      throw_if (not (verify_swap_journal journal)) "Cannot append to an invalid swap journal"
      >> throw_if
          (not (same_text journal.swap_id state.swap_id)
            || not (same_text journal.terms_hash state.terms_hash))
          "Swap journal does not bind the supplied state"
      >> swap_state_root state
      >>= λ prior.
          throw_if (not (same_text prior (last_root journal.initial_state_root journal.receipts)))
            "Supplied swap state does not match the journal head"
          >> append_unless journal state payload prior (
              find_in (λ r. same_text r.unsigned.payload_hash (payload_sha256 payload))
                journal.receipts)

  -- The loop of `replaySwapJournal`.
  unfoldable pub replay_receipts : SwapState → List SwapEventReceipt → Result SwapState
  replay_receipts state [] = ok state
  replay_receipts state (r ∷ rs) = swap_state_root state >>= λ prior.
      throw_if (not (same_text r.unsigned.prior_state_root prior))
        "Swap event prior state root does not match replay"
      >> apply_swap_event sha256_hex state r.unsigned.payload
      >>= λ next. swap_state_root next >>= λ root.
          throw_if (not (same_text r.unsigned.next_state_root root))
            "Swap event next state root does not match replay"
          >> replay_receipts next rs

  unfoldable pub replay_swap_journal : SwapState → SwapJournal → Result SwapState
  replay_swap_journal initial journal =
      throw_if (not (verify_swap_journal journal)) "Swap journal is invalid"
      >> throw_if
          (not (same_text journal.swap_id initial.swap_id)
            || not (same_text journal.terms_hash initial.terms_hash))
          "Swap journal does not bind the initial state"
      >> swap_state_root initial
      >>= λ root.
          throw_if (not (same_text journal.initial_state_root root))
            "Swap journal initial state root does not match"
          >> replay_receipts initial journal.receipts
