-- ===== src/Swap/Quorum.antt =====
-- The quorum of observers that `assertPolicyQualified` asks for (src/lib/swap-state.ts).
use phlebas.Base.{
  ℕ, Bool, true, false, ◌&&◌, ◌||◌, List, [], ◌∷◌, ◌++◌, Option, ok, ◌≡◌, refl, sym, subst, ◌≤◌,
  arith, length, keep_if, All, All-append, All-mono, leb, Bool-cases, inl, inr,
}
use phlebas.Base.Entries.{get_entry, set_entry, or_else}
use phlebas.OrderDomain.{Text, same_text}
use phlebas.OrderDomain.Canonical.{same_text_iff}
use phlebas.PriceTime.{has_text}
use phlebas.SwapDomain.Markets.{has_duplicate}
use phlebas.SwapDomain.Terms.{SwapLeg}
use phlebas.Swap.{ObserverAttestation, SwapState, list_of, any_of}
use phlebas.Swap.Attestations.{
  ChainFact, View, same_view, view_of, is_qualifying, add_source, sources_by_view, has_quorum,
  assert_policy_qualified,
}

same_view-≡ : (v w : View) → same_view v w ≡ true → v ≡ w
unfolding same_view
same_view-≡ (h, t) (k, u) e = ground (arith, same_text_iff t u)

has_text-snoc :
    (ts : List Text) (s t : Text) → has_text (ts ++ s ∷ []) t ≡ (has_text ts t || same_text s t)
unfolding has_text
has_text-snoc [] s t = ground arith
has_text-snoc (u ∷ us) s t = ground (arith, has_text-snoc us s t)

same_text_comm : (s t : Text) → same_text s t ≡ same_text t s
same_text_comm s t = ground (arith, same_text_iff s t, same_text_iff t s)

has_duplicate-snoc :
    (ts : List Text) (s : Text)
    → has_duplicate ts ≡ false
    → has_text ts s ≡ false
    → has_duplicate (ts ++ s ∷ []) ≡ false
unfolding has_duplicate has_text
has_duplicate-snoc [] s d h = refl
has_duplicate-snoc (t ∷ ts) s d h =
    ground (arith, has_duplicate-snoc ts s, has_text-snoc ts s t, same_text_comm s t)

-- The sources of a view are distinct, and each of them is good for the view.
module _ (IsGood : View → Text → Type 0) where
  abbrev AreGood : View × List Text → Type 0
  AreGood entry = (has_duplicate entry.1 ≡ false) × All (IsGood entry.0) entry.1

  add_source-AreGood :
      (view : View) (sources : List Text) (source : Text)
      → AreGood (view, sources)
      → IsGood view source
      → AreGood (view, add_source sources source)
  unfolding add_source
  add_source-AreGood view sources source h g = elim (Bool-cases (has_text sources source)) [
    | inl e ↦ simp e h
    | inr e ↦ simp e (
      has_duplicate-snoc sources source h.0 e,
      All-append (IsGood view) sources (source ∷ []) h.1 (g, tt),
    )
  ]

  get_entry-AreGood :
      (made : List (View × List Text)) (view : View)
      → All AreGood made
      → AreGood (view, or_else (get_entry same_view made view) [])
  unfolding get_entry has_duplicate
  get_entry-AreGood [] view h = (refl, tt)
  get_entry-AreGood ((v, sources) ∷ made) view h = elim (Bool-cases (same_view v view)) [
    | inl e ↦ simp e (subst (λ w. AreGood (w, sources)) (same_view-≡ v view e) h.0)
    | inr e ↦ simp e (get_entry-AreGood made view h.1)
  ]

  set_entry-AreGood :
      (made : List (View × List Text)) (view : View) (sources : List Text)
      → All AreGood made
      → AreGood (view, sources)
      → All AreGood (set_entry same_view made view sources)
  unfolding set_entry
  set_entry-AreGood [] view sources h g = (g, tt)
  set_entry-AreGood ((v, old) ∷ made) view sources h g = elim (Bool-cases (same_view v view)) [
    | inl e ↦ simp e (subst (λ w. AreGood (w, sources)) (sym (same_view-≡ v view e)) g, h.1)
    | inr e ↦ simp e (h.0, set_entry-AreGood made view sources h.1 g)
  ]

  sources_by_view-AreGood :
      (reports : List ObserverAttestation) (made : List (View × List Text))
      → All AreGood made
      → All (λ a. IsGood (view_of a) a.source_id) reports
      → All AreGood (sources_by_view made reports)
  unfolding sources_by_view
  sources_by_view-AreGood [] made h g = h
  sources_by_view-AreGood (a ∷ more) made h g =
      sources_by_view-AreGood more _
        (set_entry-AreGood made (view_of a) _ h
          (add_source-AreGood (view_of a) _ a.source_id (get_entry-AreGood made (view_of a) h) g.0))
        g.1

  has_quorum-AreGood :
      (required : ℕ) (entries : List (View × List Text))
      → All AreGood entries
      → has_quorum required entries ≡ true
      → (view : View) × (sources : List Text) × (required ≤ length sources)
        × (has_duplicate sources ≡ false)
        × All (IsGood view) sources
  unfolding has_quorum
  has_quorum-AreGood required [] h q = cc
  has_quorum-AreGood required ((view, sources) ∷ es) h q =
      elim (Bool-cases (leb required (length sources))) [
        | inl e ↦ (view, sources, ground arith, h.0.0, h.0.1)
        | inr e ↦ has_quorum-AreGood required es h.1 (ground arith)
      ]

or_right : (a : Bool) {b : Bool} → b ≡ true → a || b ≡ true
or_right a h = ground arith

-- A report that passes is from the source, and shows the view.
abbrev pub reports_view : (ObserverAttestation → Bool) → View → Text → ObserverAttestation → Bool
reports_view passes view source a =
    passes a && same_view view (view_of a) && same_text a.source_id source

same_view_refl : (v : View) → same_view v v ≡ true
unfolding same_view
same_view_refl (h, t) = ground (arith, same_text_iff t t)

All-keep_if_cons :
    (P : ObserverAttestation → Type 0) (p : ObserverAttestation → Bool) (a : ObserverAttestation)
    (more : List ObserverAttestation)
    → (p a ≡ true → P a)
    → All P (keep_if p more)
    → All P (keep_if p (a ∷ more))
unfolding keep_if
All-keep_if_cons P p a more here later = elim (Bool-cases (p a)) [
  | inl e ↦ simp e (here e, later)
  | inr e ↦ simp e later
]

-- Each report that passes is one of the reports.
kept_reports :
    (passes : ObserverAttestation → Bool) (reports : List ObserverAttestation)
    → All
        (λ a. any_of (reports_view passes (view_of a) a.source_id) reports ≡ true)
        (keep_if passes reports)
unfolding any_of keep_if
kept_reports passes [] = tt
kept_reports passes (a ∷ more) =
    All-keep_if_cons _ passes a more
      (λ e. ground (arith, e, same_view_refl (view_of a), same_text_iff a.source_id a.source_id))
      (All-mono (λ b h. or_right (reports_view passes (view_of b) b.source_id a) h)
        (keep_if passes more) (kept_reports passes more))

-- Where the quorum is there, one view of the chain is shown by at least as many distinct sources as
-- the signed observer policy requires, each by one of the leg's reports that is not retracted, has
-- the confirmations and the age of the finality policy, and is not too old.
pub assert_policy_qualified_quorum :
    (state : SwapState) (leg : SwapLeg) (fact : ChainFact)
    (attestations : Option (List ObserverAttestation)) (at : ℕ)
    → assert_policy_qualified state leg fact attestations at ≡ ok tt
    → (view : View) × (sources : List Text)
      × (state.evidence_policies.observer.required_source_count ≤ length sources)
      × (has_duplicate sources ≡ false)
      × All
          (λ source.
            any_of
              (reports_view (is_qualifying state leg fact at) view source)
              (list_of attestations)
            ≡ true)
          sources
unfolding assert_policy_qualified
assert_policy_qualified_quorum state leg fact attestations at h =
    let good : View → Text → Type 0 = λ view source.
      any_of (reports_view (is_qualifying state leg fact at) view source) (list_of attestations)
      ≡ true in
    let kept = keep_if (is_qualifying state leg fact at) (list_of attestations) in
    has_quorum-AreGood good state.evidence_policies.observer.required_source_count
      (sources_by_view [] kept)
      (sources_by_view-AreGood good kept [] tt
        (kept_reports (is_qualifying state leg fact at) (list_of attestations)))
      (ground arith)
