-- ===== src/Matcher/Loop.antt =====
-- `matchAgainst` of src/lib/matcher.ts: the loop ends within its fuel, and what it has done then.
use phlebas.Base.{
  ℕ, zero, suc, ◌+◌, ◌-◌, ◌*◌, ◌≤◌, ◌<◌, ◌≡◌, refl, ◌⊎◌, inl, inr, true, false, List, [], ◌∷◌,
  arith, All, All-append, length, Result, ok, err, Returns, Bool-cases, ltb, ◌==◌, sum_of-append,
  if◌then◌else◌, ap, subst,
}
use phlebas.Units.{OrderSide, quote_cost_divisor}
use phlebas.Units.Minimum.{least_size, least_size_iff, minimum_size-least_size}
use phlebas.Matcher.Consume.{
  Consumes, stop, whole, part, fill_of, reduce, filled_size, Consumes-append,
}
use phlebas.Matcher.{
  RestingOrder, Fill, Match, Round, leave, next, throws, prices_cross, record_fill, trade_maker,
  try_maker, match_round, match_loop, avoid_dust, offered_atoms,
}

-- A resting order whose whole remainder settles to at least one quote atom.
pub record IsSettleable (o : RestingOrder) : Type 0 where
  pub priced : 0 < o.price_ticks
  pub sized : least_size o.price_ticks ≤ o.remaining_atoms

-- A fill inside the taker's limit that settles to at least one quote atom.
pub record IsWithin (side : OrderSide) (limit : ℕ) (f : Fill) : Type 0 where
  pub crossing : prices_cross side limit f.price_ticks ≡ true
  pub settles : quote_cost_divisor ≤ f.size_atoms * f.price_ticks

module _ (side : OrderSide) (limit size : ℕ) (start : List RestingOrder) where
  -- What holds at the head of the loop.
  pub record LoopInv (m : Match) : Type 0 where
    pub settleable : All IsSettleable m.resting
    pub consumed : Consumes side start m.fills m.resting
    pub accounted : filled_size m.fills + m.remaining ≡ size
    pub within : All (IsWithin side limit) m.fills

  -- The first maker left is out of the taker's reach.
  abbrev pub HeadApart : List RestingOrder → Type 0
  HeadApart [] = Unit
  HeadApart (o ∷ os) = prices_cross side limit o.price_ticks ≡ false

  -- Why the loop ends.
  pub record LoopEnd (m : Match) : Type 0 where
    pub inv : LoopInv m
    pub ended : (m.remaining ≡ 0) ⊎ (m.blocked_by_dust ≡ true) ⊎ HeadApart m.resting

  -- The next round leaves the loop.
  abbrev pub IsSpent : Match → List RestingOrder → Type 0
  IsSpent m [] = Unit
  IsSpent m (o ∷ os) =
      (m.remaining ≡ 0) ⊎ ((0 < o.price_ticks) × (m.remaining < least_size o.price_ticks))

  abbrev Progress : ℕ → Round → Type 0
  Progress n (leave m) = LoopEnd m
  Progress n (next m) =
      LoopInv m
      × ((suc (length m.resting) ≡ n) ⊎ (IsSpent m m.resting × (length m.resting ≡ n) × (0 < n)))
  Progress n (throws e) = ⊥

  take_one :
      (maker : RestingOrder) (rest : List RestingOrder) (t : ℕ)
      → t ≤ maker.remaining_atoms
      → Consumes side
          (maker ∷ rest)
          (fill_of side maker t ∷ [])
          (if maker.remaining_atoms - t == 0 then rest else reduce maker t ∷ rest)
  take_one maker rest t h = elim (Bool-cases (maker.remaining_atoms - t == 0)) [
    | inl e ↦ rw e (whole (ap (fill_of side maker) (ground arith)) stop)
    | inr e ↦ rw e (part t refl (ground arith) stop)
  ]

  take-LoopInv :
      (m : Match) (maker : RestingOrder) (rest : List RestingOrder) (t : ℕ)
      → LoopInv m
      → m.resting ≡ maker ∷ rest
      → prices_cross side limit maker.price_ticks ≡ true
      → t ≤ maker.remaining_atoms
      → t ≤ m.remaining
      → least_size maker.price_ticks ≤ t
      → (t ≡ maker.remaining_atoms) ⊎ (least_size maker.price_ticks ≤ maker.remaining_atoms - t)
      → LoopInv (record_fill side m maker rest t)
  unfolding record_fill
  take-LoopInv m maker rest t h e c below_maker below_taker large left = record {
    settleable = elim (Bool-cases (maker.remaining_atoms - t == 0)) [
      | inl z ↦ rw z makers.1
      | inr z ↦ rw z (record { priced = makers.0.priced; sized = ground arith }, makers.1)
    ];
    consumed =
        Consumes-append (subst (Consumes side start m.fills) e h.consumed)
          (take_one maker rest t below_maker);
    accounted = omega (
      arith,
      h.accounted,
      sum_of-append (λ (f : Fill). f.size_atoms) m.fills (fill_of side maker t ∷ []),
    );
    within = All-append (IsWithin side limit) m.fills (fill_of side maker t ∷ []) h.within (
      record {
        crossing = c;
        settles = (least_size_iff t maker.price_ticks makers.0.priced).0 large;
      },
      tt,
    );
  }
    where
      makers : All IsSettleable (maker ∷ rest)
      makers = subst (All IsSettleable) e h.settleable

-- Trading with a maker of `k` atoms for a taker of `r`, where `l` atoms are the least: if the amount
-- is no dust it leaves no dust with the maker, and what it leaves with the taker is nothing, or too
-- little for that maker.
avoid_dust_lem :
    (r k l : ℕ)
    → l ≤ k
    → ltb (offered_atoms r k) l ≡ false
    → let t = avoid_dust (offered_atoms r k) k l in
      (t ≤ k)
      × (t ≤ r)
      × ((t ≡ k) ⊎ (l ≤ k - t))
      × ((t ≡ k) ⊎ (r - t ≡ 0) ⊎ ((r - t < l) × (l ≡ k - t)))
unfolding offered_atoms avoid_dust
avoid_dust_lem r k l le a = ground arith

module _ (side : OrderSide) (limit size : ℕ) (start : List RestingOrder) where
  blocked-LoopEnd :
      (m : Match)
      → LoopInv side limit size start m
      → LoopEnd side limit size start (record m { blocked_by_dust = true })
  blocked-LoopEnd m h = record {
    inv = record {
      settleable = h.settleable;
      consumed = h.consumed;
      accounted = h.accounted;
      within = h.within;
    };
    ended = inr (inl refl);
  }

  -- A fill takes the maker off the list, or leaves the taker with nothing more to do.
  record_fill-Progress :
      (m : Match) (maker : RestingOrder) (rest : List RestingOrder) (t : ℕ)
      → 0 < maker.price_ticks
      → ((t ≡ maker.remaining_atoms)
          ⊎ (m.remaining - t ≡ 0)
          ⊎ ((m.remaining - t < least_size maker.price_ticks)
              × (least_size maker.price_ticks ≡ maker.remaining_atoms - t)))
      → LoopInv side limit size start (record_fill side m maker rest t)
      → Progress side limit size start (suc (length rest)) (next (record_fill side m maker rest t))
  unfolding record_fill
  record_fill-Progress m maker rest t p h inv = (
    inv,
    elim (Bool-cases (maker.remaining_atoms - t == 0)) [
      | inl z ↦ rw z (inl refl)
      | inr z ↦ rw z (inr (ground arith, refl, omega arith))
    ],
  )

  trade_maker-Progress :
      (m : Match) (maker : RestingOrder) (rest : List RestingOrder)
      → LoopInv side limit size start m
      → m.resting ≡ maker ∷ rest
      → prices_cross side limit maker.price_ticks ≡ true
      → IsSettleable maker
      → Progress side limit size start
          (suc (length rest))
          (trade_maker side m maker rest (ok (least_size maker.price_ticks)))
  unfolding trade_maker
  trade_maker-Progress m maker rest h e c s = elim (Bool-cases (ltb offered l)) [
    | inl dust ↦ rw dust (blocked-LoopEnd m h)
    | inr enough ↦ rw enough (elim (Bool-cases (ltb t l)) [
      | inl dust ↦ rw dust (blocked-LoopEnd m h)
      | inr large ↦
          let f = avoid_dust_lem m.remaining maker.remaining_atoms l s.sized enough in
          rw large (
            record_fill-Progress m maker rest t s.priced f.3
              (take-LoopInv side limit size start m maker rest t h e c f.0 f.1 (ground arith) f.2))
    ])
  ]
    where
      l : ℕ
      l = least_size maker.price_ticks

      offered : ℕ
      offered = offered_atoms m.remaining maker.remaining_atoms

      t : ℕ
      t = avoid_dust offered maker.remaining_atoms l

  try_maker-Progress :
      (m : Match) (xs : List RestingOrder)
      → LoopInv side limit size start m
      → m.resting ≡ xs
      → Progress side limit size start (length xs) (try_maker side limit m xs)
  unfolding try_maker
  try_maker-Progress m [] h e = record { inv = h; ended = inr (inr (rw e tt)) }
  try_maker-Progress m (maker ∷ rest) h e =
      elim (Bool-cases (prices_cross side limit maker.price_ticks)) [
        | inl c ↦
            rw (c, minimum_size-least_size maker.price_ticks settleable.priced)
              (trade_maker-Progress m maker rest h e c settleable)
        | inr c ↦ rw c (record { inv = h; ended = inr (inr (rw e c)) })
      ]
    where
      settleable : IsSettleable maker
      settleable = (subst (All IsSettleable) e h.settleable).0

  match_round-Progress :
      (m : Match)
      → LoopInv side limit size start m
      → Progress side limit size start (length m.resting) (match_round side limit m)
  unfolding match_round
  match_round-Progress m h = elim (Bool-cases (m.remaining == 0)) [
    | inl z ↦ rw z (record { inv = h; ended = inl (ground arith) })
    | inr z ↦ rw z (try_maker-Progress m m.resting h refl)
  ]

  abbrev Leaves : Round → Type 0
  Leaves (leave m) = Unit
  Leaves (next m) = ⊥
  Leaves (throws e) = ⊥

  try_maker-Leaves :
      (m : Match) (xs : List RestingOrder)
      → IsSpent side limit size start m xs
      → (m.remaining == 0) ≡ false
      → Leaves (try_maker side limit m xs)
  unfolding try_maker trade_maker offered_atoms
  try_maker-Leaves m [] h z = tt
  try_maker-Leaves m (maker ∷ rest) (inl r) z = absurd (ground arith)
  try_maker-Leaves m (maker ∷ rest) (inr (p, r)) z =
      rw (minimum_size-least_size maker.price_ticks p) (ground arith)

  match_round-Leaves :
      (m : Match) → IsSpent side limit size start m m.resting → Leaves (match_round side limit m)
  unfolding match_round
  match_round-Leaves m h = elim (Bool-cases (m.remaining == 0)) [
    | inl z ↦ rw z tt
    | inr z ↦ rw z (try_maker-Leaves m m.resting h z)
  ]

  abbrev pub Ends : Result Match → Type 0
  Ends = Returns (LoopEnd side limit size start)

  pub match_loop-LoopEnd :
      (fuel : ℕ) (m : Match)
      → LoopInv side limit size start m
      → (length m.resting < fuel) ⊎ ((0 < fuel) × IsSpent side limit size start m m.resting)
      → Ends (match_loop fuel side limit m)
  unfolding match_loop
  match_loop-LoopEnd zero m h enough = absurd (omega arith)
  match_loop-LoopEnd (suc fuel) m h enough =
      go (match_round side limit m) (match_round-Progress m h) (may_leave enough)
        (match_loop-LoopEnd fuel)
    where
      may_leave :
          (length m.resting < suc fuel)
            ⊎ ((0 < suc fuel) × IsSpent side limit size start m m.resting)
          → (length m.resting ≤ fuel) ⊎ Leaves (match_round side limit m)
      may_leave (inl short) = inl (omega arith)
      may_leave (inr (_, spent)) = inr (match_round-Leaves m spent)

      absurd_or : {P Q : Type 0} → Q ⊎ ⊥ → (Q → P) → P
      absurd_or (inl q) f = f q
      absurd_or (inr x) f = absurd x

      go :
          (r : Round)
          → Progress side limit size start (length m.resting) r
          → (length m.resting ≤ fuel) ⊎ Leaves r
          → ((m' : Match)
              → LoopInv side limit size start m'
              → (length m'.resting < fuel)
                ⊎ ((0 < fuel) × IsSpent side limit size start m' m'.resting)
              → Ends (match_loop fuel side limit m'))
          → Ends (elim r [
            | leave m' ↦ ok m'
            | next m' ↦ match_loop fuel side limit m'
            | throws e ↦ err e
          ])
      go (leave m') p l ih = p
      go (next m') (inv, inl shorter) l ih = absurd_or l (λ short. ih m' inv (inl (omega arith)))
      go (next m') (inv, inr (spent, same, some_left)) l ih =
          absurd_or l (λ short. ih m' inv (inr (omega arith, spent)))
      go (throws e) p l ih = p
