-- ===== src/OfflineClosure/Closed.antt =====
-- What `reconcile` confirms.
use mss_package.Common.{
  ◌≡◌, refl, ◌∙◌, ap, ◌↔◌, inl, inr, true, false, not, Option, none, some, List, [], ◌∷◌, any, All,
  arith, Bool-cases, Option-cases, Result-cases,
}
use mathlib.Core.Path.{subst}
use mss_package.Common.Float.{Float, nought}
use mss_package.Common.Int.{ℤ, pos, leb_ℤ, eqb_ℤ, eq_of_parts}
use mss_package.Common.Text.{Text, text_eq, upper, is_empty}
use mss_package.VirtualPosition.Engine.{VirtualPosition}
use mss_package.OfflineClosure.{
  DemoBrokerDealSnapshot, magic_number, is_entry, is_exit, is_shadow_invalid, is_deal_invalid,
  check_history, take_pair, expected_exit_direction, volume_tolerance, check_pair, exit_reason_of,
  confirmed, close_pair, close_shadow, reconcile,
}
use mss_package.OfflineClosure.Pairs.{IsPair, take_pair-IsPair, pair-take_pair}

module _ {N : Type 0} (F : Float N) where
  open F use {ratio, lt, le, sub, abs}

  -- A valid deal of the broker's position.
  abbrev pub IsOurs : VirtualPosition N → DemoBrokerDealSnapshot N → Type 0
  IsOurs s d =
      (eqb_ℤ d.position_identifier s.broker_position_identifier ≡ true)
      × (text_eq d.symbol s.symbol ≡ true)
      × (is_deal_invalid F d ≡ false)

  -- A history that closes the paper position.
  pub record IsClosed (s : VirtualPosition N) (deals : List (DemoBrokerDealSnapshot N))
      : Type 0 where
    pub entry : DemoBrokerDealSnapshot N
    pub exit : DemoBrokerDealSnapshot N
    pub shadow_valid : is_shadow_invalid F s ≡ false
    pub identified : leb_ℤ s.broker_position_identifier (pos 0) ≡ false
    pub deals_valid : All (IsOurs s) deals
    pub pair : IsPair deals entry exit
    pub enters : is_entry entry ≡ true
    pub exits : is_exit exit ≡ true
    pub ours : eqb_ℤ entry.magic magic_number ≡ true
    pub same_direction : text_eq (upper entry.direction) (upper s.direction) ≡ true
    pub same_price : lt (ratio 1 1000000000000) (abs (sub entry.price s.entry_price)) ≡ false
    pub opposite : text_eq (upper exit.direction) (expected_exit_direction s) ≡ true
    pub entry_volume : lt (volume_tolerance F) (abs (sub entry.volume s.volume)) ≡ false
    pub exit_volume : lt (volume_tolerance F) (abs (sub exit.volume entry.volume)) ≡ false
    pub exit_price : le exit.price (nought F) ≡ false
    pub later : leb_ℤ exit.broker_epoch s.open_broker_epoch ≡ false
    pub same_epoch : eqb_ℤ entry.broker_epoch s.open_broker_epoch ≡ true
    pub has_reason : is_empty (upper exit.reason) ≡ false

  deals_pass :
      (s : VirtualPosition N) (ds : List (DemoBrokerDealSnapshot N))
      → any
          (λ (x : DemoBrokerDealSnapshot N).
            not (eqb_ℤ x.position_identifier s.broker_position_identifier))
          ds
        ≡ false
      → any (λ (x : DemoBrokerDealSnapshot N). not (text_eq x.symbol s.symbol)) ds ≡ false
      → any (is_deal_invalid F) ds ≡ false
      → All (IsOurs s) ds
  deals_pass s [] p q r = tt
  deals_pass s (d ∷ ds) p q r = (
    (ground (arith, p), ground (arith, q), ground (arith, r)),
    deals_pass s ds (ground (arith, p)) (ground (arith, q)) (ground (arith, r)),
  )

  passed_deals :
      (s : VirtualPosition N) (ds : List (DemoBrokerDealSnapshot N))
      → All (IsOurs s) ds
      → (any
            (λ (x : DemoBrokerDealSnapshot N).
              not (eqb_ℤ x.position_identifier s.broker_position_identifier))
            ds
          ≡ false)
        × (any (λ (x : DemoBrokerDealSnapshot N). not (text_eq x.symbol s.symbol)) ds ≡ false)
        × (any (is_deal_invalid F) ds ≡ false)
  passed_deals s [] a = (refl, refl, refl)
  passed_deals s (d ∷ ds) ((p, q, r), a) =
      let (p', q', r') = passed_deals s ds a in (rw (p, p') refl, rw (q, q') refl, rw (r, r') refl)

  check_history-All :
      (s : VirtualPosition N) (ds : List (DemoBrokerDealSnapshot N))
      → check_history F s ds ≡ none
      → All (IsOurs s) ds
  unfolding check_history
  check_history-All s [] h = tt
  check_history-All s (d ∷ ds) h =
      deals_pass s (d ∷ ds) (ground (arith, h)) (ground (arith, h)) (ground (arith, h))

  All-check_history :
      (s : VirtualPosition N) (d : DemoBrokerDealSnapshot N) (ds : List (DemoBrokerDealSnapshot N))
      → All (IsOurs s) (d ∷ ds)
      → check_history F s (d ∷ ds) ≡ none
  unfolding check_history
  All-check_history s d ds a = let (p, q, r) = passed_deals s (d ∷ ds) a in rw (p, q, r) refl

  has_reason_iff :
      (raw : Text)
      → (is_empty (upper raw) ≡ false) ↔ ((why : Text) × (exit_reason_of raw ≡ some why))
  unfolding exit_reason_of text_eq
  has_reason_iff raw = (
    λ h. elim (Option-cases (exit_reason_of raw)) [
      | inl q ↦ ground (arith, h, q)
      | inr found ↦ found
    ],
    λ (why, h). ground (arith, h),
  )

  -- The history of a paper position that may be missing.
  abbrev pub IsClosure : Option (VirtualPosition N) → List (DemoBrokerDealSnapshot N) → Type 0
  IsClosure none deals = ⊥
  IsClosure (some s) deals = IsClosed s deals

  close_pair-confirmed :
      (s : VirtualPosition N) (deals : List (DemoBrokerDealSnapshot N))
      (entry exit : DemoBrokerDealSnapshot N)
      → (close_pair F s deals entry exit).closure_confirmed ≡ true
      → (check_pair F s entry exit ≡ none) × (is_empty (upper exit.reason) ≡ false)
  unfolding close_pair
  close_pair-confirmed s deals entry exit h = elim (Option-cases (check_pair F s entry exit)) [
    | inr (why, q) ↦ ground (arith, h, q)
    | inl p ↦ elim (Option-cases (exit_reason_of exit.reason)) [
      | inl q ↦ ground (arith, h, p, q)
      | inr found ↦ (p, (has_reason_iff exit.reason).1 found)
    ]
  ]

  passes-IsClosed :
      (s : VirtualPosition N) (deals : List (DemoBrokerDealSnapshot N))
      (entry exit : DemoBrokerDealSnapshot N)
      → is_shadow_invalid F s ≡ false
      → leb_ℤ s.broker_position_identifier (pos 0) ≡ false
      → All (IsOurs s) deals
      → IsPair deals entry exit × (is_entry entry ≡ true) × (is_exit exit ≡ true)
      → (check_pair F s entry exit ≡ none) × (is_empty (upper exit.reason) ≡ false)
      → IsClosed s deals
  unfolding check_pair
  passes-IsClosed s deals entry exit v i a (p, e, x) (c, r) = record {
    entry = entry;
    exit = exit;
    shadow_valid = v;
    identified = i;
    deals_valid = a;
    pair = p;
    enters = e;
    exits = x;
    ours = ground (arith, c);
    same_direction = ground (arith, c);
    same_price = ground (arith, c);
    opposite = ground (arith, c);
    entry_volume = ground (arith, c);
    exit_volume = ground (arith, c);
    exit_price = ground (arith, c);
    later = ground (arith, c);
    same_epoch = ground (arith, c);
    has_reason = r;
  }

  close_shadow-IsClosed :
      (s : VirtualPosition N) (deals : List (DemoBrokerDealSnapshot N))
      → (close_shadow F s deals).closure_confirmed ≡ true
      → IsClosed s deals
  unfolding close_shadow
  close_shadow-IsClosed s deals h = elim (Bool-cases (is_shadow_invalid F s)) [
    | inl v ↦ ground (arith, h, v)
    | inr v ↦ elim (Bool-cases (leb_ℤ s.broker_position_identifier (pos 0))) [
      | inl i ↦ ground (arith, h, v, i)
      | inr i ↦ elim (Option-cases (check_history F s deals)) [
        | inr (why, c) ↦ ground (arith, h, v, i, c)
        | inl c ↦ elim (Result-cases (take_pair deals)) [
          | inr (why, t) ↦ ground (arith, h, v, i, c, t)
          | inl ((entry, exit), t) ↦
              passes-IsClosed s deals entry exit v i (check_history-All s deals c)
                (take_pair-IsPair deals entry exit t)
                (close_pair-confirmed s deals entry exit (ground (arith, h, v, i, c, t)))
        ]
      ]
    ]
  ]

  check_pair-none :
      (s : VirtualPosition N) (deals : List (DemoBrokerDealSnapshot N)) (c : IsClosed s deals)
      → check_pair F s c.entry c.exit ≡ none
  unfolding check_pair
  check_pair-none s deals c =
      rw
        (
          c.ours, c.same_direction, c.same_price, c.opposite, c.entry_volume, c.exit_volume,
          c.exit_price, c.later, c.same_epoch,
        )
        refl

  pair_passes :
      (s : VirtualPosition N) (deals : List (DemoBrokerDealSnapshot N))
      (entry exit : DemoBrokerDealSnapshot N)
      → IsPair deals entry exit
      → All (IsOurs s) deals
      → check_history F s deals ≡ none
  pair_passes s deals entry exit (inl p) a =
      ap (check_history F s) p ∙ All-check_history s entry (exit ∷ []) (subst (All (IsOurs s)) p a)
  pair_passes s deals entry exit (inr p) a =
      ap (check_history F s) p ∙ All-check_history s exit (entry ∷ []) (subst (All (IsOurs s)) p a)

  close_pair-same :
      (s : VirtualPosition N) (deals : List (DemoBrokerDealSnapshot N))
      (entry exit : DemoBrokerDealSnapshot N) (why : Text)
      → check_pair F s entry exit ≡ none
      → exit_reason_of exit.reason ≡ some why
      → close_pair F s deals entry exit ≡ confirmed F s deals exit why
  unfolding close_pair
  close_pair-same s deals entry exit why p q = rw (close_pair, p, q) refl

  IsClosed-close_shadow :
      (s : VirtualPosition N) (deals : List (DemoBrokerDealSnapshot N)) (c : IsClosed s deals)
      → (why : Text) × (close_shadow F s deals ≡ confirmed F s deals c.exit why)
  unfolding close_shadow
  IsClosed-close_shadow s deals c =
      let (why, r) = (has_reason_iff c.exit.reason).0 c.has_reason in
      let t = pair-take_pair deals c.entry c.exit c.pair c.enters c.exits in
      let h = pair_passes s deals c.entry c.exit c.pair c.deals_valid in
      (
        why,
        rw (c.shadow_valid, c.identified, h, t)
            (close_pair-same s deals c.entry c.exit why (check_pair-none s deals c) r),
      )

  -- A closure is confirmed exactly if the broker has no position and no pending order, the paper
  -- position is valid and open and names the broker's position, and the history consists of one
  -- entry and one exit, in either order, which are valid deals of that position and symbol: the
  -- entry with the program's magic number, and with the direction, price, volume and time of the
  -- paper position up to the tolerances; the exit in the other direction, for the same volume, at a
  -- price above 0, later, and with a reason.
  pub closure_confirmed_iff :
      (shadow : Option (VirtualPosition N)) (positions pending : ℤ)
      (deals : List (DemoBrokerDealSnapshot N))
      → ((reconcile F shadow positions pending deals).closure_confirmed ≡ true)
        ↔ ((positions ≡ pos 0) × (pending ≡ pos 0) × IsClosure shadow deals)
  unfolding reconcile
  closure_confirmed_iff none positions pending deals =
      (λ h. ground (arith, h), λ (p, q, c). absurd c)
  closure_confirmed_iff (some s) positions pending deals = (
    λ h.
        let p : eqb_ℤ positions (pos 0) ≡ true = ground (arith, h) in
        let q : eqb_ℤ pending (pos 0) ≡ true = ground (arith, h) in
        (
          eq_of_parts positions (pos 0) (ground (arith, p)),
          eq_of_parts pending (pos 0) (ground (arith, q)),
          close_shadow-IsClosed s deals (ground (arith, h)),
        ),
    λ (p, q, c). let (why, same) = IsClosed-close_shadow s deals c in rw (p, q, same) refl,
  )
