-- ===== src/OfflineClosure/Legacy/Found.antt =====
-- What `reconcile_legacy` confirms.
use mss_package.Common.{
  ◌≡◌, refl, ◌∙◌, sym, ap, inl, inr, true, false, Option, none, some, List, [], ◌∷◌, any, ok, arith,
  Bool-cases, Option-cases, Result-cases,
}
use mathlib.Core.Path.{subst}
use mss_package.Common.Float.{Float, nought}
use mss_package.Common.Int.{ℤ, pos, leb_ℤ, eqb_ℤ, eq_of_parts}
use mss_package.Common.Text.{Text, text_eq, upper}
use mss_package.VirtualPosition.Engine.{VirtualPosition}
use mss_package.OfflineClosure.{
  DemoBrokerDealSnapshot, DemoBrokerOfflineClosureResult, is_entry, is_exit, filter,
  expected_exit_direction, volume_tolerance, exit_reason_of,
}
use mss_package.OfflineClosure.Legacy.{
  lifecycle_of, take_legacy_pair, is_legacy_shadow_invalid, is_candidate, is_legacy_deal_invalid,
  check_deals, check_legacy, legacy_confirmed, close_candidate, close_candidates, close_legacy,
  reconcile_legacy,
}
use mss_package.OfflineClosure.Pairs.{IsPair, singles-IsPair, filter_head}
use mss_package.OfflineClosure.Legacy.Single.{take_legacy_pair-singles, same_single}

module _ {N : Type 0} (F : Float N) where
  open F use {lt, le, sub, abs, ratio}

  -- A history that closes the paper position after its entry has been found.
  pub record IsFound (s : VirtualPosition N) (deals : List (DemoBrokerDealSnapshot N)) (point : N)
      (out : DemoBrokerOfflineClosureResult N) : Type 0 where
    pub entry : DemoBrokerDealSnapshot N
    pub exit : DemoBrokerDealSnapshot N
    pub why : Text
    pub shadow_valid : is_legacy_shadow_invalid F s point ≡ false
    pub deals_valid : any (is_legacy_deal_invalid F) deals ≡ false
    pub single : filter (is_candidate F s point) deals ≡ entry ∷ []
    pub pair : IsPair (lifecycle_of entry deals) entry exit
    pub exits : is_exit exit ≡ true
    pub opposite : text_eq (upper exit.direction) (expected_exit_direction s) ≡ true
    pub same_volume : lt (volume_tolerance F) (abs (sub exit.volume entry.volume)) ≡ false
    pub exit_price : le exit.price (nought F) ≡ false
    pub later : leb_ℤ exit.broker_epoch entry.broker_epoch ≡ false
    pub reason : exit_reason_of exit.reason ≡ some why
    pub result : out ≡ legacy_confirmed F s (lifecycle_of entry deals) entry exit why

  candidate-is_entry :
      (s : VirtualPosition N) (point : N) (d : DemoBrokerDealSnapshot N)
      → is_candidate F s point d ≡ true
      → is_entry d ≡ true
  unfolding is_candidate
  candidate-is_entry s point d h = elim (Bool-cases (is_entry d)) [
    | inl e ↦ e
    | inr e ↦ ground (arith, h, e)
  ]

  check_deals-valid :
      (ds : List (DemoBrokerDealSnapshot N))
      → check_deals F ds ≡ none
      → any (is_legacy_deal_invalid F) ds ≡ false
  unfolding check_deals
  check_deals-valid [] h = refl
  check_deals-valid (d ∷ ds) h = ground (arith, h)

  -- The tests that a closure with a found entry has passed.
  abbrev IsLegacyExit :
      VirtualPosition N → DemoBrokerDealSnapshot N → DemoBrokerDealSnapshot N → Type 0
  IsLegacyExit s entry exit =
      (text_eq (upper exit.direction) (expected_exit_direction s) ≡ true)
      × (lt (volume_tolerance F) (abs (sub exit.volume entry.volume)) ≡ false)
      × (le exit.price (nought F) ≡ false)
      × (leb_ℤ exit.broker_epoch entry.broker_epoch ≡ false)

  check_legacy-IsLegacyExit :
      (s : VirtualPosition N) (ds : List (DemoBrokerDealSnapshot N))
      (entry exit : DemoBrokerDealSnapshot N)
      → check_legacy F s ds entry exit ≡ none
      → IsLegacyExit s entry exit
  unfolding check_legacy
  check_legacy-IsLegacyExit s ds entry exit h =
      (ground (arith, h), ground (arith, h), ground (arith, h), ground (arith, h))

  close_candidate-confirmed :
      (s : VirtualPosition N) (deals : List (DemoBrokerDealSnapshot N))
      (entry : DemoBrokerDealSnapshot N)
      → (close_candidate F s deals entry).closure_confirmed ≡ true
      → (single : DemoBrokerDealSnapshot N) × (exit : DemoBrokerDealSnapshot N) × (why : Text)
        × (take_legacy_pair (lifecycle_of entry deals) ≡ ok (single, exit))
        × IsLegacyExit s entry exit
        × (exit_reason_of exit.reason ≡ some why)
        × (close_candidate F s deals entry
            ≡ legacy_confirmed F s (lifecycle_of entry deals) entry exit why)
  unfolding close_candidate
  close_candidate-confirmed s deals entry h =
      elim (Result-cases (take_legacy_pair (lifecycle_of entry deals))) [
        | inr (why, t) ↦ ground (arith, h, t)
        | inl ((single, exit), t) ↦
            elim (Option-cases (check_legacy F s (lifecycle_of entry deals) entry exit)) [
              | inr (why, c) ↦ ground (arith, h, t, c)
              | inl c ↦ elim (Option-cases (exit_reason_of exit.reason)) [
                | inl r ↦ ground (arith, h, t, c, r)
                | inr (why, r) ↦ (
                  single,
                  exit,
                  why,
                  t,
                  check_legacy-IsLegacyExit s (lifecycle_of entry deals) entry exit c,
                  r,
                  ground (arith, t, c, r),
                )
              ]
            ]
      ]

  candidate-IsFound :
      (s : VirtualPosition N) (deals : List (DemoBrokerDealSnapshot N)) (point : N)
      (entry : DemoBrokerDealSnapshot N)
      → is_legacy_shadow_invalid F s point ≡ false
      → any (is_legacy_deal_invalid F) deals ≡ false
      → filter (is_candidate F s point) deals ≡ entry ∷ []
      → (close_candidate F s deals entry).closure_confirmed ≡ true
      → IsFound s deals point (close_candidate F s deals entry)
  unfolding lifecycle_of
  candidate-IsFound s deals point entry v a c h =
      let (single, exit, why, t, (o, m, p, l), r, result) =
        close_candidate-confirmed s deals entry h in
      let (none_other, entries, exits) =
        take_legacy_pair-singles (lifecycle_of entry deals) single exit t in
      let its =
        λ (d : DemoBrokerDealSnapshot N). eqb_ℤ d.position_identifier entry.position_identifier in
      let enters =
        candidate-is_entry s point entry (filter_head (is_candidate F s point) deals entry c) in
      let same : single ≡ entry =
        same_single (is_candidate F s point) is_entry its deals entry single enters (ground arith) c
          entries in
      record {
        entry = entry;
        exit = exit;
        why = why;
        shadow_valid = v;
        deals_valid = a;
        single = c;
        pair =
            singles-IsPair (lifecycle_of entry deals) entry exit none_other
              (entries ∙ ap (λ e. e ∷ []) same) exits;
        exits = filter_head is_exit (lifecycle_of entry deals) exit exits;
        opposite = o;
        same_volume = m;
        exit_price = p;
        later = l;
        reason = r;
        result = result;
      }

  close_candidates-IsFound :
      (s : VirtualPosition N) (deals : List (DemoBrokerDealSnapshot N)) (point : N)
      (cs : List (DemoBrokerDealSnapshot N))
      → is_legacy_shadow_invalid F s point ≡ false
      → any (is_legacy_deal_invalid F) deals ≡ false
      → filter (is_candidate F s point) deals ≡ cs
      → (close_candidates F s deals cs).closure_confirmed ≡ true
      → IsFound s deals point (close_candidates F s deals cs)
  unfolding close_candidates
  close_candidates-IsFound s deals point [] v a c h = ground (arith, h)
  close_candidates-IsFound s deals point (entry ∷ []) v a c h =
      candidate-IsFound s deals point entry v a c h
  close_candidates-IsFound s deals point (d ∷ d' ∷ ds) v a c h = ground (arith, h)

  close_legacy-IsFound :
      (s : VirtualPosition N) (deals : List (DemoBrokerDealSnapshot N)) (point : N)
      → (close_legacy F s deals point).closure_confirmed ≡ true
      → IsFound s deals point (close_legacy F s deals point)
  unfolding close_legacy
  close_legacy-IsFound s deals point h = elim (Bool-cases (is_legacy_shadow_invalid F s point)) [
    | inl v ↦ ground (arith, h, v)
    | inr v ↦ elim (Option-cases (check_deals F deals)) [
      | inr (why, c) ↦ ground (arith, h, v, c)
      | inl c ↦
          let cs = filter (is_candidate F s point) deals in
          let same : close_legacy F s deals point ≡ close_candidates F s deals cs =
            ground (arith, v, c) in
          subst (IsFound s deals point) (sym same) (
            close_candidates-IsFound s deals point cs v (check_deals-valid deals c) refl
              (sym (ap (λ (r : DemoBrokerOfflineClosureResult N). r.closure_confirmed) same) ∙ h))
    ]
  ]

  -- A closure is confirmed for a position of an older journal only if the broker has no position and
  -- no pending order, the paper position and all deals are valid, and exactly one deal of the history
  -- can be the entry; the deals of that entry's position are then this entry and one exit, in either
  -- order, and the exit is in the other direction, for the same volume, at a price above 0, later,
  -- and with a reason. The result is about these two deals.
  pub reconcile_legacy-IsFound :
      (shadow : Option (VirtualPosition N)) (positions pending : ℤ)
      (deals : List (DemoBrokerDealSnapshot N)) (point : N)
      → (reconcile_legacy F shadow positions pending deals point).closure_confirmed ≡ true
      → (positions ≡ pos 0)
        × (pending ≡ pos 0)
        × (s : VirtualPosition N) × (shadow ≡ some s)
        × IsFound s deals point (reconcile_legacy F shadow positions pending deals point)
  unfolding reconcile_legacy
  reconcile_legacy-IsFound none positions pending deals point h = ground (arith, h)
  reconcile_legacy-IsFound (some s) positions pending deals point h =
      let p : eqb_ℤ positions (pos 0) ≡ true = ground (arith, h) in
      let q : eqb_ℤ pending (pos 0) ≡ true = ground (arith, h) in
      let same : reconcile_legacy F (some s) positions pending deals point
          ≡ close_legacy F s deals point =
        ground (arith, p, q) in
      (
        eq_of_parts positions (pos 0) (ground (arith, p)),
        eq_of_parts pending (pos 0) (ground (arith, q)),
        s,
        refl,
        subst (IsFound s deals point) (sym same) (
            close_legacy-IsFound s deals point
              (sym (ap (λ (r : DemoBrokerOfflineClosureResult N). r.closure_confirmed) same) ∙ h)),
      )
