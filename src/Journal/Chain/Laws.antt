-- ===== src/Journal/Chain/Laws.antt =====
-- How the loop of `verify` goes on over one more event.
use mss_package.Common.{◌⊎◌}
use mss_package.Journal.Chain.{ChainReason}
use mss_package.Journal.Chain.{verify, File, lines_of, genesis_sha256}
use mss_package.Common.{
  ℕ, ◌+◌, ◌≡◌, refl, ◌∙◌, true, false, none, some, List, [], ◌∷◌, ◌++◌, arith, ok, length, inl, inr,
  Option-cases, Result-cases,
}
use mss_package.Common.Text.{Text, is_empty}
use mss_package.Journal.Json.{Json, object, Fields, Library, as_object}
use mss_package.Journal.Chain.{
  Verification, chain_valid, broken, read_lines, is_linked, is_hashed, digest, check_chain,
}

pub Verification-cases :
    (v : Verification)
    → ((reason : ChainReason) × (i : ℕ) × (n : ℕ) × (v ≡ broken reason i n))
      ⊎ ((n : ℕ) × (sha : Text) × (v ≡ chain_valid n sha))
Verification-cases (broken reason i n) = inl (reason, i, n, refl)
Verification-cases (chain_valid n sha) = inr (n, sha, refl)

module _ {N : Type 0} (L : Library N) where
  open L use {loads}

  -- What a valid chain tells of its first event.
  pub check_chain-cons_inv :
      (count : ℕ) (previous_sha : Text) (index : ℕ) (value : Json N) (events : List (Json N))
      {n : ℕ} {sha : Text}
      → check_chain L count previous_sha index (value ∷ events) ≡ ok (chain_valid n sha)
      → (event : Fields N) × (as_object value ≡ some event)
        × (is_linked previous_sha event ≡ true)
        × (is_hashed L event ≡ true)
        × (check_chain L count (digest L event) (index + 1) events ≡ ok (chain_valid n sha))
  unfolding check_chain
  check_chain-cons_inv count previous_sha index value events {n} {sha} h =
      elim (Option-cases (as_object value)) [
        | inl q ↦ ground (arith, q)
        | inr (event, q) ↦ (event, q, ground (arith, q), ground (arith, q), ground (arith, q))
      ]

  pub check_chain-cons :
      (count : ℕ) (previous_sha : Text) (index : ℕ) (value : Json N) (events : List (Json N))
      (event : Fields N)
      → as_object value ≡ some event
      → is_linked previous_sha event ≡ true
      → is_hashed L event ≡ true
      → check_chain L count previous_sha index (value ∷ events)
        ≡ check_chain L count (digest L event) (index + 1) events
  unfolding check_chain
  check_chain-cons count previous_sha index value events event q linked hashed =
      rw (q, check_chain) (rw (linked, hashed) refl)

  -- One more event that is linked to the last hash, and hashed, keeps the chain valid.
  pub check_chain-append :
      (count count' : ℕ) (previous_sha : Text) (index : ℕ) (events : List (Json N))
      (event : Fields N) {n : ℕ} {sha : Text}
      → check_chain L count previous_sha index events ≡ ok (chain_valid n sha)
      → is_linked sha event ≡ true
      → is_hashed L event ≡ true
      → check_chain L count' previous_sha index (events ++ object event ∷ [])
        ≡ ok (chain_valid count' (digest L event))
  unfolding check_chain
  check_chain-append count count' previous_sha index [] event {n} {sha} h linked hashed =
      let same : previous_sha ≡ sha = ground arith in
      check_chain-cons count' previous_sha index (object event) [] event (unfold as_object in refl)
        (rw same linked) hashed
  check_chain-append count count' previous_sha index (value ∷ events) event {n} {sha} h linked
        hashed =
      let (first, q, l, k, rest) = check_chain-cons_inv count previous_sha index value events h in
      check_chain-cons count' previous_sha index value (events ++ object event ∷ []) first q l k
      ∙ check_chain-append count count' (digest L first) (index + 1) events event rest linked hashed

  -- The count that is reported is the number of events given.
  pub check_chain_count :
      (count : ℕ) (previous_sha : Text) (index : ℕ) (events : List (Json N)) {n : ℕ} {sha : Text}
      → check_chain L count previous_sha index events ≡ ok (chain_valid n sha)
      → n ≡ count
  unfolding check_chain
  check_chain_count count previous_sha index [] h = ground arith
  check_chain_count count previous_sha index (value ∷ events) h =
      let (first, q, l, k, rest) = check_chain-cons_inv count previous_sha index value events h in
      check_chain_count count (digest L first) (index + 1) events rest

  -- Reading a file with one more line.
  pub read_lines-append :
      (n : ℕ) (lines : List Text) (line : Text) (value : Json N) {events : List (Json N)}
      → read_lines L n lines ≡ ok events
      → is_empty line ≡ false
      → loads line ≡ some value
      → read_lines L n (lines ++ line ∷ []) ≡ ok (events ++ value ∷ [])
  unfolding read_lines
  read_lines-append n [] line value {events} h full parses = ground (arith, full, parses)
  read_lines-append n (first ∷ lines) line value {events} h full parses =
      elim (Result-cases (read_lines L (n + 1) lines)) [
        | inr (e, q) ↦ ground (arith, q)
        | inl (rest, q) ↦
            ground (arith, q, read_lines-append (n + 1) lines line value q full parses)
      ]

  -- The events of a journal that verifies, and the run of the loop over them.
  pub verify_inv :
      (file : File) {n : ℕ} {sha : Text}
      → verify L file ≡ ok (chain_valid n sha)
      → (events : List (Json N)) × (read_lines L 1 (lines_of file) ≡ ok events)
        × (check_chain L (length events) genesis_sha256 1 events ≡ ok (chain_valid n sha))
  unfolding verify
  verify_inv none h = ([], refl, h)
  verify_inv (some lines) h = elim (Result-cases (read_lines L 1 lines)) [
    | inr (e, q) ↦ ground (arith, q)
    | inl (events, q) ↦ (events, q, ground (arith, q))
  ]
