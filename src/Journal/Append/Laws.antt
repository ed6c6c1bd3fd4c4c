-- ===== src/Journal/Append/Laws.antt =====
-- An append to a valid journal gives a valid journal with one more event.
use mss_package.Journal.Chain.Laws.{Verification-cases}
use mss_package.Common.{
  ℕ, ◌+◌, ◌≡◌, refl, ◌∙◌, ap, true, false, none, some, [], ◌∷◌, ◌++◌, arith, Result, ok, err,
  length, length-append, Result-cases, inl, inr, ◌⊎◌, Bool-cases,
}
use mss_package.Common.Int.{ℤ}
use mss_package.Common.Text.{Text, codes, text_eq, text_eq_self, is_empty}
use mss_package.Journal.Json.{
  string, object, Fields, Library, get, without, is_text, get-with_field, without-with_field,
}
use mss_package.Journal.Chain.{
  chain_valid, File, lines_of, genesis_sha256, digest, is_linked, is_hashed, verify,
}
use mss_package.Journal.Chain.Laws.{
  verify_inv, check_chain-append, check_chain_count, read_lines-append,
}
use mss_package.Journal.Append.{
  AppendError, event_type_required, position_id_required, unreadable,
  shadow_journal_integrity_failure, body_of, body_sha, sealed, written, append_event,
}

module _ {N : Type 0} (L : Library N) where
  open L use {canonical_json, loads, sha256}

  -- What `json` documents of an object that is encoded with sorted keys and read back: the texts
  -- stay at their keys, and leaving out the hash gives the same encoding as before.
  pub record RoundTrips (event read : Fields N) : Type 0 where
    pub parses : loads (canonical_json (object event)) ≡ some (object read)
    pub nonempty : is_empty (canonical_json (object event)) ≡ false
    pub texts : (key t : Text) → get key event ≡ some (string t) → get key read ≡ some (string t)
    pub same_body :
        canonical_json (object (without (codes "event_sha256") read))
        ≡ canonical_json (object (without (codes "event_sha256") event))

  -- The body of an event of an append, with its previous hash and no hash of its own.
  record IsBody (previous_sha : Text) (body : Fields N) : Type 0 where
    previous : get (codes "previous_event_sha256") body ≡ some (string previous_sha)
    unsealed : get (codes "event_sha256") body ≡ none

  body_of-IsBody :
      (n : ℕ) (sha event_type position_id : Text) (broker_epoch : ℤ) (payload : Fields N)
      → IsBody sha (body_of n sha event_type position_id broker_epoch payload)
  unfolding body_of get text_eq
  body_of-IsBody n sha event_type position_id broker_epoch payload = record {
    previous = refl;
    unsealed = refl;
  }

  module _ {sha : Text} {body read : Fields N} (b : IsBody sha body)
      (r : RoundTrips (sealed L body) read) where
    digest-read : digest L read ≡ body_sha L body
    digest-read = ap sha256 (
        r.same_body
        ∙ ap (λ fs. canonical_json (object fs))
            (without-with_field (codes "event_sha256") (string (body_sha L body)) body b.unsealed))

    previous-sealed : get (codes "previous_event_sha256") (sealed L body) ≡ some (string sha)
    unfolding text_eq
    previous-sealed =
        get-with_field (codes "event_sha256") (codes "previous_event_sha256")
          (string (body_sha L body)) body
        ∙ b.previous

    hash-sealed : get (codes "event_sha256") (sealed L body) ≡ some (string (body_sha L body))
    unfolding text_eq
    hash-sealed =
        get-with_field (codes "event_sha256") (codes "event_sha256") (string (body_sha L body)) body

    read-is_linked : is_linked sha read ≡ true
    unfolding is_linked is_text
    read-is_linked =
        rw (r.texts (codes "previous_event_sha256") sha previous-sealed) (text_eq_self sha)

    read-is_hashed : is_hashed L read ≡ true
    unfolding is_hashed is_text
    read-is_hashed =
        rw (r.texts (codes "event_sha256") (body_sha L body) hash-sealed, digest-read)
          (text_eq_self (body_sha L body))

    -- The file that is written verifies, with one more event and the new event's hash.
    verify-written :
        (file : File) {n : ℕ}
        → verify L file ≡ ok (chain_valid n sha)
        → verify L (written L body file) ≡ ok (chain_valid (n + 1) (body_sha L body))
    unfolding verify
    verify-written file {n} h =
        let (events, parsed, chain) = verify_inv L file h in
        let all = events ++ object read ∷ [] in
        let counted : length all ≡ n + 1 = omega (
          arith,
          length-append events (object read ∷ []),
          check_chain_count L (length events) genesis_sha256 1 events chain,
        ) in
        rw (read_lines-append L 1 (lines_of file) _ (object read) parsed r.nonempty r.parses) (
          check_chain-append L (length events) (length all) genesis_sha256 1 events read chain
            read-is_linked read-is_hashed
          ∙ cc (counted, digest-read))

  -- An append to a journal that verifies, with an event type and an identifier and where the new
  -- event is read back as it was written, returns the sealed event; the file has one more line and
  -- verifies, with one more event and the hash of the new one as its last.
  pub append_event_succeeds :
      (event_type position_id : Text) (broker_epoch : ℤ) (payload read : Fields N) (file : File)
      (n : ℕ) (sha : Text)
      → is_empty event_type ≡ false
      → is_empty position_id ≡ false
      → verify L file ≡ ok (chain_valid n sha)
      → RoundTrips (sealed L (body_of (n + 1) sha event_type position_id broker_epoch payload)) read
      → let body = body_of (n + 1) sha event_type position_id broker_epoch payload in
        (append_event L event_type position_id broker_epoch payload file
          ≡ (ok (sealed L body), written L body file))
        × (verify L (written L body file) ≡ ok (chain_valid (n + 1) (body_sha L body)))
  unfolding append_event
  append_event_succeeds event_type position_id broker_epoch payload read file n sha t i h r =
      let body : Fields N = body_of (n + 1) sha event_type position_id broker_epoch payload in
      let verified =
        verify-written (body_of-IsBody (n + 1) sha event_type position_id broker_epoch payload) r
          file h in
      (ground (arith, h, t, i, verified, text_eq_self (body_sha L body)), verified)

  -- Nothing written and an exception, or one line after a journal that verifies.
  abbrev pub WritesOneOrNone :
      Text → Text → ℤ → Fields N → File → Result AppendError (Fields N) × File → Type 0
  WritesOneOrNone event_type position_id broker_epoch payload file (result, file') =
      ((file' ≡ file) × ((e : AppendError) × (result ≡ err e)))
      ⊎ ((n : ℕ) × (sha : Text) × (verify L file ≡ ok (chain_valid n sha))
          × (file'
              ≡ written L (body_of (n + 1) sha event_type position_id broker_epoch payload) file))

  -- An append leaves the file alone and raises, or the file verified before and has one more line,
  -- the event with the next sequence number and the hash of the last event.
  pub append_event_writes :
      (event_type position_id : Text) (broker_epoch : ℤ) (payload : Fields N) (file : File)
      → WritesOneOrNone event_type position_id broker_epoch payload file
          (append_event L event_type position_id broker_epoch payload file)
  unfolding append_event
  append_event_writes event_type position_id broker_epoch payload file =
      elim (Bool-cases (is_empty event_type)) [
        | inl p ↦ inl (ground (arith, p), (event_type_required, ground (arith, p)))
        | inr p ↦ elim (Bool-cases (is_empty position_id)) [
          | inl q ↦ inl (ground (arith, p, q), (position_id_required, ground (arith, p, q)))
          | inr q ↦ elim (Result-cases (verify L file)) [
            | inr (e, r) ↦ inl (ground (arith, p, q, r), (unreadable e, ground (arith, p, q, r)))
            | inl (v, r) ↦ elim (Verification-cases v) [
              | inl (reason, i, n, s) ↦ inl (
                ground (arith, p, q, r, s),
                (shadow_journal_integrity_failure reason, ground (arith, p, q, r, s)),
              )
              | inr (n, sha, s) ↦ inr (n, sha, r ∙ ap ok s, ground (arith, p, q, r, s))
            ]
          ]
        ]
      ]
