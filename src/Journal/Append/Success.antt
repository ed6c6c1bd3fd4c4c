-- ===== src/Journal/Append/Success.antt =====
-- What an append that returns has done, and how its event is read back.
use mss_package.Common.{sym}
use mss_package.Common.{
  ℕ, ◌+◌, ◌≡◌, refl, ◌∙◌, ap, false, some, arith, Result, ok, err, inl, inr, Bool-cases,
}
use mss_package.Common.Int.{ℤ}
use mss_package.Common.Text.{Text, codes, text_eq, is_empty, strip}
use mss_package.Journal.Append.{
  AppendError, body_of, body_sha, sealed, written, write, post_check, append_verified, append_event,
}
use mss_package.Journal.Chain.{Verification, broken, chain_valid, JournalError, File, verify}
use mss_package.Journal.Json.{
  string, integer, floating, object, Fields, Library, get, get-with_field,
}

module _ {N : Type 0} where
  -- The second dictionary has the texts and the numbers of the first.
  pub record Keeps (a b : Fields N) : Type 0 where
    pub texts : (key t : Text) → get key a ≡ some (string t) → get key b ≡ some (string t)
    pub integers :
        (key : Text) (n : ℤ) → get key a ≡ some (integer n) → get key b ≡ some (integer n)
    pub floats :
        (key : Text) (x : N) → get key a ≡ some (floating x) → get key b ≡ some (floating x)

  -- Where the fields of a sealed event stand.
  pub record ShowsBody (event_type position_id : Text) (broker_epoch : ℤ) (payload event : Fields N)
      : Type 0 where
    pub type_of : get (codes "event_type") event ≡ some (string event_type)
    pub id_of : get (codes "position_id") event ≡ some (string position_id)
    pub epoch_of : get (codes "broker_epoch") event ≡ some (integer broker_epoch)
    pub payload_of : get (codes "payload") event ≡ some (object payload)

module _ {N : Type 0} (L : Library N) where
  open L use {canonical_json, loads}

  -- What `json` documents of an object that is encoded and read back: texts and numbers stay at
  -- their keys, also in a dictionary inside; the encoding has no blanks around it.
  pub record ReadsBack (event read : Fields N) : Type 0 where
    pub parses : loads (canonical_json (object event)) ≡ some (object read)
    pub flush : strip (canonical_json (object event)) ≡ canonical_json (object event)
    pub nonempty : is_empty (canonical_json (object event)) ≡ false
    pub keeps : Keeps event read
    pub inside :
        (key : Text) (fs : Fields N)
        → get key event ≡ some (object fs)
        → (fs' : Fields N) × (get key read ≡ some (object fs')) × Keeps fs fs'

  -- What a successful append leaves.
  pub record IsAppended (event_type position_id : Text) (broker_epoch : ℤ) (payload : Fields N)
      (file : File) (event : Fields N) (file' : File) : Type 0 where
    pub named : is_empty position_id ≡ false
    pub count : ℕ
    pub sha : Text
    pub verified : verify L file ≡ ok (chain_valid count sha)
    pub event_is :
        event ≡ sealed L (body_of (count + 1) sha event_type position_id broker_epoch payload)
    pub file_is :
        file' ≡ written L (body_of (count + 1) sha event_type position_id broker_epoch payload) file
    pub count' : ℕ
    pub sha' : Text
    pub verified' : verify L file' ≡ ok (chain_valid count' sha')

  post_check-ok :
      (body event : Fields N) (r : Result JournalError Verification)
      → post_check L body r ≡ ok event
      → (event ≡ sealed L body) × (n : ℕ) × (sha : Text) × (r ≡ ok (chain_valid n sha))
  unfolding post_check
  post_check-ok body event (err e) h = ground (arith, h)
  post_check-ok body event (ok (broken reason i n)) h = ground (arith, h)
  post_check-ok body event (ok (chain_valid n sha)) h =
      elim (Bool-cases (text_eq sha (body_sha L body))) [
        | inl q ↦ (ground (arith, q, h), n, sha, refl)
        | inr q ↦ ground (arith, q, h)
      ]

  append_verified-IsAppended :
      (event_type position_id : Text) (broker_epoch : ℤ) (payload event : Fields N)
      (file file' : File) (r : Result JournalError Verification)
      → is_empty position_id ≡ false
      → verify L file ≡ r
      → append_verified L event_type position_id broker_epoch payload r file ≡ (ok event, file')
      → IsAppended event_type position_id broker_epoch payload file event file'
  unfolding append_verified write
  append_verified-IsAppended event_type position_id broker_epoch payload event file file' (err e) d
        v h =
      absurd (cc (ap (λ q. q.0) h))
  append_verified-IsAppended event_type position_id broker_epoch payload event file file'
        (ok (broken reason i n)) d v h =
      absurd (cc (ap (λ q. q.0) h))
  append_verified-IsAppended event_type position_id broker_epoch payload event file file'
        (ok (chain_valid n sha)) d v h =
      let body = body_of (n + 1) sha event_type position_id broker_epoch payload in
      let (same, n', sha', v') =
        post_check-ok body event (verify L (written L body file)) (ap (λ q. q.0) h) in
      record {
        named = d;
        count = n;
        sha = sha;
        verified = v;
        event_is = same;
        file_is = ap (λ q. q.1) (sym h);
        count' = n';
        sha' = sha';
        verified' = ap (λ (q : Result AppendError (Fields N) × File). verify L q.1) (sym h) ∙ v';
      }

  pub append_event-IsAppended :
      (event_type position_id : Text) (broker_epoch : ℤ) (payload event : Fields N)
      (file file' : File)
      → append_event L event_type position_id broker_epoch payload file ≡ (ok event, file')
      → IsAppended event_type position_id broker_epoch payload file event file'
  unfolding append_event
  append_event-IsAppended event_type position_id broker_epoch payload event file file' h =
      elim (Bool-cases (is_empty event_type)) [
        | inl p ↦ ground (arith, p, h)
        | inr p ↦ elim (Bool-cases (is_empty position_id)) [
          | inl q ↦ ground (arith, p, q, h)
          | inr q ↦
              append_verified-IsAppended event_type position_id broker_epoch payload event file
                file' (verify L file) q refl (ground (arith, p, q, h))
        ]
      ]

  pub sealed-ShowsBody :
      (n : ℕ) (sha event_type position_id : Text) (broker_epoch : ℤ) (payload : Fields N)
      → ShowsBody event_type position_id broker_epoch payload
          (sealed L (body_of n sha event_type position_id broker_epoch payload))
  unfolding body_of get text_eq
  sealed-ShowsBody n sha event_type position_id broker_epoch payload =
      let body = body_of n sha event_type position_id broker_epoch payload in
      let hash = string (body_sha L body) in
      record {
        type_of = get-with_field (codes "event_sha256") (codes "event_type") hash body;
        id_of = get-with_field (codes "event_sha256") (codes "position_id") hash body;
        epoch_of = get-with_field (codes "event_sha256") (codes "broker_epoch") hash body;
        payload_of = get-with_field (codes "event_sha256") (codes "payload") hash body;
      }
