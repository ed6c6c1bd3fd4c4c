-- ===== src/Journal/Json.antt =====
-- The values that `json.loads` returns, and what the journal does with an event. The encoder, the
-- decoder, the hash and the built-in conversions are parameters.
use mss_package.Common.{
  ◌≡◌, refl, Bool, true, false, Option, none, some, arith, Result, if◌then◌else◌,
}
use mss_package.Common.Int.{ℤ}
use mss_package.Common.Text.{Text, text_eq, text_eq_iff}

mutual
  pub data Json (N : Type 0) : Type 0 where
    null : Json N
    boolean : Bool → Json N
    integer : ℤ → Json N
    floating : N → Json N
    string : Text → Json N
    array : Items N → Json N
    object : Fields N → Json N

  pub data Items (N : Type 0) : Type 0 where
    nil : Items N
    cons : Json N → Items N → Items N

  -- A dictionary, in insertion order.
  pub data Fields (N : Type 0) : Type 0 where
    end : Fields N
    field : Text → Json N → Fields N → Fields N

-- The exceptions of `float(x)` and `int(x)`: those that the callers catch, and `OverflowError`.
pub data ConversionError : Type 0 where
  type_or_value_error overflow_error : ConversionError

-- The library functions that the journal and its recovery rest on.
pub record Library (N : Type 0) : Type 0 where
  -- `json.dumps(x, ensure_ascii=False, sort_keys=True, separators=(",", ":"), default=str)`
  pub canonical_json : Json N → Text
  -- `json.loads`, with `none` for `JSONDecodeError`
  pub loads : Text → Option (Json N)
  -- `hashlib.sha256(text.encode("utf-8")).hexdigest()`
  pub sha256 : Text → Text
  -- `str(x)` of a value that is no string
  pub repr : Json N → Text
  pub to_float : Json N → Result ConversionError N
  pub to_int : Json N → Result ConversionError ℤ

module _ {N : Type 0} where
  -- The dictionary, where a value is one: only it has `.get`.
  unfoldable pub as_object : Json N → Option (Fields N)
  as_object (object fs) = some fs
  as_object _ = none

  -- `fields.get(key)`
  unfoldable pub get : Text → Fields N → Option (Json N)
  get key end = none
  get key (field k v fs) = if text_eq k key then some v else get key fs

  -- `fields.pop(key, None)`
  unfoldable pub without : Text → Fields N → Fields N
  without key end = end
  without key (field k v fs) = if text_eq k key then fs else field k v (without key fs)

  -- `fields[key] = value`
  unfoldable pub with_field : Text → Json N → Fields N → Fields N
  with_field key value end = field key value end
  with_field key value (field k v fs) =
      if text_eq k key then field k value fs else field k v (with_field key value fs)

  -- `value == text`, where `none` is `None`
  unfoldable pub is_text : Option (Json N) → Text → Bool
  is_text (some (string s)) t = text_eq s t
  is_text _ t = false

  pub is_text-eq : (v : Option (Json N)) (t : Text) → is_text v t ≡ true → v ≡ some (string t)
  unfolding is_text
  is_text-eq (some (string s)) t h = ground (arith, text_eq_iff s t)
  is_text-eq none t h = cc
  is_text-eq (some null) t h = cc
  is_text-eq (some (boolean b)) t h = cc
  is_text-eq (some (integer n)) t h = cc
  is_text-eq (some (floating x)) t h = cc
  is_text-eq (some (array xs)) t h = cc
  is_text-eq (some (object fs)) t h = cc

  pub get-with_field :
      (k key : Text) (v : Json N) (fs : Fields N)
      → get key (with_field k v fs) ≡ (if text_eq k key then some v else get key fs)
  unfolding get with_field
  get-with_field k key v end = refl
  get-with_field k key v (field j w fs) =
      ground
        (arith, text_eq_iff k key, text_eq_iff j k, text_eq_iff j key, get-with_field k key v fs)

  -- Setting a field that was absent and taking it away again.
  pub without-with_field :
      (k : Text) (v : Json N) (fs : Fields N) → get k fs ≡ none → without k (with_field k v fs) ≡ fs
  unfolding get with_field without
  without-with_field k v end h = ground (arith, text_eq_iff k k)
  without-with_field k v (field j w fs) h =
      ground (arith, text_eq_iff j k, without-with_field k v fs)
