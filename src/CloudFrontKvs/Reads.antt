-- ===== src/CloudFrontKvs/Reads.antt =====
-- What the methods of packages/cloudfront-kvs/src/cloudfront-kvs-lock-provider.ts read of the store,
-- and what is relied on of the client.
use Prim.Native.String.{◌++◌}
use Prim.Native.String
use text.Mathlib.TextLemmas.{append_cancel_left}
use tslock.Prelude.{
  ℕ, ◌≡◌, ◌⊎◌, refl, ap, ◌∙◌, true, false, String, Option, none, some, Result, ok, throw, continue,
  no_etag, corrupted_record, ◌||◌, Exception, inl, inr, Bool-cases, ltb, ◌==◌,
}
use tslock.Backend.{IsoDates, content_at, Untouched, Writes}
use tslock.Backend.Laws
use tslock.Backend.Laws.{Untouched-Same, Writes-Puts}
use tslock.CloudFrontKvs
use tslock.CloudFrontKvs.{
  CloudFrontKeyValueStoreClient, CloudFrontKvsLockProvider, CloudFrontKvsLockRecord, Parsed,
  not_object, fields, is_nan, Json, Attempt, decode_lock_record, build_lock_record,
  parse_lock_until_ms, lock, extend, unlock, lock_once, unlock_once, extend_once, describe_etag,
  put_or_again, is_conflict, is_not_found, storage_key, get_record, held_at,
}

module _ {W : Type 0} (tag : W → String) (object : W → String → Option (String × String)) where
  -- A read changes nothing and finds what is there.
  abbrev pub Found : W → W → String → Result (Option String) → Type 0
  Found w w' key (ok o) = (w' ≡ w) × (content_at object w key ≡ o)
  Found w w' key (throw e) = (w' ≡ w) × (is_not_found e ≡ true → content_at object w key ≡ none)

  abbrev pub Described : W → W → Result (Option String) → Type 0
  Described w w' (ok none) = w' ≡ w
  Described w w' (ok (some etag)) = (w' ≡ w) × (tag w ≡ etag)
  Described w w' (throw e) = w' ≡ w

  -- A write that succeeds found the tag that it names; one that is in conflict did nothing; after
  -- any other error it may have written or not.
  abbrev pub Stored : W → W → String → String → String → Result (Unit {0}) → Type 0
  Stored w w' etag key value (ok u) = (tag w ≡ etag) × Writes object w w' key value
  Stored w w' etag key value (throw e) =
      (Untouched object w w' ⊎ ((tag w ≡ etag) × Writes object w w' key value))
      × (is_conflict e ≡ true → Untouched object w w')

  -- What the client documents of its three calls.
  pub record KvsLaws (client : CloudFrontKeyValueStoreClient W) : Type 0 where
    pub describes : (w : W) → Described w (client.describe w).1 (client.describe w).0
    pub gets :
        (key : String) (w : W) → Found w (client.get_key key w).1 key (client.get_key key w).0
    pub puts :
        (key value etag : String) (w : W)
        → Stored w
            (client.put_key key value etag w).1
            etag
            key
            value
            (client.put_key key value etag w).0

  -- What others do within an attempt is what `Others` allows, and if the tag is at the end what it
  -- was at the start, they have not written since the read.
  module _ (Others : ℕ → W → W → Type 0) where
    pub record Fair (attempt : Attempt W) : Type 0 where
      pub polite_before : (w : W) → Others attempt.now w (attempt.before w)
      pub polite : (w : W) → Others attempt.now w (attempt.others w)
      pub identifies :
          (w : W)
          → tag (attempt.others (attempt.before w)) ≡ tag w
          → Untouched object (attempt.before w) (attempt.others (attempt.before w))

module _ (dates : IsoDates) (json : Json) where
  abbrev until_of_result : Result CloudFrontKvsLockRecord → ℕ
  until_of_result (ok r) = Laws.until_of_parsed dates (parse_lock_until_ms dates json r)
  until_of_result (throw e) = 0

  -- The instant that a stored text says, 0 where it is no record.
  abbrev pub until_of : String → ℕ
  until_of value = until_of_result (decode_lock_record dates json value)

  decode_strings_cases :
      (until at by : Option String)
      → ((r : CloudFrontKvsLockRecord) × (CloudFrontKvs.decode_strings dates json until at by
            ≡ ok r))
        ⊎ (CloudFrontKvs.decode_strings dates json until at by ≡ throw corrupted_record)
  decode_strings_cases none at by = inr refl
  decode_strings_cases (some until) none by = inr refl
  decode_strings_cases (some until) (some at) none = inr refl
  decode_strings_cases (some until) (some at) (some by) =
      elim (Bool-cases
        (is_nan dates json (dates.parse until) || is_nan dates json (dates.parse at))) [
          | inl y ↦ rw y (inr refl)
          | inr n ↦ rw n (inl (_, refl))
        ]

  decode_cases :
      (value : String)
      → ((r : CloudFrontKvsLockRecord) × (decode_lock_record dates json value ≡ ok r))
        ⊎ (decode_lock_record dates json value ≡ throw corrupted_record)
  unfolding decode_lock_record
  decode_cases value = from (json.parse value)
    where
      from :
          (p : Option Parsed)
          → ((r : CloudFrontKvsLockRecord) × (CloudFrontKvs.decode_parsed dates json p ≡ ok r))
            ⊎ (CloudFrontKvs.decode_parsed dates json p ≡ throw corrupted_record)
      from none = inr refl
      from (some not_object) = inr refl
      from (some (fields until at by)) = decode_strings_cases until at by

  pub until-build :
      (until at : ℕ) (by : String)
      → until_of (json.stringify (build_lock_record dates json until at by)) ≡ until
  unfolding decode_lock_record
  until-build until at by =
      rw
        (
          json.parse-stringify (build_lock_record dates json until at by),
          dates.parse-to_iso_string until,
          dates.parse-to_iso_string at,
          dates.parse-to_iso_string until,
        )
        refl

module _ {W : Type 0} (provider : CloudFrontKvsLockProvider W) (tag : W → String)
    (object : W → String → Option (String × String))
    (laws : KvsLaws tag object provider.client) where
  open provider use {client, dates, json, byte_length, prefix, max_etag_retries, hostname}

  abbrev pub key_of : String → String
  key_of name = prefix ++ name

  abbrev pub view : W → String → ℕ
  view = Laws.view object (until_of dates json) key_of

  pub key-injective : (m n : String) → key_of m ≡ key_of n → m ≡ n
  key-injective m n e = append_cancel_left prefix m n e

  pub storage_key_cases :
      (name : String)
      → (storage_key byte_length prefix name ≡ ok (key_of name))
        ⊎ ((e : Exception) × (storage_key byte_length prefix name ≡ throw e)
            × (is_not_found e ≡ false)
            × (is_conflict e ≡ false))
  unfolding storage_key is_not_found is_conflict
  storage_key_cases name = elim (Bool-cases (ltb 512 (byte_length (key_of name)))) [
    | inl y ↦ rw y (inr (_, refl, refl, refl))
    | inr n ↦ rw n (elim (Bool-cases (ltb (String.len (key_of name)) 1)) [
      | inl y ↦ rw y (inr (_, refl, refl, refl))
      | inr m ↦ rw m (inl refl)
    ])
  ]

  pub describe_cases :
      (w : W)
      → ((etag : String) × (describe_etag provider w ≡ (ok etag, w)) × (tag w ≡ etag))
        ⊎ ((e : Exception) × (describe_etag provider w ≡ (throw e, w)))
  unfolding describe_etag
  describe_cases w = from (client.describe w) (laws.describes w)
    where
      from :
          (r : Result (Option String) × W)
          → Described tag object w r.1 r.0
          → ((etag : String) × (continue r.0 (λ out w. (CloudFrontKvs.tag_of provider out, w)) r.1
                ≡ (ok etag, w))
              × (tag w ≡ etag))
            ⊎ ((e : Exception) × (continue r.0 (λ out w. (CloudFrontKvs.tag_of provider out, w)) r.1
                  ≡ (throw e, w)))
      from (ok none, w') same = inr (_, ap (λ x. (throw no_etag, x)) same)
      from (ok (some etag), w') (same, e) = elim (Bool-cases (etag == "")) [
        | inl y ↦ rw y (inr (_, ap (λ x. (throw no_etag, x)) same))
        | inr n ↦ rw n (inl (etag, ap (λ x. (ok etag, x)) same, e))
      ]
      from (throw e, w') same = inr (e, ap (λ x. (throw e, x)) same)

  -- What the record that was read says of the name.
  abbrev pub Says : W → String → Option CloudFrontKvsLockRecord → Type 0
  Says w name none = view w name ≡ 0
  Says w name (some r) = view w name ≡ Laws.until_of_parsed dates (parse_lock_until_ms dates json r)

  abbrev pub Read : W → String → Result (Option CloudFrontKvsLockRecord) × W → Type 0
  Read w name r =
      ((o : Option CloudFrontKvsLockRecord) × (r ≡ (ok o, w)) × Says w name o)
      ⊎ ((e : Exception) × (r ≡ (throw e, w)))

  absent : (w : W) (name : String) → content_at object w (key_of name) ≡ none → view w name ≡ 0
  absent w name e = ap (Laws.until_or_zero object (until_of dates json) key_of) e

  abbrev caught_read :
      Result (Option CloudFrontKvsLockRecord) × W → Result (Option CloudFrontKvsLockRecord) × W
  caught_read = CloudFrontKvs.absent_or_thrown provider

  corrupted_is_there : is_not_found corrupted_record ≡ false
  unfolding is_not_found
  corrupted_is_there = refl

  fetch-Read :
      (w : W) (name : String) (r : Result (Option String) × W)
      → Found tag object w r.1 (key_of name) r.0
      → Read w name
          (caught_read (continue r.0 (λ value w. (CloudFrontKvs.decoded provider value, w)) r.1))
  fetch-Read w name (ok none, w') (same, at) = rw same (inl (none, refl, absent w name at))
  fetch-Read w name (ok (some value), w') (same, at) =
      rw same (elim (decode_cases dates json value) [
        | inl (r, e) ↦ rw e (
            inl (
              some r,
              refl,
              ap (Laws.until_or_zero object (until_of dates json) key_of) at
                  ∙ ap (until_of_result dates json) e,
            ))
        | inr e ↦ rw (e, corrupted_is_there) (inr (corrupted_record, refl))
      ])
  fetch-Read w name (throw e, w') (same, at) = elim (Bool-cases (is_not_found e)) [
    | inl y ↦ rw (same, y) (inl (none, refl, absent w name (at y)))
    | inr n ↦ rw (same, n) (inr (e, refl))
  ]

  pub get_record-Read : (w : W) (name : String) → Read w name (get_record provider name w)
  unfolding get_record
  get_record-Read w name = elim (storage_key_cases name) [
    | inl e ↦ rw e (fetch-Read w name (client.get_key (key_of name) w) (laws.gets (key_of name) w))
    | inr (x, e, n, _) ↦ rw (e, n) (inr (x, refl))
  ]
