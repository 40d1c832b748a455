-- ===== src/Trash/Metadata/RoundTrip.antt =====
-- What internal/trash/metadata.go writes, it reads back.
use mathlib.Core.Path.{subst}
use linux_deep_clean.Prelude.{
  Bool, false, ◌⊎◌, Bool-cases, inl, inr, if◌then◌else◌, ◌&&◌, ◌||◌, ltb, ◌≡◌, refl, sym, ap, ◌∙◌,
  arith, true, false, not, ◌∷◌, ◌++◌, All, IsBytes, some, leb, leb→le, le→ltb_false, ◌==◌, ==_iff,
  Bytes, bytes_equal, bytes_equal_iff, codes, length, Result, ok, err, bind-eq-ok, ok-injective,
  require, require-eq-ok,
}
use linux_deep_clean.Pathbytes.BytePath.{PathError, BytePath, new_path, default_trash_decode_limits}
use linux_deep_clean.Pathbytes.BytePath.Names.{IsPath, new_path_iff}
use linux_deep_clean.Pathbytes.TrashCodec.{percent_encode_trash_path, percent_decode_trash_path}
use linux_deep_clean.Pathbytes.TrashCodec.RoundTrip.{percent_encode-IsPath}
use linux_deep_clean.Pathbytes.TrashCodec.Canonical.{percent_decode-IsCanonical}
use linux_deep_clean.Ledger.Records.{split}
use linux_deep_clean.Trash.Facts.{Kinds, valid_token, valid_date}
use linux_deep_clean.Trash.Metadata.{
  Clock, InfoError, bad_date, TrashInfo, maximum_info_bytes, known_basis, trash_info_basename,
  as_path, rooted, take_body, required, parse_metadata_path, validate_info, new_trash_info,
  contents_of, marshal, parsed_date, parse_deletion_date, parse_trash_info,
}
use linux_deep_clean.Trash.Metadata.Encoded.{
  IsVisible, encode_from-IsVisible, percent_encode-injective,
}
use linux_deep_clean.Trash.Metadata.Text.{
  path_text-rooted, rooted-IsVisible, take_two, encode_from-Starts, frame, frame_contains,
  split-frame,
}

as_path-eq-ok : {A : Type 0} (r : Result PathError A) (a : A) → as_path r ≡ ok a → r ≡ ok a
as_path-eq-ok (ok b) a h = cc
as_path-eq-ok (err e) a h = cc

-- What the Go library documents of the layout: a time of the years 1 to 9999 is written as 19 visible
-- bytes, its wall clock. They are read as that wall clock in UTC, which has the year, no fraction of
-- a second, and the same text. It may be the zero time, which no check takes for a date.
pub record ClockLaws (k : Kinds) (clock : Clock k) : Type 0 where
  pub wall : k.Time → k.Time
  pub size : (t : k.Time) → valid_date k t ≡ true → length (clock.format t) ≡ 19
  pub visible : (t : k.Time) → valid_date k t ≡ true → All IsVisible (clock.format t)
  pub reads : (t : k.Time) → valid_date k t ≡ true → clock.parse (clock.format t) ≡ some (wall t)
  pub writes : (t : k.Time) → valid_date k t ≡ true → clock.format (wall t) ≡ clock.format t
  pub whole : (t : k.Time) → valid_date k t ≡ true → k.nanosecond (wall t) ≡ 0
  pub year : (t : k.Time) → valid_date k t ≡ true → k.year (wall t) ≡ k.year t

last_holds : (a b c : Bool) → (a && b && c) ≡ true → c ≡ true
last_holds a b c h = ground arith

decodes_same :
    (path decoded : BytePath)
    → IsPath path.components
    → All IsBytes path.components
    → percent_decode_trash_path (percent_encode_trash_path path) ≡ ok decoded
    → decoded ≡ path
unfolding percent_decode_trash_path
decodes_same path decoded valid bytes h =
    let is = percent_decode-IsCanonical default_trash_decode_limits _ decoded h in
    percent_encode-injective decoded path is.valid valid is.bytes bytes is.encodes

module _ {k : Kinds} where
  -- What the checks of a record say.
  record IsInfo (info : TrashInfo k) : Type 0 where
    token : trash_info_basename info.token ≡ ok (info.token ++ codes ".trashinfo")
    basis : known_basis info.basis ≡ true
    made : new_path info.path.components ≡ ok info.path
    path : IsPath info.path.components
    decodes : percent_decode_trash_path (percent_encode_trash_path info.path) ≡ ok info.path
    date : valid_date k info.deleted_at ≡ true

  validate_info-IsInfo :
      (info : TrashInfo k)
      → All IsBytes info.path.components
      → validate_info info ≡ ok tt
      → IsInfo info
  unfolding validate_info trash_info_basename
  validate_info-IsInfo info bytes h =
      let (_, token, h1) = bind-eq-ok (trash_info_basename info.token) _ h in
      let (_, basis, h2) = bind-eq-ok (require (known_basis info.basis) _) _ h1 in
      let (path, made, h3) = bind-eq-ok (as_path (new_path info.path.components)) _ h2 in
      let (decoded, decodes, date) =
        bind-eq-ok (as_path (percent_decode_trash_path (percent_encode_trash_path info.path))) _
          h3 in
      let (valid, same) = (new_path_iff info.path.components path).0 (as_path-eq-ok _ path made) in
      let decodes' = as_path-eq-ok _ decoded decodes in
      let (_, named, _) = bind-eq-ok (require (valid_token info.token) _) _ token in
      record {
        token = rw (require-eq-ok _ _ named) refl;
        basis = require-eq-ok _ _ basis;
        made = (new_path_iff info.path.components info.path).1 (valid, refl);
        path = valid;
        decodes = decodes' ∙ ap ok (decodes_same info.path decoded valid bytes decodes');
        date = require-eq-ok _ _ date;
      }

  IsInfo-validate_info : (info : TrashInfo k) → IsInfo info → validate_info info ≡ ok tt
  unfolding validate_info
  IsInfo-validate_info info is = rw (is.token, is.basis, is.made, is.decodes, is.date) refl

module _ {k : Kinds} (clock : Clock k) (laws : ClockLaws k clock) where
  -- The wall clock is a date unless it is the zero time.
  wall-valid_date :
      (t : k.Time)
      → valid_date k t ≡ true
      → valid_date k (laws.wall t) ≡ not (k.is_zero (laws.wall t))
  unfolding valid_date
  wall-valid_date t h =
      let dated =
        last_holds (not (k.is_zero t)) (k.nanosecond t == 0)
          (not (ltb (k.year t) 1 || ltb 9999 (k.year t))) h in
      rw (laws.whole t h, laws.year t h, dated) (ground arith)

  -- What a record is read back as.
  pub ReadsBack : TrashInfo k → Result InfoError (TrashInfo k) → Type 0
  ReadsBack info given =
      (((k.is_zero (laws.wall info.deleted_at) ≡ false)
          × (given ≡ ok (record info { deleted_at = laws.wall info.deleted_at })))
        ⊎ ((k.is_zero (laws.wall info.deleted_at) ≡ true) × (given ≡ err bad_date)))

  parse_date :
      (t : k.Time)
      → valid_date k t ≡ true
      → parse_deletion_date clock (clock.format t)
        ≡ (if k.is_zero (laws.wall t) then err bad_date else ok (laws.wall t))
  unfolding parse_deletion_date parsed_date
  parse_date t h =
      rw
        (
          (==_iff _ _).1 (laws.size t h),
          laws.reads t h,
          (bytes_equal_iff (clock.format (laws.wall t)) (clock.format t)).1 (laws.writes t h),
          wall-valid_date t h,
        )
        (elim (Bool-cases (k.is_zero (laws.wall t))) [ inl z ↦ rw z refl | inr z ↦ rw z refl ])

  parse_path :
      (info : TrashInfo k)
      → IsInfo info
      → parse_metadata_path (rooted info.basis (percent_encode_trash_path info.path)) info.basis
        ≡ ok info.path
  unfolding parse_metadata_path
  parse_path info is =
      let starts = encode_from-Starts info.path.components is.path in
      let text_is : percent_encode_trash_path info.path ≡ starts.first ∷ starts.rest =
        percent_encode-IsPath info.path.components is.path ∙ starts.text_is in
      let text = path_text-rooted info.basis starts.first starts.rest is.basis starts.no_slash in
      rw text_is (rw text (rw (sym text_is, is.decodes) refl))

  parsed-validate_info :
      (info : TrashInfo k)
      → IsInfo info
      → k.is_zero (laws.wall info.deleted_at) ≡ false
      → validate_info (record info { deleted_at = laws.wall info.deleted_at }) ≡ ok tt
  parsed-validate_info info is some_time = IsInfo-validate_info _ (record {
    token = is.token;
    basis = is.basis;
    made = is.made;
    path = is.path;
    decodes = is.decodes;
    date = wall-valid_date info.deleted_at is.date ∙ rw some_time refl;
  })

  body_found :
      (path date : Bytes)
      → All IsVisible path
      → All IsVisible date
      → take_body (split b'\n' (frame path date))
        ≡ ok (record { path = some path; date = some date })
  unfolding take_body bytes_equal
  body_found path date p d = rw (split-frame path date p d) (ap ok (take_two path date))

  -- What is written of a record whose path consists of bytes is read back for its token and its
  -- basis, with the deletion date as a wall clock in UTC, exactly unless that wall clock is the zero
  -- time. Then its date is refused.
  pub parse_trash_info-marshal :
      (info : TrashInfo k) (contents : Bytes)
      → All IsBytes info.path.components
      → marshal clock info ≡ ok contents
      → ReadsBack info (parse_trash_info clock contents info.token info.basis)
  unfolding marshal parse_trash_info required new_trash_info ReadsBack
  parse_trash_info-marshal info contents bytes h =
      let (_, checked, h1) = bind-eq-ok (validate_info info) _ h in
      let (_, _, h2) =
        bind-eq-ok (require (not (length (percent_encode_trash_path info.path) == 0)) _) _ h1 in
      let (_, fits, same) =
        bind-eq-ok (require (leb (length (contents_of clock info)) maximum_info_bytes) _) _ h2 in
      let is = validate_info-IsInfo info bytes checked in
      let date = clock.format info.deleted_at in
      let path = rooted info.basis (percent_encode_trash_path info.path) in
      let date_visible = laws.visible info.deleted_at is.date in
      let path_visible = rooted-IsVisible info.basis _ (
        subst (All IsVisible) (sym (percent_encode-IsPath info.path.components is.path))
          (encode_from-IsVisible 0 info.path.components bytes)) in
      let (no_nul, no_return) = frame_contains path date path_visible date_visible in
      let short =
        le→ltb_false _ _
          (leb→le (length (frame path date)) maximum_info_bytes (require-eq-ok _ _ fits)) in
      let some_text : (length (contents_of clock info) == 0) ≡ false = ground arith in
      rw (sym (ok-injective same)) (
        rw
          (
            is.token,
            is.basis,
            some_text,
            short,
            no_nul,
            no_return,
            body_found path date path_visible date_visible,
            parse_path info is,
            parse_date info.deleted_at is.date,
          )
          (elim (Bool-cases (k.is_zero (laws.wall info.deleted_at))) [
            | inl zero ↦ inr (zero, rw zero refl)
            | inr some_time ↦
                inl (some_time, rw (some_time, parsed-validate_info info is some_time) refl)
          ]))
