-- ===== src/Channel/Decoding.antt =====
-- What `from_raw` decodes.
use ara2_bridge.Base.{
  ℕ, zero, suc, Bool, true, false, not, ◌&&◌, ◌||◌, List, [], ◌∷◌, length, ltb, leb, if◌then◌else◌,
  ◌==◌, ◌≡◌, refl, sym, ap, ◌∙◌, ◌+◌, ◌*◌, arith, ==_iff, Bool-cases, inl, inr, subst,
}
use ara2_bridge.Base.Bytes.{take, drop}
use ara2_bridge.Errors.{
  Result, ok, guard, guard_bind, ok_bind, not-true_iff, AraError, invalid_argument, ◌>>=◌, ◌>>◌,
}
use ara2_bridge.Channel.{
  CoreAudioChannelDescription, all_finite, new_description, ChannelArrangement, undefined, vst3,
  aax, core_audio, clap_map, clap_ambisonic, opaque_arrangement, tag_layout, description_layout,
  read_descriptions, decode_tag, decode_descriptions, decode_core_audio, from_raw, word_at, from_ne,
}

abbrev pub AllFinite : List CoreAudioChannelDescription → Type 0
AllFinite [] = Unit
AllFinite (d ∷ ds) = (all_finite d.coordinates ≡ true) × AllFinite ds

-- How an arrangement fits the bytes and the channel count that it was decoded from.
abbrev pub Fits : List ℕ → ℕ → ChannelArrangement → Type 0
Fits bytes n undefined = length bytes ≡ 0
Fits bytes n (vst3 mask) = length bytes ≡ 8
Fits bytes n (aax stem) = length bytes ≡ 4
Fits bytes n (core_audio (tag_layout tag)) =
    (length bytes ≡ 12) × ((tag == 0) ≡ false) × ((tag == 65536) ≡ false)
Fits bytes n (core_audio (description_layout ds)) =
    (length bytes ≡ 20 * length ds + 12) × AllFinite ds
Fits bytes n (clap_map map) = (map ≡ bytes) × (length bytes ≡ n)
Fits bytes n (clap_ambisonic ordering normalization) = length bytes ≡ 8
Fits bytes n (opaque_arrangement o) = ⊥

-- A value that comes after a test on the size.
sized :
    {A : Type 0} (bytes : List ℕ) (n : ℕ) (x : A) (e : AraError) {a : A}
    → (guard (length bytes == n) e >> ok x) ≡ ok a
    → (length bytes ≡ n) × (x ≡ a)
sized bytes n x e f =
    let (size, same) = (guard_bind (length bytes == n) e (ok x)).0 f in
    ((==_iff (length bytes) n).0 size, cc)

new_description-ok :
    (label flags : ℕ) (coordinates : ℕ × ℕ × ℕ) {d : CoreAudioChannelDescription}
    → new_description label flags coordinates ≡ ok d
    → all_finite d.coordinates ≡ true
unfolding new_description
new_description-ok label flags coordinates {d} e =
    let description : CoreAudioChannelDescription = record {
      label = label;
      flags = flags;
      coordinates = coordinates;
    } in
    let (finite, same) =
      (guard_bind (all_finite coordinates)
          (invalid_argument "Core Audio channel coordinates must be finite") (ok description)).0
        e in
    let d_is : description ≡ d = cc in subst (λ z. all_finite z.coordinates ≡ true) d_is finite

read_descriptions-ok :
    (big : Bool) (n : ℕ) (bytes : List ℕ) {ds : List CoreAudioChannelDescription}
    → read_descriptions big n bytes ≡ ok ds
    → (length ds ≡ n) × AllFinite ds
unfolding read_descriptions
read_descriptions-ok big zero bytes {ds} e =
    let same : [] ≡ ds = cc in subst (λ z. (length z ≡ 0) × AllFinite z) same (refl, tt)
read_descriptions-ok big (suc n) bytes {ds} e =
    let (d, f, e) =
      ok_bind
        (new_description (word_at big 0 bytes) (word_at big 4 bytes)
          (word_at big 8 bytes, word_at big 12 bytes, word_at big 16 bytes))
        (λ d. read_descriptions big n (drop 20 bytes) >>= (λ rest. ok (d ∷ rest))) e in
    let (rest, g, e) =
      ok_bind (read_descriptions big n (drop 20 bytes)) (λ rest. ok (d ∷ rest)) e in
    let (size, finite) = read_descriptions-ok big n (drop 20 bytes) g in
    let same : d ∷ rest ≡ ds = cc in
    subst (λ z. (length z ≡ suc n) × AllFinite z) same
      (
        ap suc size,
        (
          new_description-ok (word_at big 0 bytes) (word_at big 4 bytes)
              (word_at big 8 bytes, word_at big 12 bytes, word_at big 16 bytes) f,
          finite,
        ),
      )

decode_tag-ok :
    (tag count n : ℕ) (bytes : List ℕ) {a : ChannelArrangement}
    → (tag == 0) ≡ false
    → (tag == 65536) ≡ false
    → decode_tag tag count (length bytes) ≡ ok a
    → Fits bytes n a
unfolding decode_tag
decode_tag-ok tag count n bytes {a} x y e =
    let (alone, same) =
      (guard_bind (not (not (count == 0) || not (length bytes == 12)))
          (invalid_argument "tagged Core Audio layout must have no descriptions")
          (ok (core_audio (tag_layout tag)))).0
        e in
    let size : length bytes ≡ 12 = ground arith in
    let whole : core_audio (tag_layout tag) ≡ a = cc in subst (Fits bytes n) whole (size, x, y)

decode_descriptions-ok :
    (big : Bool) (usize_max count n : ℕ) (bytes : List ℕ) {a : ChannelArrangement}
    → decode_descriptions big usize_max count bytes ≡ ok a
    → Fits bytes n a
unfolding decode_descriptions
decode_descriptions-ok big usize_max count n bytes {a} e =
    let decoded : Result AraError ChannelArrangement =
      read_descriptions big count (drop 12 bytes)
      >>= (λ ds. ok (core_audio (description_layout ds))) in
    let extent : AraError = invalid_argument "Core Audio description extent mismatch" in
    let sized_part : Result AraError ChannelArrangement =
      guard (length bytes == count * 20 + 12) extent >> decoded in
    let (_, e) =
      (guard_bind (leb count usize_max) (invalid_argument "Core Audio description count overflow") (
          guard (leb (count * 20) usize_max && leb (count * 20 + 12) usize_max)
            (invalid_argument "Core Audio layout extent overflow")
          >> sized_part)).0
        e in
    let (_, e) =
      (guard_bind (leb (count * 20) usize_max && leb (count * 20 + 12) usize_max)
          (invalid_argument "Core Audio layout extent overflow") sized_part).0
        e in
    let (size, e) = (guard_bind (length bytes == count * 20 + 12) extent decoded).0 e in
    let (ds, f, e) =
      ok_bind (read_descriptions big count (drop 12 bytes))
        (λ ds. ok (core_audio (description_layout ds))) e in
    let (many, finite) = read_descriptions-ok big count (drop 12 bytes) f in
    let size_is = (==_iff (length bytes) (count * 20 + 12)).0 size in
    let total : length bytes ≡ 20 * length ds + 12 = omega arith in
    let whole : core_audio (description_layout ds) ≡ a = cc in
    subst (Fits bytes n) whole (total, finite)

decode_core_audio-ok :
    (big : Bool) (usize_max n : ℕ) (bytes : List ℕ) {a : ChannelArrangement}
    → decode_core_audio big usize_max bytes ≡ ok a
    → Fits bytes n a
unfolding decode_core_audio
decode_core_audio-ok big usize_max n bytes {a} e =
    let tag : ℕ = word_at big 0 bytes in
    let count : ℕ = word_at big 8 bytes in
    let described : Result AraError ChannelArrangement =
      decode_descriptions big usize_max count bytes in
    let tagged : Result AraError ChannelArrangement = decode_tag tag count (length bytes) in
    let rest : Result AraError ChannelArrangement = if tag == 0 then described else tagged in
    let (_, e) =
      (guard_bind (not (ltb (length bytes) 12))
          (invalid_argument "Core Audio layout is shorter than its header")
          (guard (not (tag == 65536)) (invalid_argument "Core Audio bitmap layouts are not allowed")
            >> rest)).0
        e in
    let (allowed, e) =
      (guard_bind (not (tag == 65536))
          (invalid_argument "Core Audio bitmap layouts are not allowed") rest).0
        e in
    elim (Bool-cases (tag == 0)) [
      | inl on ↦ described_fits count (sym (ap (λ b. if b then described else tagged) on) ∙ e)
      | inr off ↦
          tagged_fits tag count off ((not-true_iff (tag == 65536)).0 allowed)
            (sym (ap (λ b. if b then described else tagged) off) ∙ e)
    ]
  where
    described_fits :
        (count : ℕ) → decode_descriptions big usize_max count bytes ≡ ok a → Fits bytes n a
    described_fits count f = decode_descriptions-ok big usize_max count n bytes f

    tagged_fits :
        (tag count : ℕ)
        → (tag == 0) ≡ false
        → (tag == 65536) ≡ false
        → decode_tag tag count (length bytes) ≡ ok a
        → Fits bytes n a
    tagged_fits tag count x y f = decode_tag-ok tag count n bytes x y f

-- What `from_raw` decodes fits the bytes and the channel count: a layout has the size of its form,
-- a Core Audio tag is neither of the two that need descriptions or a bitmap, descriptions fill the
-- bytes after the header and have finite coordinates, and a CLAP map has one byte for each channel.
pub from_raw-Fits :
    (big : Bool) (usize_max data_type n : ℕ) (bytes : List ℕ) {a : ChannelArrangement}
    → from_raw big usize_max data_type bytes n ≡ ok a
    → Fits bytes n a
unfolding from_raw
from_raw-Fits big usize_max zero n bytes e =
    let (size, same) = sized bytes 0 undefined _ e in subst (Fits bytes n) same size
from_raw-Fits big usize_max (suc zero) n bytes e =
    let (size, same) = sized bytes 8 (vst3 (from_ne big bytes)) _ e in
    subst (Fits bytes n) same size
from_raw-Fits big usize_max (suc (suc zero)) n bytes e =
    decode_core_audio-ok big usize_max n bytes e
from_raw-Fits big usize_max (suc (suc (suc zero))) n bytes e =
    let (size, same) = sized bytes 4 (aax (from_ne big bytes)) _ e in subst (Fits bytes n) same size
from_raw-Fits big usize_max (suc (suc (suc (suc zero)))) n bytes e =
    let (size, same) = sized bytes n (clap_map bytes) _ e in subst (Fits bytes n) same (refl, size)
from_raw-Fits big usize_max (suc (suc (suc (suc (suc zero))))) n bytes e =
    let (size, same) =
      sized bytes 8 (clap_ambisonic (from_ne big (take 4 bytes)) (from_ne big (drop 4 bytes))) _
        e in
    subst (Fits bytes n) same size
from_raw-Fits big usize_max (suc (suc (suc (suc (suc (suc t)))))) n bytes e = cc
