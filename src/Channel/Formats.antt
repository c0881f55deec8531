-- ===== src/Channel/Formats.antt =====
-- `ChannelFormat` of ara2-bridge-core/src/channel.rs: arrangements against their channel count.
use ara2_bridge.Base.{
  ℕ, zero, suc, Bool, true, false, not, ◌&&◌, ◌||◌, Option, some, none, List, length, ltb, leb,
  if◌then◌else◌, ◌==◌, ◌≡◌, sym, ◌⊎◌, ◌≤◌, ◌+◌, ◌-◌, ◌*◌, ◌/◌, ◌%◌, ◌^◌, arith, ==_iff,
}
use ara2_bridge.Errors.{
  Result, ok, guard, guard_bind, not-true_iff, AraError, invalid_argument, ◌>>◌,
}
use ara2_bridge.Channel.{
  ChannelArrangement, undefined, vst3, aax, core_audio, clap_map, clap_ambisonic,
  opaque_arrangement, tag_layout, description_layout, from_raw,
}
use ara2_bridge.Channel.Decoding.{AllFinite, Fits, from_raw-Fits}

-- How many of the lowest bits are set.
abbrev pub count_ones : ℕ → ℕ → ℕ
count_ones zero mask = 0
count_ones (suc n) mask = mask % 2 + count_ones n (mask / 2)

-- A length as a `u32`.
abbrev pub length_u32 {ℓ} : {A : Type ℓ} → List A → Option ℕ
length_u32 xs = if leb (length xs) (2 ^ 32 - 1) then some (length xs) else none

unfoldable pub implied_channel_count : ChannelArrangement → Option ℕ
implied_channel_count undefined = none
implied_channel_count (vst3 mask) = some (count_ones 64 mask)
implied_channel_count (aax stem) = some (stem % 2 ^ 16)
implied_channel_count (core_audio (tag_layout tag)) = some (tag % 2 ^ 16)
implied_channel_count (core_audio (description_layout descriptions)) = length_u32 descriptions
implied_channel_count (clap_map bytes) = length_u32 bytes
implied_channel_count (clap_ambisonic ordering normalization) = none
implied_channel_count (opaque_arrangement o) = none

pub record ChannelFormat : Type 0 where
  pub channel_count : ℕ
  pub arrangement : ChannelArrangement

abbrev pub is_unchecked_tag : ChannelArrangement → Bool
is_unchecked_tag (core_audio (tag_layout tag)) = tag == 0 || tag == 65536
is_unchecked_tag _ = false

abbrev pub is_undefined : ChannelArrangement → Bool
is_undefined undefined = true
is_undefined _ = false

-- The implied count, where there is one, is the explicit count.
abbrev pub agrees : Option ℕ → ℕ → Bool
agrees none channel_count = true
agrees (some implied) channel_count = implied == channel_count

unfoldable pub new_format : ℕ → ChannelArrangement → Result AraError ChannelFormat
unfolding implied_channel_count
new_format channel_count arrangement = do
  guard (not (is_unchecked_tag arrangement))
      (invalid_argument "Core Audio description and bitmap tags require validated forms")
  guard (not (is_undefined arrangement && ltb 2 channel_count))
      (invalid_argument "more than stereo requires a channel arrangement")
  guard (agrees (implied_channel_count arrangement) channel_count)
      (invalid_argument "arrangement channel count does not match")
  ok (record { channel_count = channel_count; arrangement = arrangement })

-- How an arrangement fits the bytes that it was decoded from and the channel count of its format; a
-- list that is too long for a `u32` implies no count.
abbrev pub Counted : List ℕ → ℕ → ChannelArrangement → Type 0
Counted bytes n undefined = (length bytes ≡ 0) × (n ≤ 2)
Counted bytes n (vst3 mask) = (length bytes ≡ 8) × (count_ones 64 mask ≡ n)
Counted bytes n (aax stem) = (length bytes ≡ 4) × (stem % 2 ^ 16 ≡ n)
Counted bytes n (core_audio (tag_layout tag)) = (length bytes ≡ 12) × (tag % 2 ^ 16 ≡ n)
Counted bytes n (core_audio (description_layout ds)) =
    (length bytes ≡ 20 * length ds + 12) × AllFinite ds × ((length ds ≡ n) ⊎ (2 ^ 32 ≤ length ds))
Counted bytes n (clap_map map) = (map ≡ bytes) × (length bytes ≡ n)
Counted bytes n (clap_ambisonic ordering normalization) = length bytes ≡ 8
Counted bytes n (opaque_arrangement o) = ⊥

counted :
    (bytes : List ℕ) (n : ℕ) (a : ChannelArrangement)
    → Fits bytes n a
    → (is_undefined a && ltb 2 n) ≡ false
    → agrees (implied_channel_count a) n ≡ true
    → Counted bytes n a
unfolding implied_channel_count
counted bytes n undefined h small agree = (h, ground arith)
counted bytes n (vst3 mask) h small agree = (h, (==_iff (count_ones 64 mask) n).0 agree)
counted bytes n (aax stem) h small agree = (h, (==_iff (stem % 2 ^ 16) n).0 agree)
counted bytes n (core_audio (tag_layout tag)) (h, _, _) small agree =
    (h, (==_iff (tag % 2 ^ 16) n).0 agree)
counted bytes n (core_audio (description_layout ds)) (h, finite) small agree =
    (h, finite, ground arith)
counted bytes n (clap_map map) h small agree = h
counted bytes n (clap_ambisonic ordering normalization) h small agree = h
counted bytes n (opaque_arrangement o) h small agree = h

-- When bytes are decoded for a channel count and the arrangement makes a format of that count, the
-- format has both, and the arrangement fits the bytes and the count: no more than two channels
-- without an arrangement, as many as a mask has bits, as a stem or a tag says, as there are
-- descriptions, whose coordinates are finite and whose number gives the size, or bytes of a map.
pub from_raw-new_format :
    (big : Bool) (usize_max data_type n : ℕ) (bytes : List ℕ) {a : ChannelArrangement}
    {f : ChannelFormat}
    → from_raw big usize_max data_type bytes n ≡ ok a
    → new_format n a ≡ ok f
    → (f ≡ record { channel_count = n; arrangement = a }) × Counted bytes n a
unfolding new_format
from_raw-new_format big usize_max data_type n bytes {a} {f} e g =
    let format : ChannelFormat = record { channel_count = n; arrangement = a } in
    let unlike : AraError = invalid_argument "arrangement channel count does not match" in
    let many : AraError = invalid_argument "more than stereo requires a channel arrangement" in
    let k2 : Result AraError ChannelFormat =
      guard (agrees (implied_channel_count a) n) unlike >> ok format in
    let (_, g) =
      (guard_bind (not (is_unchecked_tag a))
          (invalid_argument "Core Audio description and bitmap tags require validated forms")
          (guard (not (is_undefined a && ltb 2 n)) many >> k2)).0
        g in
    let (small, g) = (guard_bind (not (is_undefined a && ltb 2 n)) many k2).0 g in
    let (agree, g) = (guard_bind (agrees (implied_channel_count a) n) unlike (ok format)).0 g in
    let same : format ≡ f = cc in
    (
      sym same,
      counted bytes n a (from_raw-Fits big usize_max data_type n bytes e)
          ((not-true_iff (is_undefined a && ltb 2 n)).0 small) agree,
    )
