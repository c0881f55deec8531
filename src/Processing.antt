-- ===== src/Processing.antt =====
-- Processing algorithms and license requests of ara2-bridge-core/src/processing.rs. A text is its
-- bytes, flags are the bits of a number, and a content type is the bit pattern of an `i32`.
pub mod Catalogs
pub mod Licenses
use ara2_bridge.Base.{
  ℕ, Bool, true, false, not, ◌&&◌, ◌||◌, Option, some, none, List, [], ◌∷◌, length, any, ltb, leb,
  get_elem?, map, if◌then◌else◌, ◌==◌, ◌^◌, ◌-◌,
}
use ara2_bridge.Base.Bytes.{same_bytes}
use ara2_bridge.Base.Distinct.{is_in, repeats}
use ara2_bridge.Errors.{
  Result, ok, err, guard, ok_or, AraError, invalid_argument, invalid_state, ◌>>=◌, ◌>>◌,
}
use Prim.Native.Nat.{bit_and, bit_xor}

-- `i32`.
pub data ℤ : Type 0 where
  pos : ℕ → ℤ
  negsuc : ℕ → ℤ

abbrev pub i32_max : ℕ
i32_max = 2 ^ 31 - 1

pub record ProcessingAlgorithmProperties : Type 0 where
  pub persistent_id : List ℕ
  pub name : List ℕ

abbrev is_empty : List ℕ → Bool
is_empty [] = true
is_empty (b ∷ bs) = false

-- What `CString::new` refuses.
abbrev has_nul : List ℕ → Bool
has_nul bytes = any (λ b. b == 0) bytes

unfoldable pub new_algorithm : List ℕ → List ℕ → Result AraError ProcessingAlgorithmProperties
new_algorithm persistent_id name = do
  guard (not (is_empty persistent_id || any (λ b. not (ltb b 128)) persistent_id))
      (invalid_argument "processing algorithm ID must be nonempty ASCII")
  guard (not (is_empty name)) (invalid_argument "processing algorithm name must be nonempty")
  guard (not (has_nul persistent_id)) (invalid_argument "processing algorithm ID contains NUL")
  guard (not (has_nul name)) (invalid_argument "processing algorithm name contains NUL")
  ok (record { persistent_id = persistent_id; name = name })

abbrev pub Catalog : Type 0
Catalog = List ProcessingAlgorithmProperties

abbrev pub ids : Catalog → List (List ℕ)
ids [] = []
ids (entry ∷ entries) = entry.persistent_id ∷ ids entries

unfoldable pub new_catalog : Catalog → Result AraError Catalog
new_catalog entries = do
  guard (not (repeats same_bytes [] (ids entries)))
      (invalid_argument "duplicate processing algorithm ID")
  ok entries

unfoldable pub len_i32 : Catalog → Result AraError ℤ
len_i32 entries =
    if leb (length entries) i32_max
    then ok (pos (length entries))
    else err (invalid_state "processing algorithm count exceeds i32")

unfoldable pub get_algorithm : ℤ → Catalog → Result AraError ProcessingAlgorithmProperties
get_algorithm (pos index) entries =
    ok_or (get_elem? entries index) (invalid_argument "processing algorithm index is out of bounds")
get_algorithm (negsuc _) entries = err (invalid_argument "negative processing algorithm index")

-- Both content fades.
abbrev pub content_fades : ℕ
content_fades = 12

abbrev pub same_type : ℕ → ℕ → Bool
same_type a b = a == b

pub record LicenseCapabilities : Type 0 where
  pub content_types : List ℕ
  pub transformations : ℕ

unfoldable pub new_capabilities : List ℕ → ℕ → Result AraError LicenseCapabilities
new_capabilities content_types transformations = do
  let fades = bit_and transformations content_fades
  guard (fades == 0 || fades == content_fades)
      (invalid_argument "supported content fades must include both borders")
  ok (record { content_types = content_types; transformations = transformations })

pub record LicenseRequest : Type 0 where
  pub run_modal_activation : Bool
  pub content_types : List ℕ
  pub transformations : ℕ

-- The four flags that are defined.
abbrev pub defined_flags : ℕ
defined_flags = 15

-- `!`: the defined flags that are not set, without the bits that have no name.
abbrev pub complement : ℕ → ℕ
complement flags = bit_and (bit_xor flags (2 ^ 32 - 1)) defined_flags

unfoldable pub new_request :
    Bool → List ℕ → ℕ → LicenseCapabilities → Result AraError LicenseRequest
new_request run_modal_activation content_types transformations capabilities = do
  guard (not (repeats same_type [] content_types))
      (invalid_argument "license request contains duplicate content types")
  guard (not (any (λ t. not (is_in same_type t capabilities.content_types)) content_types))
      (invalid_argument "license content request is not supported")
  guard (bit_and transformations (complement capabilities.transformations) == 0)
      (invalid_argument "license transformation request is not supported")
  ok (record {
    run_modal_activation = run_modal_activation;
    content_types = content_types;
    transformations = transformations;
  })
