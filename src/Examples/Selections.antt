-- ===== src/Examples/Selections.antt =====
-- Concrete archive filters, algorithm catalogs, license requests, channel formats
-- and snapshots.
use ara2_bridge.Base.{
  ℕ, true, false, some, none, List, [], ◌∷◌, length, ◌==◌, ◌^◌, ◌≡◌, refl, ◌↔◌, ◌<◌,
}
use ara2_bridge.Base.Distinct.{Distinct}
use ara2_bridge.Errors.{ok}
use ara2_bridge.Registry.{Handle, same_handle, audio_source_kind}
use ara2_bridge.Archive.Filters.{
  RestoreFilterBuilder, StoreFilter, audio_sources_phase, document_data_phase, phases,
  build_restore_filter, build_store_filter,
}
use ara2_bridge.Archive.Filters.Validity.{
  ValidMappings, described, OfSession, build_restore_filter_iff, build_store_filter_iff,
}
use ara2_bridge.Processing.{
  pos, ProcessingAlgorithmProperties, Catalog, new_catalog, get_algorithm, LicenseCapabilities,
  LicenseRequest, new_request, same_type, complement,
}
use ara2_bridge.Processing.Catalogs.{get_algorithm-index}
use ara2_bridge.Processing.Licenses.{AllIn, new_request_iff}
use ara2_bridge.Channel.{clap_map, from_raw}
use ara2_bridge.Channel.Formats.{ChannelFormat, new_format, Counted, from_raw-new_format}
use ara2_bridge.Realtime.{HeadTailEntry, new_view, query}
use ara2_bridge.Realtime.Lookup.{Has}
use ara2_bridge.Realtime.Lookup.Search.{query-new_view}
use Prim.Native.Nat.{bit_and}

abbrev two_sources : RestoreFilterBuilder
two_sources = record {
  document_data = true;
  audio_sources =
      record { archive_id = b'a' ∷ []; current_id = b'x' ∷ [] }
      ∷ record { archive_id = b'b' ∷ []; current_id = b'y' ∷ [] }
      ∷ [];
  audio_modifications = [];
}

phases_of_two : phases (described two_sources) ≡ audio_sources_phase ∷ document_data_phase ∷ []
unfolding phases
phases_of_two = refl

build_restore_filter_iff_example :
    (build_restore_filter two_sources ≡ ok (described two_sources)) ↔ (
      (described two_sources ≡ described two_sources)
      × ValidMappings two_sources.audio_sources
      × ValidMappings two_sources.audio_modifications)
build_restore_filter_iff_example = build_restore_filter_iff two_sources (described two_sources)

two_sources_built : build_restore_filter two_sources ≡ ok (described two_sources)
two_sources_built =
    build_restore_filter_iff_example.1
      (refl, ((refl, refl, (refl, refl, tt)), (refl, (refl, tt)), (refl, (refl, tt))), (tt, tt, tt))

abbrev source_handle : ℕ → Handle audio_source_kind
source_handle n = record { index = record { before = n }; session = record { before = 4 } }

abbrev handles_twice : StoreFilter
handles_twice = record {
  session = record { before = 4 };
  document_data = false;
  audio_sources = source_handle 0 ∷ source_handle 1 ∷ [];
  audio_modifications = [];
}

build_store_filter_iff_example : (build_store_filter handles_twice ≡ ok handles_twice) ↔ (
    (handles_twice ≡ handles_twice)
    × (OfSession handles_twice.session handles_twice.audio_sources
        × Distinct same_handle handles_twice.audio_sources)
    × (OfSession handles_twice.session handles_twice.audio_modifications
        × Distinct same_handle handles_twice.audio_modifications))
build_store_filter_iff_example = build_store_filter_iff handles_twice handles_twice

abbrev stretch : ProcessingAlgorithmProperties
stretch = record { persistent_id = b's' ∷ []; name = b'S' ∷ [] }

abbrev two_algorithms : Catalog
two_algorithms = record { persistent_id = b'p' ∷ []; name = b'P' ∷ [] } ∷ stretch ∷ []

two_algorithms_made : new_catalog two_algorithms ≡ ok two_algorithms
unfolding new_catalog
two_algorithms_made = refl

stretch_is_second : get_algorithm (pos 1) two_algorithms ≡ ok stretch
unfolding get_algorithm
stretch_is_second = refl

get_algorithm-index_example :
    (pos 1 ≡ pos 1) × ((k : ℕ) × (pos 1 ≡ pos k) × (k < length two_algorithms))
get_algorithm-index_example =
    get_algorithm-index two_algorithms (pos 1) (pos 1) two_algorithms_made stretch_is_second
      stretch_is_second refl

abbrev capabilities : LicenseCapabilities
capabilities = record { content_types = 1 ∷ 2 ∷ 3 ∷ []; transformations = 13 }

abbrev license : LicenseRequest
license = record { run_modal_activation = true; content_types = 3 ∷ 1 ∷ []; transformations = 5 }

new_request_iff_example : (new_request true (3 ∷ 1 ∷ []) 5 capabilities ≡ ok license) ↔ (
    (license ≡ license)
    × Distinct same_type (3 ∷ 1 ∷ [])
    × AllIn capabilities.content_types (3 ∷ 1 ∷ [])
    × ((bit_and 5 (complement capabilities.transformations) == 0) ≡ true))
new_request_iff_example = new_request_iff true (3 ∷ 1 ∷ []) 5 capabilities license

license_made : new_request true (3 ∷ 1 ∷ []) 5 capabilities ≡ ok license
license_made = new_request_iff_example.1 (refl, (refl, (refl, tt)), (refl, (refl, tt)), refl)

-- A bit without a name passes, although the capabilities do not have it.
unnamed_flag :
    new_request true [] (2 ^ 31) capabilities
    ≡ ok (record { run_modal_activation = true; content_types = []; transformations = 2 ^ 31 })
unfolding new_request
unnamed_flag = refl

-- A map of three channels.
abbrev three_channels : ChannelFormat
three_channels = record { channel_count = 3; arrangement = clap_map (0 ∷ 1 ∷ 2 ∷ []) }

map_decoded : from_raw false 255 4 (0 ∷ 1 ∷ 2 ∷ []) 3 ≡ ok (clap_map (0 ∷ 1 ∷ 2 ∷ []))
unfolding from_raw
map_decoded = refl

three_channels_made : new_format 3 (clap_map (0 ∷ 1 ∷ 2 ∷ [])) ≡ ok three_channels
unfolding new_format
three_channels_made = refl

from_raw-new_format_example :
    (three_channels ≡ record { channel_count = 3; arrangement = clap_map (0 ∷ 1 ∷ 2 ∷ []) })
    × Counted (0 ∷ 1 ∷ 2 ∷ []) 3 (clap_map (0 ∷ 1 ∷ 2 ∷ []))
from_raw-new_format_example =
    from_raw-new_format false 255 4 3 (0 ∷ 1 ∷ 2 ∷ []) map_decoded three_channels_made

abbrev region_entry : ℕ → ℕ → ℕ → HeadTailEntry ℕ
region_entry key head tail = record { key = key; head = head; tail = tail }

abbrev three_regions : List (HeadTailEntry ℕ)
three_regions = region_entry 30 1 2 ∷ region_entry 10 3 4 ∷ region_entry 20 5 6 ∷ []

abbrev regions_in_order : List (HeadTailEntry ℕ)
regions_in_order = region_entry 10 3 4 ∷ region_entry 20 5 6 ∷ region_entry 30 1 2 ∷ []

regions_viewed : new_view three_regions 8 ≡ ok regions_in_order
unfolding new_view
regions_viewed = refl

query_third : query regions_in_order 30 ≡ some (1, 2)
unfolding query
query_third = refl

query_absent : query regions_in_order 25 ≡ none
unfolding query
query_absent = refl

query-new_view_example :
    (query regions_in_order 20 ≡ some (5, 6))
    ↔ ((e : HeadTailEntry ℕ) × Has e three_regions × (e.key ≡ 20) × (e.head ≡ 5) × (e.tail ≡ 6))
query-new_view_example = query-new_view three_regions 8 20 5 6 regions_viewed
