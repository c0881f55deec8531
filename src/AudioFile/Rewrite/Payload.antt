-- ===== src/AudioFile/Rewrite/Payload.antt =====
-- What `read_ixml_with_limit` returns, and that reading and rewriting end.
use ara2_bridge.Base.{
  ℕ, zero, suc, Option, some, List, [], ◌∷◌, length, get_elem?, ◌≡◌, refl, ◌∙◌, ap, ◌+◌, ◌≤◌, arith,
}
use ara2_bridge.Base.Bytes.{take, drop}
use ara2_bridge.Errors.{Result, ok, ◌>>=◌}
use ara2_bridge.AudioFile.{AudioFileError, ChunkInfo, Layout}
use ara2_bridge.AudioFile.Inspect.{inspect}
use ara2_bridge.AudioFile.Inspect.Structure.{Tiles-inside}
use ara2_bridge.AudioFile.Inspect.Outcome.{inspect-ends, inspect-Tiles}
use ara2_bridge.AudioFile.Rewrite.{
  ixml_chunk, read_payload, after_inspect, read_ixml_with_limit, Output, rewrite_layout,
  rewrite_ixml,
}

after_inspect-ends :
    {A : Type 0} (f : Layout → Result AudioFileError A) (usize_max : ℕ) (input : List ℕ)
    → (r : Result AudioFileError A) × (after_inspect f (inspect usize_max input) ≡ some r)
unfolding after_inspect
after_inspect-ends f usize_max input =
    let (r, e) = inspect-ends usize_max input in (r >>= f, ap (after_inspect f) e)

-- Reading the payload of any stream ends with a result, and so does rewriting any stream with any
-- replacement: the fuel of the scan, one round more than the chunks that are allowed, is enough.
pub read_ixml-rewrite_ixml-end :
    (usize_max max_xml_bytes : ℕ) (input : List ℕ) (replacement : Option (List ℕ))
    → ((r : Result AudioFileError (Option (List ℕ))) × (read_ixml_with_limit usize_max max_xml_bytes
            input
          ≡ some r))
      × ((r : Result AudioFileError Output) × (rewrite_ixml usize_max input replacement ≡ some r))
unfolding read_ixml_with_limit rewrite_ixml
read_ixml-rewrite_ixml-end usize_max max_xml_bytes input replacement = (
  after_inspect-ends (λ l. read_payload usize_max max_xml_bytes input (ixml_chunk l)) usize_max
      input,
  after_inspect-ends (rewrite_layout input replacement) usize_max input,
)

length-take : (n : ℕ) (xs : List ℕ) → n ≤ length xs → length (take n xs) ≡ n
length-take zero xs h = refl
length-take (suc n) [] h = absurd (omega arith)
length-take (suc n) (x ∷ xs) h = ap suc (length-take n xs (omega arith))

length-drop : (n : ℕ) (xs : List ℕ) → n ≤ length xs → n + length (drop n xs) ≡ length xs
length-drop zero xs h = omega arith
length-drop (suc n) [] h = absurd (omega arith)
length-drop (suc n) (x ∷ xs) h = omega (arith, length-drop n xs (omega arith))

read_payload-found :
    (usize_max max_xml_bytes : ℕ) (input : List ℕ) (found : ChunkInfo)
    → found.data_start + found.data_size ≤ length input
    → found.data_size ≤ usize_max
    → found.data_size ≤ max_xml_bytes
    → read_payload usize_max max_xml_bytes input (some found)
      ≡ ok (some (take found.data_size (drop found.data_start input)))
unfolding read_payload
read_payload-found usize_max max_xml_bytes input found h k m = ground arith

pub ixml_chunk-at :
    (l : Layout) (found : ChunkInfo) {i : ℕ}
    → l.ixml ≡ some i
    → get_elem? l.chunks i ≡ some found
    → ixml_chunk l ≡ some found
unfolding ixml_chunk
ixml_chunk-at l found {i} marked at = rw marked at

-- For a stream that is inspected with success and whose iXML index leads to a chunk within the
-- limits, the payload that is read is the chunk's, in full.
pub read_ixml-payload :
    (usize_max max_xml_bytes : ℕ) (input : List ℕ) {l : Layout} {i : ℕ} (found : ChunkInfo)
    → inspect usize_max input ≡ some (ok l)
    → l.ixml ≡ some i
    → get_elem? l.chunks i ≡ some found
    → found.data_size ≤ usize_max
    → found.data_size ≤ max_xml_bytes
    → (read_ixml_with_limit usize_max max_xml_bytes input
        ≡ some (ok (some (take found.data_size (drop found.data_start input)))))
      × (length (take found.data_size (drop found.data_start input)) ≡ found.data_size)
unfolding read_ixml_with_limit after_inspect
read_ixml-payload usize_max max_xml_bytes input {l} {i} found e marked at small allowed =
    let (_, tiles, _, _, _, _) = inspect-Tiles usize_max input e in
    let (_, inner, outer) = Tiles-inside 12 l.chunks i tiles at in
    let here = ixml_chunk-at l found marked at in
    let fits = length-drop found.data_start input (omega arith) in
    (
      ap (after_inspect (λ l. read_payload usize_max max_xml_bytes input (ixml_chunk l))) e
          ∙ ap (λ x. some (read_payload usize_max max_xml_bytes input x)) here
          ∙ ap some
              (read_payload-found usize_max max_xml_bytes input found (omega arith) small allowed),
      length-take found.data_size (drop found.data_start input) (omega arith),
    )
