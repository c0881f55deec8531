-- ===== src/AudioFile/Rewrite/Sums.antt =====
-- How the lengths of the chunks add up when one is replaced.
use ara2_bridge.Base.{
  ℕ, zero, suc, some, List, [], ◌∷◌, get_elem?, ◌||◌, Bool, true, false, if◌then◌else◌, ◌≡◌, refl,
  ◌∙◌, ap, ◌+◌, ◌-◌, ◌≤◌, arith, subst, ◌==◌,
}
use ara2_bridge.AudioFile.{ChunkInfo, Layout}
use ara2_bridge.AudioFile.Inspect.Structure.{Tiles}
use ara2_bridge.AudioFile.Rewrite.{Rewriting, is_ixml_index, is_index}
use ara2_bridge.AudioFile.Rewrite.Length.{extent, growth, total_growth, meets}

is_ixml_index-marked : (l : Layout) (j : ℕ) {i : ℕ} → l.ixml ≡ some i → is_ixml_index l j ≡ (j == i)
is_ixml_index-marked l j e = ap (λ o. is_index o j) e

growth-at :
    (w : Rewriting) (index : ℕ) (found : ChunkInfo) {b : Bool}
    → is_ixml_index w.layout index ≡ b
    → growth w index found ≡ (if b then extent w.replacement else found.end - found.start)
growth-at w index found e = ap (λ b. if b then extent w.replacement else found.end - found.start) e

or_false : (b : Bool) {c : Bool} → c ≡ false → (b || c) ≡ b
or_false true e = refl
or_false false e = e

or_true : (b : Bool) {c : Bool} → c ≡ true → (b || c) ≡ true
or_true true e = refl
or_true false e = e

-- A chunk that is not at the iXML index is kept.
pub sum_kept :
    (w : Rewriting) (a index : ℕ) (chunks : List ChunkInfo) (replaced : Bool) {b : ℕ}
    → Tiles a chunks b
    → ((j : ℕ) → index ≤ j → is_ixml_index w.layout j ≡ false)
    → (a + total_growth w index chunks ≡ b) × (meets w.layout index chunks replaced ≡ replaced)
sum_kept w a index [] replaced tiles none_left = (omega arith, refl)
sum_kept w a index (found ∷ chunks) replaced ((x, y, z), tiles) none_left =
    let off = none_left index (omega arith) in
    let here : growth w index found ≡ found.end - found.start = growth-at w index found off in
    let (sum, met) =
      sum_kept w found.end (index + 1) chunks (replaced || is_ixml_index w.layout index) tiles
        (λ j h. none_left j (omega arith)) in
    (omega arith, met ∙ or_false replaced off)

-- The chunk at the iXML index is exchanged for the replacement.
pub sum_replaced :
    (w : Rewriting) (a index d : ℕ) (chunks : List ChunkInfo) (replaced : Bool) (b : ℕ)
    (found : ChunkInfo)
    → Tiles a chunks b
    → w.layout.ixml ≡ some (index + d)
    → get_elem? chunks d ≡ some found
    → (a + total_growth w index chunks + (found.end - found.start) ≡ b + extent w.replacement)
      × (meets w.layout index chunks replaced ≡ true)
sum_replaced w a index d [] replaced b found tiles marked at = cc
sum_replaced w a index zero (first ∷ chunks) replaced b found ((x, y, z), tiles) marked at =
    let same : first ≡ found = cc in
    let on : is_ixml_index w.layout index ≡ true =
      is_ixml_index-marked w.layout index marked ∙ ground arith in
    let here : growth w index first ≡ extent w.replacement = growth-at w index first on in
    let later : (j : ℕ) → index + 1 ≤ j → is_ixml_index w.layout j ≡ false =
      λ j h. is_ixml_index-marked w.layout j marked ∙ ground arith in
    let (sum, met) =
      sum_kept w first.end (index + 1) chunks (replaced || is_ixml_index w.layout index) tiles
        later in
    subst
      (λ f.
        (a + total_growth w index (first ∷ chunks) + (f.end - f.start) ≡ b + extent w.replacement)
        × (meets w.layout index (first ∷ chunks) replaced ≡ true))
      same (omega arith, met ∙ or_true replaced on)
sum_replaced w a index (suc d) (first ∷ chunks) replaced b found ((x, y, z), tiles) marked at =
    let off : is_ixml_index w.layout index ≡ false =
      is_ixml_index-marked w.layout index marked ∙ ground arith in
    let here : growth w index first ≡ first.end - first.start = growth-at w index first off in
    let shifted : index + suc d ≡ index + 1 + d = omega arith in
    let (sum, met) =
      sum_replaced w first.end (index + 1) d chunks (replaced || is_ixml_index w.layout index) b
        found tiles (marked ∙ ap some shifted) at in
    (omega arith, met)
