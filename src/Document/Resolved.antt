-- ===== src/Document/Resolved.antt =====
-- Handles that the session resolves from addresses are live (ara2-bridge-host/src/document/edit.rs).
use ara2_bridge.Base.{ℕ, none, some, ◌≡◌, sym, subst, arith, inl, inr, Bool-cases, Option-cases}
use ara2_bridge.Errors.{ok}
use ara2_bridge.Registry.{
  Handle, get, handle_from_opaque, from_raw, musical_context_kind, region_sequence_kind,
}
use ara2_bridge.Registry.Refs.{IsLive}
use ara2_bridge.Registry.Links.{Points}
use ara2_bridge.Properties.{
  PlaybackRegionProperties, at_least, v2_draft, with_region_sequence, with_musical_context,
}
use ara2_bridge.Document.Session.{Session}
use ara2_bridge.Document.Keeps.{Result-cases}
use ara2_bridge.Document.Create.{resolve_context}
use ara2_bridge.Document.Regions.{
  Edges, region_edges, ara2_edges, ara1_edges, resolve_sequence, edges_of_sequence,
  edges_of_context,
}

pub resolve_context-IsLive :
    (p : ℕ) (s : Session) {h : Handle musical_context_kind} {q : ℕ}
    → resolve_context p s ≡ ok (h, q)
    → IsLive h s.graph.musical_contexts
unfolding resolve_context
resolve_context-IsLive p s e = elim (Result-cases (handle_from_opaque p s.graph.musical_contexts)) [
  | inr (x, f) ↦ ground arith
  | inl (k, f) ↦ elim (Result-cases (get k s.graph.musical_contexts)) [
    | inr (x, g) ↦ ground arith
    | inl (r, g) ↦ (r, ground arith)
  ]
]

resolve_sequence-IsLive :
    (p : ℕ) (s : Session) {h : Handle region_sequence_kind} {q : ℕ}
    → resolve_sequence p s ≡ ok (h, q)
    → IsLive h s.graph.region_sequences
unfolding resolve_sequence
resolve_sequence-IsLive p s e =
    elim (Result-cases (handle_from_opaque p s.graph.region_sequences)) [
      | inr (x, f) ↦ ground arith
      | inl (k, f) ↦ elim (Result-cases (get k s.graph.region_sequences)) [
        | inr (x, g) ↦ ground arith
        | inl (r, g) ↦ (r, ground arith)
      ]
    ]

edges_of_sequence-ok_inv :
    (p : PlaybackRegionProperties) (f : Handle region_sequence_kind × ℕ) {e : Edges}
    → edges_of_sequence p f ≡ ok e
    → (e.sequence ≡ some f.0) × (e.context ≡ none)
unfolding edges_of_sequence
edges_of_sequence-ok_inv p (h, q) e = elim (Result-cases (from_raw {K = region_sequence_kind} q)) [
  | inr (x, f) ↦ ground arith
  | inl (r, f) ↦ elim (Result-cases (with_region_sequence r p)) [
    | inr (x, g) ↦ ground arith
    | inl (w, g) ↦ ground arith
  ]
]

edges_of_context-ok_inv :
    (p : PlaybackRegionProperties) (f : Handle musical_context_kind × ℕ) {e : Edges}
    → edges_of_context p f ≡ ok e
    → (e.sequence ≡ none) × (e.context ≡ some f.0)
unfolding edges_of_context
edges_of_context-ok_inv p (h, q) e = elim (Result-cases (from_raw {K = musical_context_kind} q)) [
  | inr (x, f) ↦ ground arith
  | inl (r, f) ↦ elim (Result-cases (with_musical_context r p)) [
    | inr (x, g) ↦ ground arith
    | inl (w, g) ↦ ground arith
  ]
]

-- Both edges lead to live records.
abbrev pub EdgesPoint : Edges → Session → Type 0
EdgesPoint e s =
    Points e.sequence s.graph.region_sequences × Points e.context s.graph.musical_contexts

ara2_edges-Point :
    (p : PlaybackRegionProperties) (s : Session) {e : Edges}
    → ara2_edges p s ≡ ok e
    → EdgesPoint e s
unfolding ara2_edges
ara2_edges-Point p s {e} q = elim (Option-cases p.region_sequence) [
  | inl n ↦ ground arith
  | inr (reference, n) ↦ elim (Result-cases (resolve_sequence reference.pointer s)) [
    | inr (x, f) ↦ ground arith
    | inl (found, f) ↦
        let made : edges_of_sequence p found ≡ ok e = ground arith in
        let (a, b) = edges_of_sequence-ok_inv p found made in
        (
          subst (λ o. Points o s.graph.region_sequences) (sym a)
              (resolve_sequence-IsLive reference.pointer s f),
          subst (λ o. Points o s.graph.musical_contexts) (sym b) tt,
        )
  ]
]

ara1_edges-Point :
    (p : PlaybackRegionProperties) (s : Session) {e : Edges}
    → ara1_edges p s ≡ ok e
    → EdgesPoint e s
unfolding ara1_edges
ara1_edges-Point p s {e} q = elim (Option-cases p.musical_context) [
  | inl n ↦ ground arith
  | inr (reference, n) ↦ elim (Result-cases (resolve_context reference.pointer s)) [
    | inr (x, f) ↦ ground arith
    | inl (found, f) ↦
        let made : edges_of_context p found ≡ ok e = ground arith in
        let (a, b) = edges_of_context-ok_inv p found made in
        (
          subst (λ o. Points o s.graph.region_sequences) (sym a) tt,
          subst (λ o. Points o s.graph.musical_contexts) (sym b)
              (resolve_context-IsLive reference.pointer s f),
        )
  ]
]

pub region_edges-Point :
    (p : PlaybackRegionProperties) (s : Session) {e : Edges}
    → region_edges p s ≡ ok e
    → EdgesPoint e s
unfolding region_edges
region_edges-Point p s {e} q = elim (Bool-cases (at_least v2_draft s.generation)) [
  | inl y ↦ ara2_edges-Point p s {e = e} (ground arith)
  | inr n ↦ ara1_edges-Point p s {e = e} (ground arith)
]
