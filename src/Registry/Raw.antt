-- ===== src/Registry/Raw.antt =====
-- Raw handles of ara2-bridge-core/src/handles.rs.
use ara2_bridge.Base.{◌≡◌, ◌↔◌, arith}
use ara2_bridge.Errors.{ok}
use ara2_bridge.Registry.{Kind, Handle, RawHandle, into_raw, try_from_raw}

-- A raw handle converts to a typed handle exactly when it is that handle's raw form: the kind of
-- object that it was made from is the kind asked for.
pub try_from_raw-into_raw :
    (K : Kind) (raw : RawHandle) (h : Handle K) → (try_from_raw K raw ≡ ok h) ↔ (into_raw h ≡ raw)
unfolding try_from_raw into_raw
try_from_raw-into_raw K raw h = (λ e. ground arith, λ e. ground arith)
