-- ===== src/Document/Integrity.antt =====
-- Every operation of an editing session keeps the graph linked
-- (ara2-bridge-host/src/document/edit.rs). This file has what the children share.
pub mod Destruction
pub mod Provisional
pub mod Creation
pub mod Updates
pub mod Scopes
pub mod Histories
use mathlib.Core.Option.{some-injective}
use ara2_bridge.Base.{Bool, true, false, not, ◌||◌, Option, none, some, ◌≡◌, ◌≢◌, refl, any, arith}
use ara2_bridge.Errors.{ok, guard}
use ara2_bridge.Registry.{Handle, Registry, Kind, get, values}
use ara2_bridge.Registry.Refs.{any-values, same_handle-false}
use ara2_bridge.Registry.Links.{NoRef}
use ara2_bridge.Document.Destroy.{same_edge}

-- A passed guard.
pub guard-not_ok :
    {E : Type 0} (b : Bool) (e : E) {u : Unit {0}} → guard (not b) e ≡ ok u → b ≡ false
guard-not_ok false e h = refl
guard-not_ok true e h = cc

pub ||-false : (a b : Bool) → (a || b) ≡ false → (a ≡ false) × (b ≡ false)
||-false a b h = ground arith

same_edge-false :
    {J : Kind} (o : Option (Handle J)) (h : Handle J) → same_edge o h ≡ false → o ≢ some h
same_edge-false none h e p = cc
same_edge-false (some k) h e p = same_handle-false k h e (some-injective k h p)

-- A search that finds no reference.
pub any-NoRef :
    {J : Kind} {K : Kind} {T : Type 0} (edge : T → Option (Handle J)) (r : Registry K T)
    (h : Handle J)
    → any (λ w. same_edge (edge w) h) (values r) ≡ false
    → NoRef edge r h
any-NoRef edge r h none_found k w live =
    same_edge-false (edge w) h (any-values (λ w. same_edge (edge w) h) r k none_found live)
