-- ===== src/Service/Concurrent.antt =====
-- UpdatePoints called by several clients at once, src/grpc/BridgeServiceImpl.cpp. Each handler calls
-- applyUpdate for one point after another; the bridge's lock is free in between.
use dnp3_bridge.Base.{ℕ, ◌≡◌, List, [], ◌∷◌, ◌++◌, map, if◌then◌else◌, ◌==◌, nat_eq}
use dnp3_bridge.Double.{Double}
use dnp3_bridge.Outstation.Flags.{AnalogQuality}
use dnp3_bridge.Outstation.Updates.{Applied}
use dnp3_bridge.Service.{UpdateRequest}
use dnp3_bridge.Service.Updates.{analog_content, binary_content}

-- What call number `t` still has to do, once it has done the first.
abbrev pub rest_at {ℓ} : {A : Type ℓ} → ℕ → List A → (ℕ → List A) → ℕ → List A
rest_at t rest calls u = if u == t then rest else calls u

-- The list has what each call does in that call's order, and nothing else; a number without a call
-- has nothing to do.
pub data IsInterleaved {ℓ} {A : Type ℓ} : (ℕ → List A) → List A → Type ℓ where
  done : {calls : ℕ → List A} → ((t : ℕ) → calls t ≡ []) → IsInterleaved calls []
  next :
      {calls : ℕ → List A} {xs : List A} (t : ℕ) (x : A) (rest : List A)
      → calls t ≡ x ∷ rest
      → IsInterleaved (rest_at t rest calls) xs
      → IsInterleaved calls (x ∷ xs)

-- All that the outstation should receive for a request.
abbrev pub request_content : {D : Type 0} → AnalogQuality → UpdateRequest D → List (Applied D)
request_content q r = map (analog_content q) r.analogs ++ map (binary_content q) r.binaries
