-- ===== src/Device/Devices.antt =====
-- The map of devices.
use rvnsyncpoint.Base.{
  ℕ, suc, ◌≤◌, ◌<◌, ◌≡◌, refl, Option, none, some, inl, inr, Bool-cases, [], ◌∷◌, ◌==◌, ltb,
  if◌then◌else◌, false, arith,
}
use mathlib.Core.Path.{subst}
use rvnsyncpoint.Device.{Device}
use rvnsyncpoint.Device.File.{Devices, assign}

-- The device with an identifier.
abbrev pub lookup : ℕ → Devices → Option Device
lookup id [] = none
lookup id ((k, d) ∷ rest) = if k == id then some d else lookup id rest

-- The keys increase, and none is below `low`.
abbrev pub IsIncreasing : ℕ → Devices → Type 0
IsIncreasing low [] = Unit
IsIncreasing low ((k, d) ∷ rest) = (low ≤ k) × IsIncreasing (suc k) rest

pub assign-IsIncreasing :
    (low id : ℕ) (d : Device) (m : Devices)
    → IsIncreasing low m
    → low ≤ id
    → IsIncreasing low (assign id d m)
unfolding assign
assign-IsIncreasing low id d [] h l = (l, tt)
assign-IsIncreasing low id d ((k, e) ∷ rest) h l = elim (Bool-cases (ltb k id)) [
  | inl below ↦ rw below (h.0, assign-IsIncreasing (suc k) id d rest h.1 (ground arith))
  | inr there ↦ rw there (elim (Bool-cases (k == id)) [
    | inl same ↦ rw same (l, subst (λ n. IsIncreasing (suc n) rest) (ground arith) h.1)
    | inr above ↦ rw above (l, (ground arith, h.1))
  ])
]

lookup-below : (id low : ℕ) (m : Devices) → IsIncreasing low m → id < low → lookup id m ≡ none
lookup-below id low [] h l = refl
lookup-below id low ((k, d) ∷ rest) h l =
    let e : (k == id) ≡ false = ground (arith, h.0) in
    rw e (lookup-below id (suc k) rest h.1 (omega (arith, h.0)))

-- In a map with increasing keys, the device that was assigned last is found under its identifier,
-- and those with other identifiers as before.
pub lookup-assign :
    (other id low : ℕ) (d : Device) (m : Devices)
    → IsIncreasing low m
    → lookup other (assign id d m) ≡ (if id == other then some d else lookup other m)
unfolding assign
lookup-assign other id low d [] h = refl
lookup-assign other id low d ((k, e) ∷ rest) h = elim (Bool-cases (ltb k id)) [
  | inl below ↦ rw below (ground (arith, lookup-assign other id (suc k) d rest h.1))
  | inr there ↦ rw there (elim (Bool-cases (k == id)) [
    | inl same ↦ rw same (ground arith)
    | inr above ↦ rw above (ground arith)
  ])
]
