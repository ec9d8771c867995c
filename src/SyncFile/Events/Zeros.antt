-- ===== src/SyncFile/Events/Zeros.antt =====
-- What a round of `next` reads at the end of a file of whole records: a point of zeros.
use rvnsyncpoint.Base.{
  ℕ, ◌≡◌, refl, ap, sym, ◌∙◌, inl, inr, true, List, length, ltb, Bool-cases, arith,
}
use mathlib.Core.Path.{subst}
use rvnsyncpoint.Stream.Cursor.{at}
use rvnsyncpoint.SyncPoint.{SyncPoint, SyncPointV2, from_v2}
use rvnsyncpoint.SyncEvent.{context, are_values_equivalent}
use rvnsyncpoint.SyncFile.State.{SyncFile}
use rvnsyncpoint.SyncFile.Entry.{Entry, read_v2, read_v3, set_type}
use rvnsyncpoint.SyncFile.Entry.Layout.Ends.{read_v2-past, read_v3-past, zero_entry, zero_entry_v2}
use rvnsyncpoint.SyncFile.Points.{Stack, read_entry, read_point}
use rvnsyncpoint.SyncFile.Points.Rounds.{widen, read_entry-old, read_entry-recent}
use rvnsyncpoint.SyncFile.Fetch.{point_context_to_event}

-- All registers that `are_values_equivalent` looks at are 0, and so is the address.
pub record IsZero (p : SyncPoint) : Type 0 where
  pub no_time : p.tsc ≡ 0
  pub rip : p.rip ≡ 0
  pub registers : are_values_equivalent context (point_context_to_event p) ≡ true
  pub zeros : are_values_equivalent (point_context_to_event p) context ≡ true

set_type-IsZero : (p : SyncPoint) → IsZero p → IsZero (set_type 0 p)
unfolding set_type point_context_to_event
set_type-IsZero p h = ground arith

IsZeroEntry : Entry SyncPoint → Type 0
IsZeroEntry e = (e.type ≡ 0) × IsZero e.point

zero_entry-IsZero : (current : SyncPoint) → IsZero (zero_entry current).point
unfolding point_context_to_event are_values_equivalent context
zero_entry-IsZero current = record { no_time = refl; rip = refl; registers = refl; zeros = refl }

zero_entry_v2-IsZero : (old_sp : SyncPointV2) → IsZero (widen (zero_entry_v2 old_sp)).point
unfolding from_v2 point_context_to_event are_values_equivalent context
zero_entry_v2-IsZero old_sp = record { no_time = refl; rip = refl; registers = refl; zeros = refl }

read_entry-IsZeroEntry :
    (stack : Stack) (s : SyncFile) (bytes : List ℕ)
    → s.file ≡ at bytes (length bytes)
    → IsZeroEntry (read_entry stack s).0
unfolding IsZeroEntry
read_entry-IsZeroEntry stack s bytes h = elim (Bool-cases (ltb s.version 3)) [
  | inl old ↦
      subst IsZeroEntry
        (sym (
          ap (λ r. r.0) (read_entry-old stack s old)
          ∙ (ap (λ f. widen (read_v2 (stack s) f).0) h ∙ ap widen (read_v2-past (stack s) bytes))))
        (refl, zero_entry_v2-IsZero (stack s))
  | inr recent ↦
      subst IsZeroEntry
        (sym (
          ap (λ r. r.0) (read_entry-recent stack s recent)
          ∙ (ap (λ f. (read_v3 s.record_size s.current f).0) h
              ∙ read_v3-past s.record_size s.current bytes)))
        (refl, zero_entry-IsZero s.current)
]

-- A round at the end of the file makes the point one of zeros.
pub read_point-IsZero :
    (stack : Stack) (s : SyncFile) (bytes : List ℕ)
    → s.file ≡ at bytes (length bytes)
    → IsZero (read_point stack s).current
unfolding read_point IsZeroEntry
read_point-IsZero stack s bytes h =
    let (type, zero_point) = read_entry-IsZeroEntry stack s bytes h in
    let p : SyncPoint = (read_entry stack s).0.point in
    let typed = subst (λ t. IsZero (set_type t p)) (sym type) (set_type-IsZero p zero_point) in
    record {
      no_time = typed.no_time;
      rip = typed.rip;
      registers = unfold point_context_to_event in typed.registers;
      zeros = unfold point_context_to_event in typed.zeros;
    }
