-- ===== src/SyncFile/Seek/Landing.antt =====
-- `seek` reads the record that it was asked for.
use mathlib.Core.Path.{subst}
use rvnsyncpoint.Base.{
  ℕ, suc, ◌+◌, ◌-◌, ◌*◌, ◌^◌, ◌≤◌, ◌<◌, ◌≡◌, ◌≢◌, refl, sym, ap, ◌∙◌, inl, inr, true, false, List,
  length, Bool-cases, arith,
}
use rvnsyncpoint.Outcome.{ok}
use rvnsyncpoint.Stream
use rvnsyncpoint.Stream.Cursor.{value_at, seek-at}
use rvnsyncpoint.SyncPoint.{SyncPoint, from_v2, sync_point, same_point}
use rvnsyncpoint.SyncPoint.Equality.{same_point_iff}
use rvnsyncpoint.SyncFile.State.{SyncFile, header_size}
use rvnsyncpoint.SyncFile.Entry.{set_type}
use rvnsyncpoint.SyncFile.Points.{Stack, read_point, next, forget_event}
use rvnsyncpoint.SyncFile.Points.Rounds.{stride}
use rvnsyncpoint.SyncFile.Points.Landing.{IsAt, Shows, step-Shows}
use rvnsyncpoint.SyncFile.Points.Next.{next-here, forget_event-current}
use rvnsyncpoint.SyncFile.Seek.{place, seek, mark_valid, offset_of}

-- The main file is open on `bytes`, whatever its offset and its state.
pub record IsOpen (bytes : List ℕ) (v rs : ℕ) (s : SyncFile) : Type 0 where
  pub version : s.version ≡ v
  pub size : s.record_size ≡ rs
  pub contents : s.file.in_file.bytes ≡ bytes
  pub is_open : s.file.in_file.is_open ≡ true
  pub opened : s.file.opened ≡ true

set_type-tsc : (type : ℕ) (p : SyncPoint) → (set_type type p).tsc ≡ p.tsc
unfolding set_type
set_type-tsc type p = ground arith

-- The time stamp is the first field.
pub Shows-tsc :
    (bytes : List ℕ) (v p : ℕ) (c : SyncPoint)
    → Shows bytes v p c
    → c.tsc ≡ value_at bytes (p + 0) 8
unfolding from_v2
Shows-tsc bytes v p c (Shows.old _ old_sp e) = ap (λ r. r.tsc) e ∙ set_type-tsc _ _
Shows-tsc bytes v p c (Shows.recent _ base e) = ap (λ r. r.tsc) e ∙ set_type-tsc _ _

pub same_point-tsc : (p q : SyncPoint) → p.tsc ≢ q.tsc → same_point p q ≡ false
same_point-tsc p q h = elim (Bool-cases (same_point p q)) [
  | inl same ↦ absurd (h (ap (λ r. r.tsc) ((same_point_iff p q).0 same)))
  | inr new ↦ new
]

place-IsAt :
    (bytes : List ℕ) (v rs k : ℕ) (s : SyncFile)
    → length bytes < 2 ^ 63
    → header_size + rs * k ≤ length bytes
    → IsOpen bytes v rs s
    → IsAt bytes v rs k (place (suc k) s)
unfolding place
place-IsAt bytes v rs k s fits inside h = record {
  version = h.version;
  size = h.size;
  place =
      ap (λ n. Stream.seek n s.file) (ap (λ size. offset_of size (suc k - 1)) h.size ∙ within)
      ∙ seek-at bytes s.file (header_size + rs * k) h.is_open h.contents h.opened (omega arith);
  position = omega arith;
}
  where
    within : offset_of rs (suc k - 1) ≡ header_size + rs * k
    within = let e : suc k - 1 ≡ k = omega arith in rw e (omega arith)

-- `seek` past the guards.
seek-eq :
    (stack : Stack) (rounds k : ℕ) (s : SyncFile) {s' : SyncFile} {c : SyncPoint}
    → s.record_size ≢ 0
    → next stack rounds (place (suc k) s) ≡ (ok c, s')
    → seek stack rounds (suc k) s ≡ (ok tt, mark_valid s')
unfolding seek
seek-eq stack rounds k s nz e = ground arith

-- Seeking to the `k + 1`st point of a file of records that are as long as the header says, where a
-- whole record with a time stamp stands, from any state of the open file: the current point is what that record holds, the position is `k + 1`
-- and the last valid one `k`, and the stream stands behind the record.
pub seek-lands :
    (stack : Stack) (bytes : List ℕ) (v rs rounds k : ℕ) (s : SyncFile)
    → stride v rs ≡ rs
    → length bytes < 2 ^ 63
    → IsOpen bytes v rs s
    → header_size + rs * suc k ≤ length bytes
    → value_at bytes (header_size + rs * k) 8 ≢ 0
    → (s' : SyncFile) × (seek stack (suc rounds) (suc k) s ≡ (ok tt, s'))
      × IsAt bytes v rs (suc k) s'
      × Shows bytes v (header_size + rs * k) s'.current
      × (s'.last_valid_position ≡ k)
seek-lands stack bytes v rs rounds k s framed fits h inside stamped =
    let at0 : IsAt bytes v rs k (place (suc k) s) =
      place-IsAt bytes v rs k s fits (omega arith) h in
    let shows = step-Shows stack bytes v rs fits framed k (place (suc k) s) at0 (omega arith) in
    let (e, l) =
      next-here stack bytes v rs rounds k (place (suc k) s) framed fits at0 (omega arith)
        (same_point-tsc _ _ (differs shows)) in
    (
      mark_valid (forget_event (read_point stack (place (suc k) s))),
      seek-eq stack (suc rounds) k s (ground (arith, h.size)) e,
      mark_valid-IsAt l.there,
      subst (λ c. Shows bytes v (header_size + rs * k) c) (sym (forget_event-current _)) shows,
      marked l.there,
    )
  where
    differs :
        Shows bytes v (header_size + rs * k) (read_point stack (place (suc k) s)).current
        → (place (suc k) s).current.tsc ≢ (read_point stack (place (suc k) s)).current.tsc
    differs sh e = stamped (
        ap (λ p. value_at bytes p 8) (omega arith)
        ∙ (sym (Shows-tsc bytes v _ _ sh) ∙ (sym e ∙ unfold place sync_point in refl)))

    mark_valid-IsAt :
        {n : ℕ} {t : SyncFile} → IsAt bytes v rs n t → IsAt bytes v rs n (mark_valid t)
    mark_valid-IsAt a = record {
      version = a.version;
      size = a.size;
      place = a.place;
      position = a.position;
    }

    marked : {t : SyncFile} → IsAt bytes v rs (suc k) t → (mark_valid t).last_valid_position ≡ k
    marked a = ground arith
