-- ===== src/SyncFile/Seek/Beyond.antt =====
-- `seek_from_end` with a position before the start of the file.
use rvnsyncpoint.Base.{
  ℕ, suc, ◌+◌, ◌-◌, ◌*◌, ◌/◌, ◌%◌, ◌^◌, ◌≤◌, ◌<◌, ◌≡◌, ◌≢◌, refl, ap, ◌∙◌, false, List, length,
  arith,
}
use native.Mathlib.Nat.{mul-div_right}
use rvnsyncpoint.Outcome.{ok, stuck}
use rvnsyncpoint.Stream
use rvnsyncpoint.Stream.{StreamableFile, pos}
use rvnsyncpoint.Stream.Cursor.{
  at, failed, seek_from_end-at, seek_from_end-failed, pos-at, pos-failed,
}
use rvnsyncpoint.SyncPoint.{valid, sync_point}
use rvnsyncpoint.SyncFile.State.{SyncFile, header_size, u64_mod}
use rvnsyncpoint.SyncFile.Points.{Stack, next}
use rvnsyncpoint.SyncFile.Points.Landing.{IsAt}
use rvnsyncpoint.SyncFile.Points.Ends.{next_twice-diverges}
use rvnsyncpoint.SyncFile.Seek.{seek_from_end}
use rvnsyncpoint.SyncFile.Seek.Landing.{IsOpen}

-- `seek_from_end(k)` past its guard, with what the stream does given.
seek_from_end-eq :
    (position : ℕ) (s : SyncFile) {f f' : StreamableFile} {p : ℕ}
    → s.record_size ≢ 0
    → Stream.seek_from_end (s.record_size * ((position + 1) % u64_mod) % u64_mod) s.file ≡ f
    → pos f ≡ (p, f')
    → seek_from_end position s ≡ (
      ok tt,
      record s {
        file = f';
        current = sync_point;
        position = (p + u64_mod - header_size) % u64_mod / s.record_size;
        last_valid_position = position;
      },
    )
unfolding seek_from_end
seek_from_end-eq position s nz e e' = ground arith

back_count : (k count : ℕ) → k < count → count ≡ count - (k + 1) + (k + 1)
back_count k count h = omega arith

back_offset :
    (rs k l : ℕ)
    → rs * (k + 1) ≤ l
    → 0 < rs
    → l ≤ 2 ^ 63
    → rs * ((k + 1) % u64_mod) % u64_mod ≡ rs * (k + 1)
back_offset rs k l h pos fits =
    let small : k + 1 ≤ rs * (k + 1) = grind arith in
    let e : (k + 1) % u64_mod ≡ k + 1 = omega arith in rw e (omega arith)

-- The position that the offset of the record `m` stands for.
position_of :
    (rs m l : ℕ)
    → header_size + rs * m ≤ l
    → 0 < rs
    → l < 2 ^ 63
    → (header_size + rs * m + u64_mod - header_size) % u64_mod / rs ≡ m
position_of rs m l h pos fits =
    let e : (header_size + rs * m + u64_mod - header_size) % u64_mod ≡ rs * m = omega arith in
    rw e (mul-div_right m pos)

-- In a file of whole records, seeking to `k` from the end, where there are more than `k` records:
-- the reader stands before the last record but `k`, at its position, with a new point, and the
-- distance `k` is what is kept as the last valid position.
pub seek_from_end-lands :
    (bytes : List ℕ) (v rs count k : ℕ) (s : SyncFile)
    → IsOpen bytes v rs s
    → length bytes < 2 ^ 63
    → 0 < rs
    → length bytes ≡ header_size + rs * count
    → k < count
    → (s' : SyncFile) × (seek_from_end k s ≡ (ok tt, s'))
      × IsAt bytes v rs (count - (k + 1)) s'
      × (s'.current ≡ sync_point)
      × (s'.last_valid_position ≡ k)
seek_from_end-lands bytes v rs count k s h fits pos whole lt =
    let m : ℕ = count - (k + 1) in
    let split : rs * count ≡ rs * m + rs * (k + 1) =
      omega (arith, ap (λ (n : ℕ). rs * n) (back_count k count lt)) in
    let e = back_offset rs k (length bytes) (omega arith) pos (omega arith) in
    let back : Stream.seek_from_end (s.record_size * ((k + 1) % u64_mod) % u64_mod) s.file
        ≡ at bytes (header_size + rs * m) =
      ap (λ size. Stream.seek_from_end (size * ((k + 1) % u64_mod) % u64_mod) s.file) h.size
      ∙ (ap (λ n. Stream.seek_from_end n s.file) e
          ∙ (seek_from_end-at bytes s.file (rs * (k + 1)) h.is_open h.contents h.opened fits
                (omega arith)
              ∙ ap (at bytes) (omega arith))) in
    (
      _,
      seek_from_end-eq k s (ground (arith, h.size)) back (pos-at bytes (header_size + rs * m)),
      record {
        version = h.version;
        size = h.size;
        place = refl;
        position =
            ap (λ size. (header_size + rs * m + u64_mod - header_size) % u64_mod / size) h.size
            ∙ position_of rs m (length bytes) (omega arith) pos fits;
      },
      refl,
      refl,
    )

-- Seeking from the end past the start of the file, in the 64-bit format, by a distance that fits an
-- int64_t: the call returns, the next point is not valid, and the call of `next` after that never
-- returns.
pub seek_from_end-diverges :
    (stack : Stack) (bytes : List ℕ) (v rs k : ℕ) (s : SyncFile)
    → IsOpen bytes v rs s
    → 3 ≤ v
    → length bytes < rs * (k + 1)
    → rs * (k + 1) ≤ 2 ^ 63
    → (s' s'' : SyncFile) × (seek_from_end k s ≡ (ok tt, s'))
      × ((rounds : ℕ) → next stack (suc rounds) s' ≡ (ok s''.current, s''))
      × (valid s''.current ≡ false)
      × ((rounds : ℕ) → (next stack rounds s'').0 ≡ stuck)
seek_from_end-diverges stack bytes v rs k s h recent past small =
    let e = back_offset rs k (rs * (k + 1)) (omega arith) (grind arith) small in
    let back : Stream.seek_from_end (s.record_size * ((k + 1) % u64_mod) % u64_mod) s.file
        ≡ failed bytes s.file.in_file.offset =
      ap (λ size. Stream.seek_from_end (size * ((k + 1) % u64_mod) % u64_mod) s.file) h.size
      ∙ (ap (λ n. Stream.seek_from_end n s.file) e
          ∙ seek_from_end-failed bytes s.file (rs * (k + 1)) h.is_open h.contents h.opened past
              small) in
    let done =
      seek_from_end-eq k s (ground (arith, h.size)) back (pos-failed bytes s.file.in_file.offset) in
    let (s'', first, invalid, never) =
      next_twice-diverges stack bytes s.file.in_file.offset _ (ground (arith, h.version)) refl
        refl in
    (_, s'', done, first, invalid, never)
