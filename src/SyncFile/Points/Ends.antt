-- ===== src/SyncFile/Points/Ends.antt =====
-- When `next` returns: always behind a read that met the end, and never behind a refused seek.
use rvnsyncpoint.Base.{
  ℕ, zero, suc, ◌+◌, ◌-◌, ◌≤◌, ◌<◌, ◌≡◌, refl, sym, ap, ◌∙◌, inl, inr, true, false, not, ◌&&◌, List,
  [], length, ltb, Bool-cases, arith,
}
use native.Mathlib.Decide.{dec_le}
use rvnsyncpoint.Outcome.{Outcome, ok, stuck}
use rvnsyncpoint.Stream.Cursor.{at, failed}
use rvnsyncpoint.SyncPoint.{SyncPoint, sync_point, same_point, valid}
use rvnsyncpoint.SyncPoint.Equality.{same_point_refl}
use rvnsyncpoint.SyncFile.State.{SyncFile}
use rvnsyncpoint.SyncFile.Entry.{set_type, read_v3}
use rvnsyncpoint.SyncFile.Entry.Layout.Ends.{zero_entry, read_v3-failed}
use rvnsyncpoint.SyncFile.Blocks.{load_blocks}
use rvnsyncpoint.SyncFile.Points.{Stack, read_entry, read_point, next_loop, next, forget_event}
use rvnsyncpoint.SyncFile.Points.Rounds.{
  stride, read_point-file, read_point-short, read_entry-recent,
}
use rvnsyncpoint.SyncFile.Points.Landing.{next_loop-suc}
use rvnsyncpoint.SyncFile.Points.Next.{
  after_loop, next-going, forget_event-file, forget_event-version, forget_event-current,
}

after_loop-ok :
    (r : Outcome (Unit {0}) × SyncFile)
    → r.0 ≡ ok tt
    → after_loop r ≡ (ok (forget_event r.1).current, forget_event r.1)
after_loop-ok (r, s) e = rw e (ap (λ c. (ok c, forget_event s)) (sym (forget_event-current s)))

after_loop-stuck : (r : Outcome (Unit {0}) × SyncFile) → r.0 ≡ stuck → (after_loop r).0 ≡ stuck
after_loop-stuck (r, s) e = rw e

module _ (stack : Stack) (bytes : List ℕ) where
  -- Every round takes 80 bytes at least, so the rounds that the bytes allow are enough.
  next_loop-ends :
      (rounds p : ℕ) (prev : SyncPoint) (s : SyncFile)
      → s.file ≡ at bytes p
      → length bytes - p < rounds
      → (next_loop stack rounds prev s).0 ≡ ok tt
  next_loop-ends zero p prev s h k = elim k [ ]
  next_loop-ends (suc rounds) p prev s h k =
      elim (dec_le (p + stride s.version s.record_size) (length bytes)) [
        | no over ↦
            let e = read_point-short stack s bytes p h (omega arith) in
            rw (next_loop-suc stack rounds prev s {b = false} (ground arith))
        | yes more ↦
            elim (Bool-cases
              (same_point prev (read_point stack s).current && not (read_point stack s).file.eof)) [
                | inl again ↦ rw (next_loop-suc stack rounds prev s again) (
                    next_loop-ends rounds (p + stride s.version s.record_size) prev
                      (read_point stack s) (read_point-file stack s bytes p h more)
                      (omega (arith, wide)))
                | inr stop ↦ rw (next_loop-suc stack rounds prev s stop)
              ]
      ]
    where
      wide : 80 ≤ stride s.version s.record_size
      wide = ground arith

  -- With more rounds than the file has bytes, `next` returns from every offset of an open file, in
  -- every format and with every record size.
  pub next-returns :
      (rounds p : ℕ) (s : SyncFile)
      → s.file ≡ at bytes p
      → length bytes < rounds
      → (s' : SyncFile) × (next stack rounds s ≡ (ok s'.current, s'))
  next-returns rounds p s h k = (
    forget_event (next_loop stack rounds s.current s).1,
    next-going stack rounds s (ap (λ f. f.eof) h)
        ∙ after_loop-ok _ (next_loop-ends rounds p s.current s h (omega arith)),
  )

-- The point that a record of zeros leaves.
abbrev pub zero_point : SyncPoint → SyncPoint
zero_point c = record (set_type 0 (zero_entry c).point) { blocks = [] }

zero_point-again : (c : SyncPoint) → zero_point (zero_point c) ≡ zero_point c
unfolding set_type
zero_point-again c = refl

module _ (stack : Stack) (bytes : List ℕ) (p : ℕ) where
  read_entry-failed :
      (s : SyncFile)
      → ltb s.version 3 ≡ false
      → s.file ≡ failed bytes p
      → read_entry stack s ≡ (zero_entry s.current, failed bytes p)
  read_entry-failed s v h =
      read_entry-recent stack s v
      ∙ (ap (read_v3 s.record_size s.current) h ∙ read_v3-failed s.record_size s.current bytes p)

  read_point-failed :
      (s : SyncFile)
      → ltb s.version 3 ≡ false
      → s.file ≡ failed bytes p
      → ((read_point stack s).file ≡ failed bytes p)
        × ((read_point stack s).current ≡ zero_point s.current)
  unfolding read_point load_blocks
  read_point-failed s v h =
      let e = read_entry-failed s v h in
      (
        ap (λ r. r.1) e,
        ap
            (λ r. record (set_type r.0.type r.0.point) {
              blocks = (load_blocks r.0.data_offset s.data_file).0;
            })
            e,
      )

  -- Where the current point is that of a record of zeros, every round reads it again.
  next_loop-diverges :
      (rounds : ℕ) (c : SyncPoint) (s : SyncFile)
      → ltb s.version 3 ≡ false
      → s.file ≡ failed bytes p
      → s.current ≡ zero_point c
      → (next_loop stack rounds (zero_point c) s).0 ≡ stuck
  next_loop-diverges zero c s v h e = unfold next_loop in refl
  next_loop-diverges (suc rounds) c s v h e =
      let (file', current') = read_point-failed s v h in
      let same : (read_point stack s).current ≡ zero_point c =
        current' ∙ (ap zero_point e ∙ zero_point-again c) in
      rw
        (next_loop-suc stack rounds (zero_point c) s {b = true}
          (rw (same, file') (rw (same_point_refl (zero_point c)))))
        (next_loop-diverges rounds c (read_point stack s) (unfold read_point in v) file' same)

  zero_point-new : same_point sync_point (zero_point sync_point) ≡ false
  unfolding same_point sync_point set_type
  zero_point-new = refl

  -- Behind a refused seek, from a new point, `next` returns an invalid point once.
  next-invalid :
      (rounds : ℕ) (s : SyncFile)
      → ltb s.version 3 ≡ false
      → s.file ≡ failed bytes p
      → s.current ≡ sync_point
      → (next stack (suc rounds) s
          ≡ (ok (forget_event (read_point stack s)).current, forget_event (read_point stack s)))
  next-invalid rounds s v h e =
      let (file', current') = read_point-failed s v h in
      let new : same_point s.current (read_point stack s).current ≡ false =
        rw (current', e) zero_point-new in
      next-going stack (suc rounds) s (ap (λ f. f.eof) h)
      ∙ (ap after_loop (next_loop-suc stack rounds s.current s {b = false} (rw new))
          ∙ after_loop-ok _ refl)

  -- In the 64-bit format, where the last seek was refused and the point is new, one call of `next`
  -- returns a point that is not valid, and the call after that never returns.
  pub next_twice-diverges :
      (s : SyncFile)
      → ltb s.version 3 ≡ false
      → s.file ≡ failed bytes p
      → s.current ≡ sync_point
      → (s' : SyncFile) × ((rounds : ℕ) → next stack (suc rounds) s ≡ (ok s'.current, s'))
        × (valid s'.current ≡ false)
        × ((rounds : ℕ) → (next stack rounds s').0 ≡ stuck)
  next_twice-diverges s v h e =
      let (file', current') = read_point-failed s v h in
      let s' = forget_event (read_point stack s) in
      let zeros : s'.current ≡ zero_point sync_point =
        forget_event-current (read_point stack s) ∙ (current' ∙ ap zero_point e) in
      let broken : s'.file ≡ failed bytes p = forget_event-file (read_point stack s) ∙ file' in
      (
        s',
        λ rounds. next-invalid rounds s v h e,
        rw zeros (unfold valid set_type in refl),
        λ rounds.
            ap (λ r. r.0) (next-going stack rounds s' (ap (λ f. f.eof) broken))
            ∙ after_loop-stuck _ (
                ap (λ c. (next_loop stack rounds c s').0) zeros
                ∙ next_loop-diverges rounds sync_point s'
                    (rw (forget_event-version (read_point stack s)) (unfold read_point in v)) broken
                    zeros),
      )
