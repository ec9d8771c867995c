-- ===== src/SyncFile/Points/Whole.antt =====
-- What `next` leaves at the end of a file of whole records: a point that is not valid.
use rvnsyncpoint.Base.{
  ℕ, zero, suc, ◌+◌, ◌-◌, ◌*◌, ◌^◌, ◌≤◌, ◌<◌, ◌≡◌, refl, sym, ap, ◌∙◌, inl, inr, true, false, List,
  length, take, drop-of_le, Bool-cases, arith,
}
use native.Mathlib.Decide.{dec_le}
use rvnsyncpoint.Base.Bytes.{le_value}
use rvnsyncpoint.Stream.{read_uint}
use rvnsyncpoint.Stream.Cursor.{at, read_uint-value}
use rvnsyncpoint.Outcome.{Outcome, ok, throws, crash, stuck}
use rvnsyncpoint.SyncPoint.{SyncPoint, same_point, from_v2, valid}
use rvnsyncpoint.SyncFile.State.{SyncFile, header_size}
use rvnsyncpoint.SyncFile.Entry.{read_v2, read_v3, set_type}
use rvnsyncpoint.SyncFile.Points.{Stack, read_entry, read_point, next_loop, next}
use rvnsyncpoint.SyncFile.Points.Rounds.{stride}
use rvnsyncpoint.SyncFile.Points.Landing.{IsAt, next_loop-suc, step-IsAt, step-short}
use rvnsyncpoint.SyncFile.Points.Next.{
  next-going, after_loop, forget_event-current, forget_event-file,
}

set_type-tsc : (type : ℕ) (p : SyncPoint) → (set_type type p).tsc ≡ p.tsc
unfolding set_type
set_type-tsc type p = ground arith

-- Both formats start with the time stamp.
read_entry-tsc :
    (stack : Stack) (s : SyncFile) → (read_entry stack s).0.point.tsc ≡ (read_uint 8 s.file).0
unfolding read_entry read_v2 read_v3 from_v2
read_entry-tsc stack s = ground arith

read_point-past :
    (stack : Stack) (bytes : List ℕ) (s : SyncFile)
    → s.file ≡ at bytes (length bytes)
    → (read_point stack s).current.tsc ≡ 0
unfolding read_point le_value
read_point-past stack bytes s h =
    set_type-tsc _ (read_entry stack s).0.point
    ∙ (read_entry-tsc stack s
        ∙ (ap (λ f. (read_uint 8 f).0) h
            ∙ (read_uint-value bytes (length bytes) 8
                ∙ ap (λ l. le_value (take 8 l)) (drop-of_le (length bytes) bytes (omega arith)))))

module _ (stack : Stack) (bytes : List ℕ) (v rs : ℕ) (fits : length bytes < 2 ^ 63)
    (framed : stride v rs ≡ rs) where
  stride-wide : 80 ≤ rs
  stride-wide = ground arith

  -- With `j` records left; where the loop meets the end, it has read a record of zeros.
  next_loop-past :
      (j rounds n : ℕ) (prev : SyncPoint) (s : SyncFile)
      → IsAt bytes v rs n s
      → length bytes ≡ header_size + rs * n + rs * j
      → j < rounds
      → (next_loop stack rounds prev s).1.file.eof ≡ true
      → (next_loop stack rounds prev s).1.current.tsc ≡ 0
  next_loop-past j zero n prev s h l k e = absurd (omega arith)
  next_loop-past zero (suc rounds) n prev s h l k e =
      let short : (read_point stack s).file.eof ≡ true =
        step-short stack bytes v rs fits framed n s h (omega (arith, stride-wide, l)) in
      rw (next_loop-suc stack rounds prev s {b = false} (ground arith))
        (read_point-past stack bytes s (h.place ∙ ap (at bytes) (omega (arith, l))))
  next_loop-past (suc j) (suc rounds) n prev s h l k e =
      let more : header_size + rs * n + rs ≤ length bytes = grind (arith, l) in
      let there = step-IsAt stack bytes v rs fits framed n s h more in
      elim (Bool-cases (same_point prev (read_point stack s).current)) [
        | inl same ↦
            let again =
              next_loop-suc stack rounds prev s {b = true}
                (ground (arith, same, ap (λ f. f.eof) there.place)) in
            rw again (
              next_loop-past j rounds (suc n) prev (read_point stack s) there (grind (arith, l))
                (omega arith) (rw again at e))
        | inr new ↦
            let stop = next_loop-suc stack rounds prev s {b = false} (ground (arith, new)) in
            absurd (ground (arith, ap (λ f. f.eof) there.place, ap (λ r. r.1.file.eof) stop))
      ]

after_loop-current :
    (r : Outcome (Unit {0}) × SyncFile)
    → ((after_loop r).1.file.eof ≡ r.1.file.eof) × ((after_loop r).1.current ≡ r.1.current)
after_loop-current (ok _, s) = (ap (λ f. f.eof) (forget_event-file s), forget_event-current s)
after_loop-current (throws e, s) = (refl, refl)
after_loop-current (crash, s) = (refl, refl)
after_loop-current (stuck, s) = (refl, refl)

-- Where `next` meets the end of a file of whole records, the point is not valid.
pub next-past :
    (stack : Stack) (bytes : List ℕ) (v rs j rounds n : ℕ) (s : SyncFile)
    → length bytes < 2 ^ 63
    → stride v rs ≡ rs
    → IsAt bytes v rs n s
    → length bytes ≡ header_size + rs * n + rs * j
    → j < rounds
    → (next stack rounds s).1.file.eof ≡ true
    → (next stack rounds s).1.current.tsc ≡ 0
next-past stack bytes v rs j rounds n s fits framed h l k e =
    let going = next-going stack rounds s (ap (λ f. f.eof) h.place) in
    let r = after_loop-current (next_loop stack rounds s.current s) in
    ap (λ r. r.1.current.tsc) going
    ∙ (ap (λ p. p.tsc) r.1
        ∙ next_loop-past stack bytes v rs fits framed j rounds n s.current s h l k
            (sym r.0 ∙ (sym (ap (λ r. r.1.file.eof) going) ∙ e)))

-- The records that are left behind the record `m`.
pub left_over :
    (rs start n j m l : ℕ)
    → 0 < rs
    → l ≡ start + rs * n + rs * j
    → start + rs * m ≤ l
    → n < m
    → (k : ℕ) × (l ≡ start + rs * m + rs * k) × (k < j)
left_over rs start n j m l pos e inside ahead = elim (dec_le m (n + j)) [
  | yes fits ↦
      let whole : rs * (m + (n + j - m)) ≡ rs * (n + j) = ap (λ k. rs * k) (omega arith) in
      (n + j - m, grind (arith, whole, e), omega arith)
  | no beyond ↦
      let more : rs * (suc (n + j) + (m - suc (n + j))) ≡ rs * m = ap (λ k. rs * k) (omega arith) in
      absurd (grind (arith, more, e, inside))
]

-- A point without a time stamp.
pub not_valid : (p : SyncPoint) → p.tsc ≡ 0 → valid p ≡ false
unfolding valid
not_valid p h = rw h refl
