-- ===== src/SyncFile/Points/Rounds.antt =====
-- One round of `next`, on a file that is open at some offset.
use rvnsyncpoint.Base.{
  ℕ, ◌+◌, ◌%◌, ◌≤◌, ◌<◌, ◌≡◌, ap, ◌∙◌, true, false, not, List, length, ltb, if◌then◌else◌,
  Bool-cases, inl, inr, arith,
}
use rvnsyncpoint.Stream.Cursor.{at, at_end}
use rvnsyncpoint.SyncPoint.{SyncPoint, SyncPointV2, SyncPointData, from_v2}
use rvnsyncpoint.SyncFile.State.{SyncFile, u64_mod}
use rvnsyncpoint.SyncFile.Entry.{Entry, read_v2, read_v3, padding_size, set_type}
use rvnsyncpoint.SyncFile.Entry.Layout.{entry_v2, entry_v3, read_v2-at, read_v3-at}
use rvnsyncpoint.SyncFile.Entry.Layout.Ends.{read_v2-short, read_v3-short}
use rvnsyncpoint.SyncFile.Points.{Stack, read_entry, read_point}

-- The bytes that a round reads.
abbrev pub stride : ℕ → ℕ → ℕ
stride version record_size = if ltb version 3 then 80 else 201 + padding_size record_size

-- A 32-bit entry as a 64-bit one.
abbrev pub widen : Entry SyncPointV2 → Entry SyncPoint
widen e = record { point = from_v2 e.point; type = e.type; data_offset = e.data_offset }

-- The entry at the offset `p`.
abbrev pub entry_at : Stack → SyncFile → List ℕ → ℕ → Entry SyncPoint
entry_at stack s bytes p =
    if ltb s.version 3 then widen (entry_v2 bytes p (stack s)) else entry_v3 bytes p s.current

-- The point that an entry stands for, with its blocks.
abbrev pub shown : Entry SyncPoint → List SyncPointData → SyncPoint
shown e blocks = record (set_type e.type e.point) { blocks = blocks }

pub read_entry-old :
    (stack : Stack) (s : SyncFile)
    → ltb s.version 3 ≡ true
    → read_entry stack s ≡ (let (e, f) = read_v2 (stack s) s.file in (widen e, f))
unfolding read_entry
read_entry-old stack s h = rw h

pub read_entry-recent :
    (stack : Stack) (s : SyncFile)
    → ltb s.version 3 ≡ false
    → read_entry stack s ≡ read_v3 s.record_size s.current s.file
unfolding read_entry
read_entry-recent stack s h = rw h

module _ (stack : Stack) (s : SyncFile) (bytes : List ℕ) (p : ℕ) (here : s.file ≡ at bytes p) where
  read_entry-at :
      p + stride s.version s.record_size ≤ length bytes
      → read_entry stack s
        ≡ (entry_at stack s bytes p, at bytes (p + stride s.version s.record_size))
  read_entry-at h = elim (Bool-cases (ltb s.version 3)) [
    | inl old ↦
        read_entry-old stack s old
        ∙ (ap (λ f. (let (e, f') = read_v2 (stack s) f in (widen e, f'))) here
            ∙ (ap (λ r. (widen r.0, r.1)) (read_v2-at (stack s) bytes p (rw old at h)) ∙ rw old))
    | inr recent ↦
        read_entry-recent stack s recent
        ∙ (ap (read_v3 s.record_size s.current) here
            ∙ (read_v3-at s.record_size s.current bytes p (omega (arith, long recent))
                ∙ rw recent (ap (λ n. (entry_v3 bytes p s.current, at bytes n)) (omega arith))))
  ]
    where
      long :
          ltb s.version 3 ≡ false
          → stride s.version s.record_size ≡ 201 + padding_size s.record_size
      long e = rw e

  read_entry-short :
      length bytes < p + stride s.version s.record_size
      → (q : ℕ) × ((read_entry stack s).1 ≡ at_end bytes q)
  read_entry-short h = elim (Bool-cases (ltb s.version 3)) [
    | inl old ↦
        let (q, e) = read_v2-short (stack s) bytes p (rw old at h) in
        (
          q,
          ap (λ r. r.1) (read_entry-old stack s old) ∙ (ap (λ f. (read_v2 (stack s) f).1) here ∙ e),
        )
    | inr recent ↦
        let (q, e) = read_v3-short s.record_size s.current bytes p (omega (arith, long recent)) in
        (
          q,
          ap (λ r. r.1) (read_entry-recent stack s recent)
              ∙ (ap (λ f. (read_v3 s.record_size s.current f).1) here ∙ e),
        )
  ]
    where
      long :
          ltb s.version 3 ≡ false
          → stride s.version s.record_size ≡ 201 + padding_size s.record_size
      long e = rw e

  -- A round within the file reads the record there and stops behind it.
  pub read_point-file :
      p + stride s.version s.record_size ≤ length bytes
      → (read_point stack s).file ≡ at bytes (p + stride s.version s.record_size)
  unfolding read_point
  read_point-file h = ap (λ r. r.1) (read_entry-at h)

  pub read_point-position :
      p + stride s.version s.record_size ≤ length bytes
      → (read_point stack s).position ≡ (s.position + 1) % u64_mod
  unfolding read_point
  read_point-position h =
      ap (λ f. if not f.eof then (s.position + 1) % u64_mod else s.position)
        (ap (λ r. r.1) (read_entry-at h))

  pub read_point-current :
      p + stride s.version s.record_size ≤ length bytes
      → (read_point stack s).current
        ≡ shown (entry_at stack s bytes p) (read_point stack s).current.blocks
  unfolding read_point
  read_point-current h =
      ap (λ e. shown e (read_point stack s).current.blocks) (ap (λ r. r.0) (read_entry-at h))

  -- A round for which the bytes do not suffice meets the end.
  pub read_point-at_end :
      length bytes < p + stride s.version s.record_size
      → (q : ℕ) × ((read_point stack s).file ≡ at_end bytes q)
  unfolding read_point
  read_point-at_end h = read_entry-short h

  pub read_point-short :
      length bytes < p + stride s.version s.record_size → (read_point stack s).file.eof ≡ true
  read_point-short h = let (q, e) = read_point-at_end h in ap (λ f. f.eof) e
