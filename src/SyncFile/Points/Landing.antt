-- ===== src/SyncFile/Points/Landing.antt =====
-- Where `next` lands in a file of whole records.
use rvnsyncpoint.Base.{
  ℕ, zero, suc, ◌+◌, ◌-◌, ◌*◌, ◌^◌, ◌≤◌, ◌<◌, ◌≡◌, refl, ap, ◌∙◌, ◌⊎◌, inl, inr, Bool, true, false,
  not, ◌&&◌, List, length, ltb, ltb→lt, if◌then◌else◌, Bool-cases, arith,
}
use mathlib.Core.Path.{subst}
use native.Mathlib.Decide.{dec_le}
use rvnsyncpoint.Outcome.{Outcome, ok}
use rvnsyncpoint.Stream.Cursor.{at}
use rvnsyncpoint.SyncPoint.{SyncPoint, SyncPointV2, same_point}
use rvnsyncpoint.SyncFile.State.{SyncFile, header_size}
use rvnsyncpoint.SyncFile.Entry.Layout.{entry_v2, entry_v3}
use rvnsyncpoint.SyncFile.Points.{Stack, read_point, next_loop}
use rvnsyncpoint.SyncFile.Points.Rounds.{
  stride, widen, shown, entry_at, read_point-file, read_point-position, read_point-current,
  read_point-short,
}

-- The file of records of `rs` bytes, in the format `v`, is read up to the record `n`, and the
-- position says so.
pub record IsAt (bytes : List ℕ) (v rs n : ℕ) (s : SyncFile) : Type 0 where
  pub version : s.version ≡ v
  pub size : s.record_size ≡ rs
  pub place : s.file ≡ at bytes (header_size + rs * n)
  pub position : s.position ≡ n

-- The point is what the record at the offset `p` holds, whatever the blocks.
pub data Shows (bytes : List ℕ) (v p : ℕ) (c : SyncPoint) : Type 0 where
  old :
      v < 3
      → (old_sp : SyncPointV2) → c ≡ shown (widen (entry_v2 bytes p old_sp)) c.blocks
      → Shows bytes v p c
  recent :
      3 ≤ v → (base : SyncPoint) → c ≡ shown (entry_v3 bytes p base) c.blocks → Shows bytes v p c

-- From the record `n` on, the records before the position `m` repeat `prev`, and the point at `m`,
-- the current one, does not.
pub record Lands (bytes : List ℕ) (v rs n m : ℕ) (prev : SyncPoint) (s : SyncFile) : Type 0 where
  pub there : IsAt bytes v rs m s
  pub ahead : n < m
  pub inside : header_size + rs * m ≤ length bytes
  pub shows : Shows bytes v (header_size + rs * (m - 1)) s.current
  pub fresh : same_point prev s.current ≡ false
  pub skipped :
      (j : ℕ)
      → n ≤ j
      → suc j < m
      → (c : SyncPoint) × Shows bytes v (header_size + rs * j) c × (same_point prev c ≡ true)

-- The end has been met, and every whole record from `n` on repeats `prev`.
abbrev pub Spent : List ℕ → ℕ → ℕ → ℕ → SyncPoint → SyncFile → Type 0
Spent bytes v rs n prev s =
    (s.file.eof ≡ true)
    × ((j : ℕ)
        → n ≤ j
        → header_size + rs * j + rs ≤ length bytes
        → (c : SyncPoint) × Shows bytes v (header_size + rs * j) c × (same_point prev c ≡ true))

mul_le : (rs n j : ℕ) → n ≤ j → rs * n ≤ rs * j
mul_le rs n j h =
    let e : rs * (n + (j - n)) ≡ rs * j = ap (λ k. rs * k) (omega arith) in grind (arith, e)

Shows-entry :
    (stack : Stack) (bytes : List ℕ) (p : ℕ) (s : SyncFile) (c : SyncPoint)
    → c ≡ shown (entry_at stack s bytes p) c.blocks
    → Shows bytes s.version p c
Shows-entry stack bytes p s c h = elim (Bool-cases (ltb s.version 3)) [
  | inl is_old ↦ Shows.old (ltb→lt _ _ is_old) (stack s) (rw is_old at h)
  | inr is_recent ↦ Shows.recent (ground arith) s.current (rw is_recent at h)
]

pub next_loop-suc :
    (stack : Stack) (rounds : ℕ) (prev : SyncPoint) (s : SyncFile) {b : Bool}
    → same_point prev (read_point stack s).current && not (read_point stack s).file.eof ≡ b
    → next_loop stack (suc rounds) prev s ≡ (
        if b then next_loop stack rounds prev (read_point stack s) else (ok tt, read_point stack s))
unfolding next_loop
next_loop-suc stack rounds prev s h = rw h

-- A record offset within the file keeps the position far below the range of its type.
position-lt : (v rs n l : ℕ) → stride v rs ≡ rs → header_size + rs * n ≤ l → l < 2 ^ 63 → n < 2 ^ 63
position-lt v rs n l framed h k = grind (arith, le_mul)
  where
    le_mul : 0 < rs → n ≤ rs * n
    le_mul pos = grind arith

module _ (stack : Stack) (bytes : List ℕ) (v rs : ℕ) (fits : length bytes < 2 ^ 63)
    (framed : stride v rs ≡ rs) where
  module _ (n : ℕ) (s : SyncFile) (h : IsAt bytes v rs n s) where
    same-stride : stride s.version s.record_size ≡ rs
    same-stride = rw (h.version, h.size) framed

    pub step-IsAt :
        header_size + rs * n + rs ≤ length bytes → IsAt bytes v rs (suc n) (read_point stack s)
    step-IsAt l = record {
      version = unfold read_point in h.version;
      size = unfold read_point in h.size;
      place =
          read_point-file stack s bytes _ h.place (omega (arith, same-stride))
          ∙ ap (at bytes) (omega (arith, same-stride));
      position =
          read_point-position stack s bytes _ h.place (omega (arith, same-stride))
          ∙ omega (arith, h.position, position-lt v rs n (length bytes) framed (omega arith) fits);
    }

    pub step-Shows :
        header_size + rs * n + rs ≤ length bytes
        → Shows bytes v (header_size + rs * n) (read_point stack s).current
    step-Shows l =
        subst (λ w. Shows bytes w (header_size + rs * n) (read_point stack s).current) h.version
          (Shows-entry stack bytes (header_size + rs * n) s (read_point stack s).current
            (read_point-current stack s bytes _ h.place (omega (arith, same-stride))))

    pub step-short : length bytes < header_size + rs * n + rs → (read_point stack s).file.eof ≡ true
    step-short l = read_point-short stack s bytes _ h.place (omega (arith, same-stride))

  -- How the loop ends.
  abbrev pub Landing : ℕ → SyncPoint → Outcome (Unit {0}) × SyncFile → Type 0
  Landing n prev (r, s) =
      (r ≡ ok tt) × (((m : ℕ) × Lands bytes v rs n m prev s) ⊎ Spent bytes v rs n prev s)

  -- One more record that repeats the point before.
  Lands-skip :
      (n m : ℕ) (prev c : SyncPoint) (s : SyncFile)
      → Shows bytes v (header_size + rs * n) c
      → same_point prev c ≡ true
      → Lands bytes v rs (suc n) m prev s
      → Lands bytes v rs n m prev s
  Lands-skip n m prev c s sh same l = record {
    there = l.there;
    ahead = omega (arith, l.ahead);
    inside = l.inside;
    shows = l.shows;
    fresh = l.fresh;
    skipped = λ j lo hi. elim (dec_le (suc n) j) [
      | yes later ↦ l.skipped j later hi
      | no now ↦
          let e : n ≡ j = omega arith in
          (c, subst (λ k. Shows bytes v (header_size + rs * k) c) e sh, same)
    ];
  }

  Landing-skip :
      (n : ℕ) (prev c : SyncPoint) (r : Outcome (Unit {0}) × SyncFile)
      → Shows bytes v (header_size + rs * n) c
      → same_point prev c ≡ true
      → Landing (suc n) prev r
      → Landing n prev r
  Landing-skip n prev c r sh same (e, inl (m, l)) =
      (e, inl (m, Lands-skip n m prev c r.1 sh same l))
  Landing-skip n prev c r sh same (e, inr (ended, spent)) = (
    e,
    inr (
      ended,
      λ j lo hi. elim (dec_le (suc n) j) [
        | yes later ↦ spent j later hi
        | no now ↦
            let q : n ≡ j = omega arith in
            (c, subst (λ k. Shows bytes v (header_size + rs * k) c) q sh, same)
      ],
    ),
  )

  -- A record that differs from the point before.
  pub Lands-here :
      (n : ℕ) (prev : SyncPoint) (s : SyncFile)
      → IsAt bytes v rs n s
      → header_size + rs * n + rs ≤ length bytes
      → same_point prev (read_point stack s).current ≡ false
      → Lands bytes v rs n (suc n) prev (read_point stack s)
  Lands-here n prev s h more new = record {
    there = step-IsAt n s h more;
    ahead = omega arith;
    inside = omega arith;
    shows =
        subst (λ k. Shows bytes v (header_size + rs * k) (read_point stack s).current) (omega arith)
          (step-Shows n s h more);
    fresh = new;
    skipped = λ j lo hi. absurd (omega arith);
  }

  pub next_loop-lands :
      (rounds n : ℕ) (prev : SyncPoint) (s : SyncFile)
      → IsAt bytes v rs n s
      → length bytes - (header_size + rs * n) < rounds
      → Landing n prev (next_loop stack rounds prev s)
  next_loop-lands zero n prev s h k = elim k [ ]
  next_loop-lands (suc rounds) n prev s h k =
      elim (dec_le (header_size + rs * n + rs) (length bytes)) [
        | no over ↦
            let e : (read_point stack s).file.eof ≡ true = step-short n s h (omega arith) in
            rw (next_loop-suc stack rounds prev s {b = false} (ground arith))
              (refl, inr (e, λ j lo hi. absurd (omega (arith, mul_le rs n j lo))))
        | yes more ↦
            let going : (read_point stack s).file.eof ≡ false =
              ap (λ f. f.eof) (step-IsAt n s h more).place in
            elim (Bool-cases (same_point prev (read_point stack s).current)) [
              | inl same ↦ rw (next_loop-suc stack rounds prev s {b = true} (ground arith)) (
                  Landing-skip n prev (read_point stack s).current _ (step-Shows n s h more) same (
                    next_loop-lands rounds (suc n) prev (read_point stack s) (step-IsAt n s h more)
                      (grind (arith, positive))))
              | inr new ↦
                  rw (next_loop-suc stack rounds prev s {b = false} (ground arith))
                    (refl, inl (suc n, Lands-here n prev s h more new))
            ]
      ]
    where
      positive : 80 ≤ rs
      positive = ground arith
