-- ===== src/Dump/Points.antt =====
-- What dump_sync_points prints of a file of whole records.
use rvnsyncpoint.Base.{
  ◌⊎◌, append_assoc, append_nil, ℕ, zero, suc, ◌+◌, ◌-◌, ◌*◌, ◌/◌, ◌^◌, some, ◌≤◌, ◌<◌, ◌≡◌, refl,
  sym, ap, ◌∙◌, inl, inr, true, false, List, [], ◌∷◌, ◌++◌, length, Bool-cases, arith,
}
use mathlib.Core.Path.{subst}
use rvnsyncpoint.Outcome.{Outcome, ok}
use rvnsyncpoint.SyncPoint.{SyncPoint, sync_point, valid}
use rvnsyncpoint.SyncFile.State.{
  SyncFile, Unset, sync_file, header_size, sync_point_magic, sync_point_file_version,
}
use rvnsyncpoint.SyncFile.Points.{Stack, next}
use rvnsyncpoint.SyncFile.Points.Rounds.{stride}
use rvnsyncpoint.SyncFile.Points.Landing.{IsAt, Lands, Spent}
use rvnsyncpoint.SyncFile.Points.Next.{next-lands}
use rvnsyncpoint.Dump.{
  Line, Run, point_line, count_line, while_next, print_point, test, dump_loaded, dump_sync_points,
}
use rvnsyncpoint.SyncFile.Load.Result.{data_answer}
use rvnsyncpoint.SyncFile.Load.Opened.{load-IsAt}
use rvnsyncpoint.Stream.Cursor.{value_at}
use rvnsyncpoint.Stream.Ifstream.{Files}
use rvnsyncpoint.SyncFile.Points.Whole.{next-past, left_over, not_valid}

module _ (bytes : List ℕ) (v rs : ℕ) where
  -- The next record that does not repeat `prev` is not valid, or every whole record that is left
  -- repeats it.
  abbrev pub Stops : ℕ → SyncPoint → Type 0
  Stops n prev =
      (s : SyncFile) × ((((m : ℕ) × Lands bytes v rs n m prev s) × (valid s.current ≡ false))
        ⊎ Spent bytes v rs n prev s)

  -- The lines are the points of the file, up to one that is not valid or to the end: each is the
  -- first record behind the one before that does not repeat it, is valid, and is printed with its
  -- position.
  abbrev pub Lists : ℕ → SyncPoint → List Line → Type 0
  Lists n prev [] = Stops n prev
  Lists n prev (point_line m c ∷ rest) =
      ((s : SyncFile) × Lands bytes v rs n m prev s × (s.current ≡ c))
      × (valid c ≡ true)
      × Lists m c rest
  Lists n prev (_ ∷ rest) = ⊥

  -- The loop has ended and has printed such lines behind `out`.
  abbrev pub Listed : ℕ → SyncPoint → List Line → Run → Type 0
  Listed n prev out r =
      (r.0 ≡ ok tt) × ((lines : List Line) × (r.1 ≡ out ++ lines) × Lists n prev lines)

  -- One line more.
  Listed-line :
      (n m : ℕ) (prev : SyncPoint) (out : List Line) (s : SyncFile) (r : Run)
      → Lands bytes v rs n m prev s
      → valid s.current ≡ true
      → Listed m s.current (out ++ (point_line m s.current ∷ [])) r
      → Listed n prev out r
  Listed-line n m prev out s r l good (e, (lines, printed, more)) = (
    e,
    (
      point_line m s.current ∷ lines,
      printed ∙ append_assoc out (point_line m s.current ∷ []) lines,
      ((s, l, refl), good, more),
    ),
  )

  -- A point that is not valid ends the loop.
  Listed-stop :
      (n : ℕ) (prev : SyncPoint) (out : List Line) (s : SyncFile)
      → Stops n prev
      → Listed n prev out (ok tt, out, s)
  Listed-stop n prev out s h = (refl, ([], sym (append_nil out), h))

test-stop :
    (c : SyncPoint) (r : Outcome SyncPoint) (s : SyncFile) (out : List Line)
    (rest : List Line → SyncFile → Run)
    → r ≡ ok c
    → valid c ≡ false
    → test print_point (r, s) out rest ≡ (ok tt, out, s)
test-stop c r s out rest e h = rw (e, h) refl

test-line :
    (c : SyncPoint) (r : Outcome SyncPoint) (s : SyncFile) (out : List Line)
    (rest : List Line → SyncFile → Run)
    → r ≡ ok c
    → valid c ≡ true
    → test print_point (r, s) out rest ≡ rest (out ++ (point_line s.position s.current ∷ [])) s
test-line c r s out rest e h = rw (e, h) refl

module _ (stack : Stack) (bytes : List ℕ) (v rs rounds : ℕ) (framed : stride v rs ≡ rs)
    (fits : length bytes < 2 ^ 63) (enough : length bytes < rounds) where
  positive : 0 < rs
  positive = ground arith

  -- No more records than bytes.
  records_le : (j : ℕ) → j ≤ rs * j
  records_le j = grind (arith, positive)

  -- On a file of whole records, from any of them on, the loop ends, and what it has printed are the
  -- points of the file that differ from those before them, with their positions, up to the first one
  -- that is not valid, or to the end of the file.
  pub while_next-Listed :
      (left n j : ℕ) (out : List Line) (s : SyncFile)
      → IsAt bytes v rs n s
      → length bytes ≡ header_size + rs * n + rs * j
      → j < left
      → Listed bytes v rs n s.current out (while_next print_point stack rounds left out s)
  unfolding while_next
  while_next-Listed zero n j out s h l k = absurd (omega arith)
  while_next-Listed (suc left) n j out s h l k =
      let q = next stack rounds s in
      let rest : List Line → SyncFile → Run = while_next print_point stack rounds left in
      let lands = next-lands stack bytes v rs rounds n s framed fits enough h in
      let small : j < rounds = omega (arith, records_le j, l) in
      elim (Bool-cases (valid q.1.current)) [
        | inr bad ↦
            subst (Listed bytes v rs n s.current out)
              (sym (test-stop q.1.current q.0 q.1 out rest lands.0 bad))
              (Listed-stop bytes v rs n s.current out q.1 (elim lands.1 [
                | inl there ↦ (q.1, inl (there, bad))
                | inr spent ↦ (q.1, inr spent)
              ]))
        | inl good ↦
            subst (Listed bytes v rs n s.current out)
              (sym (test-line q.1.current q.0 q.1 out rest lands.0 good))
              (elim lands.1 [
                | inr (ended, spent) ↦ absurd (
                    ground (
                      arith,
                      good,
                      not_valid q.1.current
                          (next-past stack bytes v rs j rounds n s fits framed h l small ended),
                    ))
                | inl (m, there) ↦
                    let (k', l', fewer) =
                      left_over rs header_size n j m (length bytes) positive l there.inside
                        there.ahead in
                    let line =
                      while_next-Listed left m k' (out ++ (point_line m q.1.current ∷ [])) q.1
                        there.there l' (omega arith) in
                    let again =
                      Listed-line bytes v rs n m s.current out q.1
                        (rest (out ++ (point_line m q.1.current ∷ [])) q.1) there good line in
                    subst
                      (λ p.
                        Listed bytes v rs n s.current out
                          (rest (out ++ (point_line p q.1.current ∷ [])) q.1))
                      (sym there.there.position) again
              ])
      ]

new-current : (unset : Unset) → (sync_file unset).current ≡ sync_point
unfolding sync_file
new-current unset = refl

-- dump_sync_points ends on a file of whole records with the right magic number, a known version and
-- that record size. It prints the number of records, and then the points of the file that differ
-- from those before them, with their positions, up to the first one that is not valid, or to the end
-- of the file; the first record is compared with a new point. The data file that it names must be missing or have the right magic number.
pub dump_sync_points-Listed :
    (files : Files) (no_name : ℕ) (stack : Stack) (unset : Unset) (rounds left file_name : ℕ)
    (bytes : List ℕ) (rs j : ℕ)
    → files file_name ≡ some bytes
    → length bytes < 2 ^ 63
    → length bytes < rounds
    → value_at bytes 0 8 ≡ sync_point_magic
    → value_at bytes 8 4 ≤ sync_point_file_version
    → value_at bytes 16 4 ≡ rs
    → stride (value_at bytes 8 4) rs ≡ rs
    → length bytes ≡ header_size + rs * j
    → j < left
    → data_answer (files no_name) ≡ ok true
    → Listed bytes
        (value_at bytes 8 4)
        rs
        0
        sync_point
        (count_line ((length bytes - header_size) / rs) ∷ [])
        (dump_sync_points files no_name stack unset rounds left file_name)
unfolding dump_sync_points
dump_sync_points-Listed files no_name stack unset rounds left file_name bytes rs j found fits enough
      magic known size framed whole more dump =
    let v : ℕ = value_at bytes 8 4 in
    let pos : 0 < rs = positive stack bytes v rs rounds framed fits enough in
    let (s, e, isat, counted, kept) =
      load-IsAt files file_name no_name bytes (sync_file unset) found (omega (arith, whole)) fits
        magic known (λ z. absurd (omega (arith, size, pos, z))) dump in
    let at_start : IsAt bytes v rs 0 s = subst (λ n. IsAt bytes v n 0 s) size isat in
    let print_from : ℕ → Run =
      λ n. while_next print_point stack rounds left (count_line n ∷ []) s in
    let lines : List Line = count_line ((length bytes - header_size) / rs) ∷ [] in
    let run : Run = dump_sync_points files no_name stack unset rounds left file_name in
    subst (λ prev. Listed bytes v rs 0 prev lines run) (kept ∙ new-current unset)
      (subst (Listed bytes v rs 0 s.current lines)
        (sym (
          ap (dump_loaded (λ s. count_line s.sync_point_count ∷ []) print_point stack rounds left) e
          ∙ ap print_from (counted ∙ ap (λ n. (length bytes - header_size) / n) size)))
        (while_next-Listed stack bytes v rs rounds framed fits enough left 0 j lines s at_start
          (omega (arith, whole)) more))
