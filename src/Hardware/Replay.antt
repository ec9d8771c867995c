-- ===== src/Hardware/Replay.antt =====
-- `next` on a file of accesses, the loop over it that the tools run, and returning to a place in
-- the file.
use rvnsyncpoint.Base.{
  append_nil, ℕ, zero, suc, ◌+◌, ◌-◌, ◌%◌, ◌^◌, ◌<◌, ◌≡◌, ◌≢◌, refl, sym, ap, ◌∙◌, true, false, not,
  List, [], ◌∷◌, ◌++◌, length, take, drop-of_le, All, ◌==◌, if◌then◌else◌, arith,
}
use rvnsyncpoint.Base.Bytes.{le_value}
use rvnsyncpoint.Outcome.{Outcome, ok, stuck}
use rvnsyncpoint.Stream
use rvnsyncpoint.Stream.{StreamableFile}
use rvnsyncpoint.Stream.Cursor.{at, read_uint-value, seek-at}
use rvnsyncpoint.Hardware.Access.{HardwareAccess, valid, read_access}
use rvnsyncpoint.Hardware.File.{HardwareFile, next, advance_to, sync_with}
use rvnsyncpoint.Hardware.Layout.{IsSized, access_bytes, then_access, read_access-written}

-- `while (file.next().valid())`, for at most so many rounds, over what the body changes.
unfoldable pub while_valid :
    {A : Type 0} → (HardwareAccess → A → A) → ℕ → A → HardwareFile → Outcome A × HardwareFile
while_valid body zero a s = (stuck, s)
while_valid body (suc rounds) a s =
    let s' = next s in
    let rest = while_valid body rounds (body s'.current a) s' in
    if valid s'.current then rest else (ok a, s')

-- The reader behind an access that it has read.
abbrev pub behind : HardwareFile → StreamableFile → HardwareAccess → ℕ → HardwareFile
behind s f access p = record s {
  file = f;
  current = access;
  last_read_position = p;
  position = (s.position + 1) % 2 ^ 64;
}

-- `next` by what the read delivers.
pub next-at :
    (s : HardwareFile) (bytes : List ℕ) (p : ℕ)
    → s.file ≡ at bytes p
    → next s ≡ (let (access, f) = read_access (at bytes p) in behind s f access p)
unfolding next Stream.pos
next-at s bytes p h = ap (next_on s) h
  where
    next_on : HardwareFile → StreamableFile → HardwareFile
    next_on s g =
        let (p, f) = Stream.pos g in
        if not f.eof
        then (let (access, f') = read_access f in behind s f' access p)
        else record s { file = f; current = record s.current { tsc = 0 }; last_read_position = p }

-- An access of a recording: its members fit, and it has a time stamp.
abbrev pub IsRecorded : HardwareAccess → Type 0
IsRecorded access = IsSized access × (access.tsc ≢ 0)

abbrev pub accesses_bytes : List HardwareAccess → List ℕ
accesses_bytes [] = []
accesses_bytes (access ∷ rest) = access_bytes access (accesses_bytes rest)

-- What the loop's body makes of a list.
abbrev pub fold_left {ℓ κ} : {A : Type ℓ} {B : Type κ} → (A → B → B) → B → List A → B
fold_left f b [] = b
fold_left f b (x ∷ xs) = fold_left f (f x b) xs

pub next-written :
    (s : HardwareFile) (before more : List ℕ) (access : HardwareAccess)
    → s.file ≡ at (before ++ access_bytes access more) (length before)
    → IsSized access
    → next s
      ≡ behind s
          (at (then_access before access ++ more) (length (then_access before access)))
          access
          (length before)
next-written s before more access h z =
    next-at s (before ++ access_bytes access more) (length before) h
    ∙ ap (λ r. behind s r.1 r.0 (length before)) (read_access-written before more access z)

pub next-past :
    (s : HardwareFile) (bytes : List ℕ)
    → s.file ≡ at bytes (length bytes)
    → (next s).current.tsc ≡ 0
unfolding read_access le_value
next-past s bytes h =
    ap (λ t. t.current.tsc) (next-at s bytes (length bytes) h)
    ∙ (read_uint-value bytes (length bytes) 8
        ∙ ap (λ l. le_value (take 8 l)) (drop-of_le (length bytes) bytes (omega arith)))

-- Before recorded accesses that stand at the end of the file, with more rounds than there are of
-- them, the loop that reads while the access is valid ends, and its body has run on every access, in
-- the order of the file.
pub while_valid-reads :
    {A : Type 0} (body : HardwareAccess → A → A) (accesses : List HardwareAccess) (rounds : ℕ)
    (before : List ℕ) (a : A) (s : HardwareFile)
    → s.file ≡ at (before ++ accesses_bytes accesses) (length before)
    → All IsRecorded accesses
    → length accesses < rounds
    → (while_valid body rounds a s).0 ≡ ok (fold_left body a accesses)
unfolding while_valid valid
while_valid-reads body accesses zero before a s h w k = absurd (omega arith)
while_valid-reads body [] (suc rounds) before a s h w k =
    let e : s.file ≡ at before (length before) =
      h ∙ ap (λ l. at l (length before)) (append_nil before) in
    rw (next-past s before e) refl
while_valid-reads body (access ∷ accesses) (suc rounds) before a s h w k =
    let e = next-written s before (accesses_bytes accesses) access h w.0.0 in
    let t : (access.tsc == 0) ≡ false = ground (arith, w.0.1) in
    ap
      (λ s'.
        (if valid s'.current then while_valid body rounds (body s'.current a) s' else (ok a, s')).0)
      e
    ∙ (rw t (
        while_valid-reads body accesses rounds (then_access before access) (body access a) _ refl
          w.1 (omega arith)))

-- The stream is open on these bytes, wherever it stands.
pub record IsOn (bytes : List ℕ) (s : HardwareFile) : Type 0 where
  pub is_open : s.file.in_file.is_open ≡ true
  pub contents : s.file.in_file.bytes ≡ bytes
  pub opened : s.file.opened ≡ true

-- `advance_to` of a position that is not 0 places the stream and the count, and reads.
advance_to-places :
    (bytes : List ℕ) (s : HardwareFile) (q n : ℕ)
    → q < 2 ^ 63
    → 0 < n
    → IsOn bytes s
    → advance_to q n s ≡ next (record s { file = at bytes q; position = n - 1 })
unfolding advance_to
advance_to-places bytes s q n fits pos o =
    let e : (n == 0) ≡ false = ground arith in
    ap
      (λ b.
        if b
        then record s { file = Stream.seek q s.file; position = 0 }
        else next (record s { file = Stream.seek q s.file; position = n - 1 }))
      e
    ∙ ap (λ f. next (record s { file = f; position = n - 1 }))
        (seek-at bytes s.file q o.is_open o.contents o.opened fits)

module _ (bytes : List ℕ) (p : ℕ) (s t : HardwareFile) where
  -- `file_position()` and `position()` behind a call of `next`, made in the file below 2 ^ 63 and
  -- before the count of accesses wraps around, and given to `advance_to` on any reader of the same
  -- file, bring that reader to the same access and state.
  pub advance_to-returns :
      t.file ≡ at bytes p
      → p < 2 ^ 63
      → t.position + 1 < 2 ^ 64
      → IsOn bytes s
      → advance_to (next t).last_read_position (next t).position s ≡ next t
  advance_to-returns h fits small o =
      let e = next-at t bytes p h in
      let n : (t.position + 1) % 2 ^ 64 ≡ t.position + 1 = omega arith in
      let placed : HardwareFile = record s { file = at bytes p; position = t.position } in
      ap (λ r. advance_to r.last_read_position r.position s) e
      ∙ (ap (λ k. advance_to p k s) n
          ∙ (advance_to-places bytes s p (t.position + 1) fits (omega arith) o
              ∙ (ap (λ k. next (record s { file = at bytes p; position = k })) (omega arith)
                  ∙ (next-at placed bytes p refl ∙ sym e))))

  -- A reader that is synchronised with another one of the same file, which stands below 2 ^ 63 with
  -- nothing wrong, reads what the other one would read next, and the other one is left as it was.
  pub sync_with-next :
      t.file ≡ at bytes p
      → p < 2 ^ 63
      → IsOn bytes s
      → (next (sync_with t s).0 ≡ next t) × ((sync_with t s).1 ≡ t)
  unfolding sync_with Stream.pos
  sync_with-next h fits o =
      let copy : StreamableFile → HardwareFile =
        λ f. record s { file = f; position = t.position; current = t.current } in
      (
        ap (λ f. next (copy (Stream.seek (Stream.pos f).0 s.file))) h
            ∙ (ap (λ f. next (copy f)) (seek-at bytes s.file p o.is_open o.contents o.opened fits)
                ∙ (next-at (copy (at bytes p)) bytes p refl ∙ sym (next-at t bytes p h))),
        ap (λ f. record t { file = (Stream.pos f).1 }) h ∙ ap (λ f. record t { file = f }) (sym h),
      )
