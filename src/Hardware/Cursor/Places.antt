-- ===== src/Hardware/Cursor/Places.antt =====
-- The places of the cursor in a reader of the file, and what the calls make of them.
use rvnsyncpoint.Base.{
  append_nil, ℕ, zero, suc, ◌+◌, ◌^◌, ◌≤◌, ◌<◌, ◌≡◌, sym, ap, true, false, ◌∙◌, none, some, List,
  [], ◌∷◌, ◌++◌, length, get_elem?, All, length-append, arith,
}
use mathlib.Core.Path.{subst}
use rvnsyncpoint.Stream.Cursor.{at}
use rvnsyncpoint.Hardware.Access.{HardwareAccess, valid}
use rvnsyncpoint.Hardware.File.{HardwareFile, next, advance_to}
use rvnsyncpoint.Hardware.Layout.{then_access, then_access-append, then_access-longer}
use rvnsyncpoint.Hardware.Replay.{
  IsRecorded, IsOn, accesses_bytes, next-written, next-past, advance_to-returns,
}
use rvnsyncpoint.Hardware.Ends.{IsPast, next-ended, next-over, shown, shown-none, valid-recorded}
use rvnsyncpoint.Hardware.Cursor.{
  keep_mark, jump, Place, behind, past, displayed, forward, keep_index, back,
}

-- What is shown is valid.
shown-valid :
    (s : HardwareFile) (access : HardwareAccess) → shown s ≡ some access → valid s.current ≡ true
shown-valid s access h = ground (arith, h)

unshown-valid : (s : HardwareFile) → shown s ≡ none → valid s.current ≡ false
unshown-valid s h = ground (arith, h)

module _ (bytes : List ℕ) (accesses : List HardwareAccess) where
  -- The reader behind the bytes `before`, and `i` accesses, with the accesses `rest` before it.
  pub record IsBehind (i : ℕ) (before : List ℕ) (rest : List HardwareAccess) (s : HardwareFile)
      : Type 0 where
    pub contents : before ++ accesses_bytes rest ≡ bytes
    pub file : s.file ≡ at bytes (length before)
    pub position : s.position ≡ i
    pub inside : i ≤ length before
    pub recorded : All IsRecorded rest
    pub remaining : (j : ℕ) → get_elem? accesses (i + j) ≡ get_elem? rest j

  -- The reader and its place, and what it shows there.
  abbrev pub IsPlaced : Place → HardwareFile → Type 0
  IsPlaced (behind i) s =
      ((before : List ℕ) × (rest : List HardwareAccess) × IsBehind i before rest s)
      × (shown s ≡ displayed accesses (behind i))
  IsPlaced past s = IsPast bytes s × (shown s ≡ none)

  -- A mark brings every reader of the file to the access of its index.
  abbrev pub IsMark : ℕ × ℕ → ℕ → Type 0
  IsMark (file_position, position) i =
      (s : HardwareFile)
      → IsOn bytes s
      → IsPlaced (behind (suc i)) (advance_to file_position position s)

  abbrev pub AreMarks : List (ℕ × ℕ) → List ℕ → Type 0
  AreMarks [] [] = Unit
  AreMarks (mark ∷ marks) (i ∷ indices) = IsMark mark i × AreMarks marks indices
  AreMarks _ _ = ⊥

  placed-IsOn : (place : Place) (s : HardwareFile) → IsPlaced place s → IsOn bytes s
  placed-IsOn (behind i) s ((before, rest, h), _) = record {
    is_open = ap (λ f. f.in_file.is_open) h.file;
    contents = ap (λ f. f.in_file.bytes) h.file;
    opened = ap (λ f. f.opened) h.file;
  }
  placed-IsOn past s ((q, h), _) = record {
    is_open = ap (λ f. f.in_file.is_open) h;
    contents = ap (λ f. f.in_file.bytes) h;
    opened = ap (λ f. f.opened) h;
  }

  access_here :
      {i : ℕ} {before : List ℕ} {rest : List HardwareAccess} {s : HardwareFile}
      → IsBehind i before rest s
      → get_elem? accesses i ≡ get_elem? rest 0
  access_here {i = i} h =
      let same : i ≡ i + 0 = omega arith in ap (get_elem? accesses) same ∙ h.remaining 0

  -- Where the cursor goes, by the access that is there.
  forward-past : (i : ℕ) → get_elem? accesses i ≡ none → forward accesses (behind i) ≡ past
  forward-past i h = ap (λ o. elim o [ none ↦ past | some access ↦ behind (suc i) ]) h

  forward-behind :
      (i : ℕ) (access : HardwareAccess)
      → get_elem? accesses i ≡ some access
      → forward accesses (behind i) ≡ behind (suc i)
  forward-behind i access h = ap (λ o. elim o [ none ↦ past | some access ↦ behind (suc i) ]) h

  module _ (fits : length bytes < 2 ^ 63) where
    inside_file :
        (before : List ℕ) (rest : List HardwareAccess)
        → before ++ accesses_bytes rest ≡ bytes
        → length before ≤ length bytes
    inside_file before rest e =
        omega (arith, length-append before (accesses_bytes rest), ap length e)

    -- `next` before an access.
    next-IsPlaced :
        (i : ℕ) (before : List ℕ) (access : HardwareAccess) (rest : List HardwareAccess)
        (s : HardwareFile)
        → IsBehind i before (access ∷ rest) s
        → IsPlaced (behind (suc i)) (next s)
    next-IsPlaced i before access rest s h =
        let e =
          next-written s before (accesses_bytes rest) access
            (h.file ∙ ap (λ l. at l (length before)) (sym h.contents)) h.recorded.0.0 in
        let before' : List ℕ = then_access before access in
        let whole : before' ++ accesses_bytes rest ≡ bytes =
          then_access-append before (accesses_bytes rest) access ∙ h.contents in
        (
          (
            before',
            rest,
            record {
              contents = whole;
              file = ap (λ t. t.file) e ∙ ap (λ l. at l (length before')) whole;
              position =
                  ap (λ t. t.position) e
                  ∙ omega
                      (arith, h.position, h.inside, inside_file before (access ∷ rest) h.contents);
              inside = omega (arith, h.inside, then_access-longer before access);
              recorded = h.recorded.1;
              remaining = λ j. ap (get_elem? accesses) (omega arith) ∙ h.remaining (suc j);
            },
          ),
          ap shown e ∙ (rw (valid-recorded access h.recorded.0) (sym (access_here h))),
        )

    next-IsMark :
        (i : ℕ) (before : List ℕ) (rest : List HardwareAccess) (s : HardwareFile)
        → IsBehind i before rest s
        → IsPlaced (behind (suc i)) (next s)
        → IsMark ((next s).last_read_position, (next s).position) i
    next-IsMark i before rest s h placed t on =
        let inside = inside_file before rest h.contents in
        subst (IsPlaced (behind (suc i)))
          (sym (
            advance_to-returns bytes (length before) t s h.file (omega (arith, inside))
              (omega (arith, h.position, h.inside, inside)) on))
          placed

    next-IsPast :
        (i : ℕ) (before : List ℕ) (s : HardwareFile)
        → IsBehind i before [] s
        → IsPlaced past (next s)
    next-IsPast i before s h =
        let e : s.file ≡ at bytes (length bytes) =
          h.file ∙ ap (λ l. at bytes (length l)) (sym (append_nil before) ∙ h.contents) in
        (next-ended s bytes e, shown-none (next s) (next-past s bytes e))

    -- A call of `next`, from every place, and the mark that is kept behind it.
    pub next-forward :
        (place : Place) (s : HardwareFile)
        → IsPlaced place s
        → IsPlaced (forward accesses place) (next s)
    next-forward (behind i) s ((before, [], h), _) =
        subst (λ p. IsPlaced p (next s)) (sym (forward-past i (access_here h)))
          (next-IsPast i before s h)
    next-forward (behind i) s ((before, access ∷ rest, h), _) =
        subst (λ p. IsPlaced p (next s)) (sym (forward-behind i access (access_here h)))
          (next-IsPlaced i before access rest s h)
    next-forward past s (over, _) =
        let (still, z) = next-over s bytes over in (still, shown-none (next s) z)

    pub next-AreMarks :
        (place : Place) (s : HardwareFile) (marks : List (ℕ × ℕ)) (indices : List ℕ)
        → IsPlaced place s
        → AreMarks marks indices
        → AreMarks (keep_mark (next s) marks) (keep_index accesses (forward accesses place) indices)
    next-AreMarks (behind i) s marks indices ((before, [], h), _) m =
        subst (λ p. AreMarks (keep_mark (next s) marks) (keep_index accesses p indices))
          (sym (forward-past i (access_here h)))
          (rw (unshown-valid (next s) (next-IsPast i before s h).1) m)
    next-AreMarks (behind i) s marks indices ((before, access ∷ rest, h), _) m =
        let placed = next-IsPlaced i before access rest s h in
        subst (λ p. AreMarks (keep_mark (next s) marks) (keep_index accesses p indices))
          (sym (forward-behind i access (access_here h)))
          (rw (shown-valid (next s) access (placed.1 ∙ access_here h))
            (next-IsMark i before (access ∷ rest) s h placed, m))
    next-AreMarks past s marks indices (over, _) m =
        rw (unshown-valid (next s) (shown-none (next s) (next-over s bytes over).1)) m

  pub jump-IsPlaced :
      (k : ℕ) (marks : List (ℕ × ℕ)) (indices : List ℕ) (place : Place) (s : HardwareFile)
      → AreMarks marks indices
      → IsPlaced place s
      → IsPlaced (back accesses (get_elem? indices k) place) (jump (get_elem? marks k) s)
  jump-IsPlaced k [] [] place s m h = h
  jump-IsPlaced zero (mark ∷ marks) (i ∷ indices) place s m h = m.0 s (placed-IsOn place s h)
  jump-IsPlaced (suc k) (mark ∷ marks) (i ∷ indices) place s m h =
      jump-IsPlaced k marks indices place s m.1 h
  jump-IsPlaced k [] (i ∷ indices) place s m h = absurd m
  jump-IsPlaced k (mark ∷ marks) [] place s m h = absurd m

  pub placed-shown :
      (place : Place) (s : HardwareFile) → IsPlaced place s → shown s ≡ displayed accesses place
  placed-shown (behind i) s h = h.1
  placed-shown past s h = h.1
