-- ===== src/SyncFile/Fetch/Stops.antt =====
-- In a file of whole records `fetch_new_event` ends.
use rvnsyncpoint.Base.{
  ℕ, zero, suc, ◌+◌, ◌*◌, ◌^◌, ◌≤◌, ◌<◌, ◌≡◌, sym, ◌⊎◌, inl, inr, Bool, true, false, not, List,
  length, if-both, if◌then◌else◌, arith,
}
use mathlib.Core.Path.{subst}
use rvnsyncpoint.Outcome.{Outcome, ok, throws, crash, stuck}
use rvnsyncpoint.SyncPoint.{is_vmexit, valid}
use rvnsyncpoint.SyncFile.State.{SyncFile, Action, ◌>>=◌, ◌>>◌, pure, header_size}
use rvnsyncpoint.SyncFile.Points.{Stack, next}
use rvnsyncpoint.SyncFile.Points.Rounds.{stride}
use rvnsyncpoint.SyncFile.Points.Landing.{IsAt}
use rvnsyncpoint.SyncFile.Points.Next.{next-lands, next_at_end}
use rvnsyncpoint.SyncFile.Points.Whole.{next-past, left_over, not_valid}
use rvnsyncpoint.SyncFile.Fetch.{find_vmexit}

-- The call has ended, in a value or with an exception, and has left such a state.
unfoldable pub Stops : {A : Type 0} → (SyncFile → Type 0) → Outcome A × SyncFile → Type 0
Stops Q (ok a, s) = Q s
Stops Q (throws e, s) = Q s
Stops Q (crash, s) = ⊥
Stops Q (stuck, s) = ⊥

pub bind-Stops :
    {A B : Type 0} (P Q : SyncFile → Type 0) (m : Action A) (k : A → Action B) (s : SyncFile)
    → Stops P (m s)
    → ((t : SyncFile) → P t → Q t)
    → ((a : A) (t : SyncFile) → P t → Stops Q (k a t))
    → Stops Q ((m >>= k) s)
unfolding Stops
bind-Stops {A = A} {B = B} P Q m k s h w g = bind_result (m s) h
  where
    bind_result :
        (r : Outcome A × SyncFile)
        → Stops {A = A} P r
        → Stops {A = B} Q (elim r.0 as (λ _. Outcome B × SyncFile) [
          | ok a ↦ k a r.1
          | throws e ↦ (throws e, r.1)
          | crash ↦ (crash, r.1)
          | stuck ↦ (stuck, r.1)
        ])
    bind_result (ok a, t) p = g a t p
    bind_result (throws e, t) p = w t p
    bind_result (crash, t) p = p
    bind_result (stuck, t) p = p

pub ok_Stops :
    {A : Type 0} (Q : SyncFile → Type 0) (a : A) (r : Outcome A × SyncFile)
    → r.0 ≡ ok a
    → Q r.1
    → Stops Q r
ok_Stops Q a (r, s) e h = subst (λ r. Stops Q (r, s)) (sym e) (unfold Stops in h)

pub Stops-weaken :
    {A : Type 0} (P Q : SyncFile → Type 0) (r : Outcome A × SyncFile)
    → ((t : SyncFile) → P t → Q t)
    → Stops P r
    → Stops Q r
unfolding Stops
Stops-weaken P Q (ok a, s) w h = w s h
Stops-weaken P Q (throws e, s) w h = w s h
Stops-weaken P Q (crash, s) w h = h
Stops-weaken P Q (stuck, s) w h = h

module _ (stack : Stack) (bytes : List ℕ) (v rs rounds : ℕ) (framed : stride v rs ≡ rs)
    (fits : length bytes < 2 ^ 63) (enough : length bytes < rounds) where
  -- The reader is at a record, and `k` whole records are left, to the end of the file.
  abbrev pub HasLeft : ℕ → SyncFile → Type 0
  HasLeft k s = (n : ℕ) × IsAt bytes v rs n s × (length bytes ≡ header_size + rs * n + rs * k)

  -- It has met the end, and the point is not valid.
  abbrev pub IsOver : SyncFile → Type 0
  IsOver s = (s.file.eof ≡ true) × (valid s.current ≡ false)

  -- At most `j` records are left, and fewer than `j`.
  abbrev pub IsReady : ℕ → SyncFile → Type 0
  IsReady j s = ((k : ℕ) × (k ≤ j) × HasLeft k s) ⊎ IsOver s

  abbrev IsBelow : ℕ → SyncFile → Type 0
  IsBelow j s = ((k : ℕ) × (k < j) × HasLeft k s) ⊎ IsOver s

  IsReady-weaken : (i j : ℕ) (s : SyncFile) → i ≤ j → IsReady i s → IsReady j s
  IsReady-weaken i j s l (inl (k, m, h)) = inl (k, omega arith, h)
  IsReady-weaken i j s l (inr h) = inr h

  IsBelow-IsReady : (k j : ℕ) (s : SyncFile) → k ≤ j → IsBelow k s → IsReady j s
  IsBelow-IsReady k j s l (inl (i, m, h)) = inl (i, omega arith, h)
  IsBelow-IsReady k j s l (inr h) = inr h

  pub positive : 0 < rs
  positive = ground arith

  pub records_le : (j : ℕ) → j ≤ rs * j
  records_le j = grind (arith, positive)

  -- `next` leaves fewer records.
  next-IsBelow : (k : ℕ) (s : SyncFile) → HasLeft k s → Stops (IsBelow k) (next stack rounds s)
  next-IsBelow k s (n, h, l) =
      let lands = next-lands stack bytes v rs rounds n s framed fits enough h in
      let t : SyncFile = (next stack rounds s).1 in
      ok_Stops (IsBelow k) t.current (next stack rounds s) lands.0 (elim lands.1 [
        | inl (m, there) ↦
            let (i, l', fewer) =
              left_over rs header_size n k m (length bytes) positive l there.inside there.ahead in
            inl (i, fewer, (m, there.there, l'))
        | inr (ended, spent) ↦ inr (
          ended,
          not_valid t.current (
              next-past stack bytes v rs k rounds n s fits framed h l
                (omega (arith, records_le k, l)) ended),
        )
      ])

  next-leaves :
      (j : ℕ) (s : SyncFile)
      → IsReady j s
      → (k : ℕ) × (k ≤ j) × Stops (IsBelow k) (next stack rounds s)
  next-leaves j s (inl (k, l, h)) = (k, l, next-IsBelow k s h)
  next-leaves j s (inr h) = (
    0,
    omega arith,
    subst (Stops (IsBelow 0)) (sym (next_at_end stack rounds s h.0)) (unfold Stops in inr h),
  )

  -- The search for a VM exit, with more rounds than there are records.
  pub find_vmexit-Stops :
      (left j : ℕ) (s : SyncFile)
      → j < left
      → IsReady j s
      → Stops (IsReady j) (find_vmexit stack rounds left s)
  unfolding find_vmexit
  find_vmexit-Stops zero j s l h = absurd (omega arith)
  find_vmexit-Stops (suc left) j s l h =
      let rest : Action Bool = find_vmexit stack rounds left in
      let look : Action Bool = λ t. (if not (valid t.current) then pure false else rest) t in
      let (k, small, progress) = next-leaves j s h in
      if-both (λ m. Stops (IsReady j) (m s)) (is_vmexit s.current) (pure true)
        (next stack rounds >> look) (λ _. unfold Stops in h)
        (λ _.
          bind-Stops (IsBelow k) (IsReady j) (next stack rounds) (λ _. look) s progress
            (λ t. IsBelow-IsReady k j t small)
            (λ _ t b.
              if-both (λ m. Stops (IsReady j) (m t)) (not (valid t.current)) (pure false) rest
                (λ _. unfold Stops in IsBelow-IsReady k j t small b)
                (λ good. elim b [
                  | inl (i, fewer, there) ↦
                      Stops-weaken (IsReady i) (IsReady j) (rest t)
                        (λ u. IsReady-weaken i j u (omega arith))
                        (find_vmexit-Stops left i t (omega arith) (inl (i, omega arith, there)))
                  | inr over ↦ absurd (ground (arith, over.1, good))
                ])))

  -- What follows `next` starts with no more records left.
  pub next_then-Stops :
      {B : Type 0} (j : ℕ) (k : Action B) (s : SyncFile)
      → IsReady j s
      → ((t : SyncFile) → IsReady j t → Stops (IsReady j) (k t))
      → Stops (IsReady j) ((next stack rounds >> k) s)
  next_then-Stops j k s h g =
      let (i, small, progress) = next-leaves j s h in
      bind-Stops (IsReady j) (IsReady j) (next stack rounds) (λ _. k) s
        (Stops-weaken (IsBelow i) (IsReady j) (next stack rounds s)
          (λ t. IsBelow-IsReady i j t small) progress)
        (λ t p. p) (λ _ t p. g t p)
