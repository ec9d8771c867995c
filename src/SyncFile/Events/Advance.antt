-- ===== src/SyncFile/Events/Advance.antt =====
-- Where `advance_to` leaves the reader, in an open file of records with time stamps.
use rvnsyncpoint.Base.{
  ℕ, zero, suc, ◌+◌, ◌-◌, ◌*◌, ◌%◌, ◌^◌, ◌≤◌, ◌<◌, ◌≡◌, ◌≢◌, refl, ap, ◌∙◌, ◌⊎◌, inl, inr, true,
  false, not, ◌&&◌, ltb, ◌==◌, List, length, Bool-cases, if◌then◌else◌, arith,
}
use mathlib.Core.Path.{subst}
use rvnsyncpoint.Outcome.{ok}
use rvnsyncpoint.Stream.Cursor.{value_at}
use rvnsyncpoint.SyncPoint.{is_vmenter, is_vmexit}
use rvnsyncpoint.SyncPoint.Types.{vmenter}
use rvnsyncpoint.SyncFile.State.{SyncFile, Action, ◌>>◌, pure, bind-ok, header_size, u64_mod}
use rvnsyncpoint.SyncFile.Points.{Stack}
use rvnsyncpoint.SyncFile.Points.Rounds.{stride}
use rvnsyncpoint.SyncFile.Points.Landing.{IsAt, Shows}
use rvnsyncpoint.SyncFile.Seek.{seek}
use rvnsyncpoint.SyncFile.Seek.Landing.{IsOpen, seek-lands}
use rvnsyncpoint.SyncFile.Events.Kinds.{
  kind_at, is_exit_at, Shows-is_vmexit, Shows-is_vmenter, IsAt-IsOpen,
}
use rvnsyncpoint.SyncFile.Events.{back_to_vmexit, advance_to, current_event}

-- The record `i` is a VM exit, or the first one, and those behind it up to `k` are no VM exits.
abbrev pub IsExitOf : List ℕ → ℕ → ℕ → ℕ → Type 0
IsExitOf bytes rs i k =
    ((is_exit_at bytes (header_size + rs * i) ≡ true) ⊎ (i ≡ 0))
    × ((j : ℕ) → i < j → j ≤ k → is_exit_at bytes (header_size + rs * j) ≡ false)

module _ (stack : Stack) (bytes : List ℕ) (v rs rounds i : ℕ) (framed : stride v rs ≡ rs)
    (fits : length bytes < 2 ^ 63) where
  le_record : (n : ℕ) → n ≤ rs * n
  le_record n = grind (arith, positive)
    where
      positive : 0 < rs
      positive = ground arith

  -- At the record `k`.
  abbrev Stands : ℕ → SyncFile → Type 0
  Stands k s = IsAt bytes v rs (suc k) s × Shows bytes v (header_size + rs * k) s.current

  -- Before the record `suc m`.
  earlier : (m : ℕ) → header_size + rs * suc m ≤ length bytes → header_size + rs * m ≤ length bytes
  earlier m h = grind arith

  stop_back :
      (left : ℕ) (s : SyncFile)
      → Stands i s
      → (is_exit_at bytes (header_size + rs * i) ≡ true) ⊎ (i ≡ 0)
      → back_to_vmexit stack (suc rounds) (suc left) (suc i) s ≡ (ok tt, s)
  unfolding back_to_vmexit
  stop_back left s (h, shows) exit =
      let back : ℕ = (suc i + u64_mod - 1) % u64_mod in
      let rest : Action (Unit {0}) = back_to_vmexit stack (suc rounds) left back in
      ap (λ b. (if b then (seek stack (suc rounds) back >> rest) else pure tt) s) (stops exit)
    where
      stops :
          (is_exit_at bytes (header_size + rs * i) ≡ true) ⊎ (i ≡ 0)
          → not (is_vmexit s.current) && ltb 1 s.position ≡ false
      stops (inl e) = rw (Shows-is_vmexit bytes v _ s.current shows ∙ e) refl
      stops (inr e) =
          let first : ltb 1 s.position ≡ false = ground (arith, h.position) in ground (arith, first)

  step_back :
      (left m : ℕ) (s : SyncFile)
      → is_exit_at bytes (header_size + rs * suc m) ≡ false
      → Stands (suc m) s
      → header_size + rs * suc (suc m) ≤ length bytes
      → value_at bytes (header_size + rs * m) 8 ≢ 0
      → (t : SyncFile) × (back_to_vmexit stack (suc rounds) (suc left) (suc (suc m)) s
          ≡ back_to_vmexit stack (suc rounds) left (suc m) t)
        × Stands m t
  unfolding back_to_vmexit
  step_back left m s other (h, shows) inside stamped =
      let below : suc (suc m) < 2 ^ 63 = omega (arith, le_record (suc (suc m))) in
      let e : (suc (suc m) + u64_mod - 1) % u64_mod ≡ suc m = omega arith in
      let rest : ℕ → Action (Unit {0}) = back_to_vmexit stack (suc rounds) left in
      let go : ℕ → Action (Unit {0}) = λ back. seek stack (suc rounds) back >> rest back in
      let later : ltb 1 s.position ≡ true = ground (arith, h.position) in
      let on : not (is_vmexit s.current) && ltb 1 s.position ≡ true =
        rw (Shows-is_vmexit bytes v _ s.current shows ∙ other, later) refl in
      let (t, sought, there, shown, _) =
        seek-lands stack bytes v rs rounds m s framed fits
          (IsAt-IsOpen bytes v rs (suc (suc m)) s h) (earlier (suc m) inside) stamped in
      (
        t,
        ap (λ b. (if b then go ((suc (suc m) + u64_mod - 1) % u64_mod) else pure tt) s) on
            ∙ (ap (λ back. go back s) e
                ∙ bind-ok (seek stack (suc rounds) (suc m)) (λ _. rest (suc m)) s tt t sought),
        (there, shown),
      )

  -- The loop that goes back, from the record `k`, which is `d` records behind `i`.
  go_back :
      (d left k : ℕ) (s : SyncFile)
      → k ≡ i + d
      → d < left
      → header_size + rs * suc k ≤ length bytes
      → ((j : ℕ) → i ≤ j → j ≤ k → value_at bytes (header_size + rs * j) 8 ≢ 0)
      → IsExitOf bytes rs i k
      → Stands k s
      → (u : SyncFile) × (back_to_vmexit stack (suc rounds) left (suc k) s ≡ (ok tt, u))
        × Stands i u
  go_back d zero k s e l inside stamped exit there = absurd (omega arith)
  go_back zero (suc left) k s e l inside stamped exit there =
      let same : k ≡ i = omega arith in
      let here : Stands i s = subst (λ n. Stands n s) same there in
      (
        s,
        ap (λ n. back_to_vmexit stack (suc rounds) (suc left) (suc n) s) same
            ∙ stop_back left s here exit.0,
        here,
      )
  go_back (suc d) (suc left) zero s e l inside stamped exit there = absurd (omega arith)
  go_back (suc d) (suc left) (suc m) s e l inside stamped exit there =
      let (t, step, h) =
        step_back left m s (exit.1 (suc m) (omega arith) (omega arith)) there inside
          (stamped m (omega arith) (omega arith)) in
      let (u, f, landed) =
        go_back d left m t (omega arith) (omega arith) (earlier (suc m) inside)
          (λ j lo hi. stamped j lo (omega arith)) (exit.0, λ j lo hi. exit.1 j lo (omega arith))
          h in
      (u, step ∙ f, landed)

-- In an open file of records that are as long as the header says, which all have a time stamp from
-- the record `i` on up to the whole record `k`, where the reader stands behind the record `k`: the
-- loop that goes back returns behind the record `i`, the last VM exit up to `k`, or the first record
-- if there is none; it needs one round more than there are records between them.
pub back_to_vmexit-lands :
    (stack : Stack) (bytes : List ℕ) (v rs rounds left i k : ℕ) (s : SyncFile)
    → stride v rs ≡ rs
    → length bytes < 2 ^ 63
    → header_size + rs * suc k ≤ length bytes
    → ((j : ℕ) → i ≤ j → j ≤ k → value_at bytes (header_size + rs * j) 8 ≢ 0)
    → IsExitOf bytes rs i k
    → i ≤ k
    → k < i + left
    → IsAt bytes v rs (suc k) s
    → Shows bytes v (header_size + rs * k) s.current
    → (u : SyncFile) × (back_to_vmexit stack (suc rounds) left (suc k) s ≡ (ok tt, u))
      × IsAt bytes v rs (suc i) u
      × Shows bytes v (header_size + rs * i) u.current
back_to_vmexit-lands stack bytes v rs rounds left i k s framed fits inside stamped exit order enough
      there shows =
    let (u, gone, landed) =
      go_back stack bytes v rs rounds i framed fits (k - i) left k s (omega arith) (omega arith)
        inside stamped exit (there, shows) in
    (u, gone, landed.0, landed.1)

-- In such an open file, whatever the state of the stream and the position, `advance_to` to the
-- position behind the record `k`, as far as it can: where that record is no VM entry, it returns
-- there, and the current point is what the record holds; where it is one, the call is
-- `current_event` from behind the record `i`, the last VM exit up to `k`, or the first record if
-- there is none.
pub advance_to-lands :
    (stack : Stack) (bytes : List ℕ) (v rs rounds i k : ℕ) (s : SyncFile)
    → stride v rs ≡ rs
    → length bytes < 2 ^ 63
    → header_size + rs * suc k ≤ length bytes
    → ((j : ℕ) → i ≤ j → j ≤ k → value_at bytes (header_size + rs * j) 8 ≢ 0)
    → IsExitOf bytes rs i k
    → i ≤ k
    → k ≤ i + rounds
    → IsOpen bytes v rs s
    → (((kind_at bytes (header_size + rs * k) == vmenter) ≡ false)
        × ((t : SyncFile) × (advance_to stack (suc rounds) (suc k) s ≡ (ok tt, t))
            × IsAt bytes v rs (suc k) t
            × Shows bytes v (header_size + rs * k) t.current))
      ⊎ (((kind_at bytes (header_size + rs * k) == vmenter) ≡ true)
          × ((u : SyncFile) × (advance_to stack (suc rounds) (suc k) s
                ≡ (current_event stack (suc rounds) >> pure tt) u)
              × IsAt bytes v rs (suc i) u
              × Shows bytes v (header_size + rs * i) u.current))
unfolding advance_to
advance_to-lands stack bytes v rs rounds i k s framed fits inside stamped exit order enough h =
    let keep : Action (Unit {0}) = current_event stack (suc rounds) >> pure tt in
    let back : Action (Unit {0}) = back_to_vmexit stack (suc rounds) (suc rounds) (suc k) in
    let arrive : Action (Unit {0}) =
      λ t. (if not (is_vmenter t.current) then pure tt else (back >> keep)) t in
    let (t, sought, there, shows, _) =
      seek-lands stack bytes v rs rounds k s framed fits h inside (stamped k order (omega arith)) in
    let nonzero : (suc k == 0) ≡ false = ground arith in
    let moved : advance_to stack (suc rounds) (suc k) s ≡ arrive t =
      bind-ok (seek stack (suc rounds) (suc k)) (λ _. if suc k == 0 then pure tt else arrive) s tt t
        sought
      ∙ ap (λ b. (if b then pure tt else arrive) t) nonzero in
    let kind = Shows-is_vmenter bytes v (header_size + rs * k) t.current shows in
    elim (Bool-cases (kind_at bytes (header_size + rs * k) == vmenter)) [
      | inr none ↦ inl (
        none,
        (
          t,
          moved ∙ ap (λ b. (if not b then pure tt else (back >> keep)) t) (kind ∙ none),
          there,
          shows,
        ),
      )
      | inl enters ↦
          let (u, gone, at_exit, exit_shows) =
            back_to_vmexit-lands stack bytes v rs rounds (suc rounds) i k t framed fits inside
              stamped exit order (omega arith) there shows in
          inr (
            enters,
            (
              u,
              moved
                  ∙ (ap (λ b. (if not b then pure tt else (back >> keep)) t) (kind ∙ enters)
                      ∙ bind-ok back (λ _. keep) t tt u gone),
              at_exit,
              exit_shows,
            ),
          )
    ]
