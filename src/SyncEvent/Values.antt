-- ===== src/SyncEvent/Values.antt =====
-- What `are_values_equivalent` decides.
use rvnsyncpoint.Base.{ℕ, ◌≡◌, refl, ap, sym, ◌∙◌, ◌↔◌, true, List, [], ◌∷◌}
use rvnsyncpoint.SyncPoint.Equality.{all_from, all_from→eq, eq→all_from}
use rvnsyncpoint.SyncEvent.{Context, are_values_equivalent}

abbrev compared : Context → List ℕ
compared c =
    c.rax ∷ c.rbx ∷ c.rcx ∷ c.rdx ∷ c.rsi ∷ c.rdi ∷ c.rbp ∷ c.rsp ∷ c.r8 ∷ c.r9 ∷ c.r10 ∷ c.r11
    ∷ c.r12 ∷ c.r13 ∷ c.r14 ∷ c.r15 ∷ c.cr0 ∷ c.cr2 ∷ c.cr3 ∷ c.cr4 ∷ []

are_values_equivalent-row :
    (c d : Context) → are_values_equivalent c d ≡ all_from true (compared c) (compared d)
unfolding are_values_equivalent
are_values_equivalent-row c d = refl

-- The context `c` with the floating point registers and the time stamp of `d`.
abbrev pub with_ignored : Context → Context → Context
with_ignored c d = record c {
  fpu_sw = d.fpu_sw;
  fpu_cw = d.fpu_cw;
  fpu_tags = d.fpu_tags;
  tsc = d.tsc;
}

compared→eq : (c d : Context) → compared c ≡ compared d → with_ignored c d ≡ d
compared→eq c d h = cc

-- Two contexts are equivalent exactly when they differ at most in the floating point registers and
-- the time stamp.
pub are_values_equivalent_iff :
    (c d : Context) → (are_values_equivalent c d ≡ true) ↔ (with_ignored c d ≡ d)
are_values_equivalent_iff c d = (
  λ h.
      compared→eq c d
        (all_from→eq true (compared c) (compared d) tt (sym (are_values_equivalent-row c d) ∙ h)).1,
  λ e.
      are_values_equivalent-row c d
      ∙ (ap (λ r. all_from true (compared c) (compared r)) (sym e) ∙ eq→all_from (compared c)),
)
