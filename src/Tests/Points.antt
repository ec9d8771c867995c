-- ===== src/Tests/Points.antt =====
-- The theorems on points, contexts and events at concrete inputs.
use rvnsyncpoint.Base.{ℕ, ◌≡◌, refl, ap, ◌↔◌, ◌⊎◌, true, false, if◌then◌else◌, arith}
use text.Mathlib.Text
use rvnsyncpoint.SyncPoint.Types.{vmx_exit_hlt, sync_point_type_to_string}
use rvnsyncpoint.SyncPoint.Types.Names.{sync_point_type_to_string-injective}
use rvnsyncpoint.Outcome.{ok}
use rvnsyncpoint.SyncPoint.{sync_point, from_v2, same_point, is_equivalent}
use rvnsyncpoint.SyncPoint.Equality.{
  with_uncompared, with_unchecked, same_point_iff, is_equivalent_iff,
}
use rvnsyncpoint.SyncEvent.{Context, context, sync_event, are_values_equivalent, check_sanity}
use rvnsyncpoint.SyncEvent.Values.{with_ignored, are_values_equivalent_iff}
use rvnsyncpoint.SyncEvent.Sanity.{IsSane, check_sanity_iff}
use rvnsyncpoint.Tests.Inputs.{zeros_v2}

same_point_iff_example :
    (same_point sync_point (from_v2 zeros_v2) ≡ true)
    ↔ (with_uncompared sync_point (from_v2 zeros_v2) ≡ from_v2 zeros_v2)
same_point_iff_example = same_point_iff sync_point (from_v2 zeros_v2)

is_equivalent_iff_example :
    (is_equivalent sync_point (from_v2 zeros_v2) ≡ true)
    ↔ (with_unchecked sync_point (from_v2 zeros_v2) ≡ from_v2 zeros_v2)
is_equivalent_iff_example = is_equivalent_iff sync_point (from_v2 zeros_v2)

abbrev stamped : Context
stamped = record context { tsc = 7 }

are_values_equivalent_iff_example :
    (are_values_equivalent context stamped ≡ true) ↔ (with_ignored context stamped ≡ stamped)
are_values_equivalent_iff_example = are_values_equivalent_iff context stamped

check_sanity_iff_example : (check_sanity sync_event ≡ ok tt) ↔ (
    (sync_event.is_first_event_context_unknown ≡ true)
    ⊎ ((sync_event.has_interrupt ≡ false) ⊎ IsSane sync_event))
check_sanity_iff_example = check_sanity_iff sync_event

hlt_named : ¬ (sync_point_type_to_string vmx_exit_hlt ≡ "Unknown")
unfolding sync_point_type_to_string
hlt_named e =
    let apart : ◌≡◌ {A = ℕ} 0 1 = ap (λ name. if Text.◌==◌ name "Unknown" then 1 else 0) e in
    omega (arith, apart)

sync_point_type_to_string-injective_example : vmx_exit_hlt ≡ 12
sync_point_type_to_string-injective_example =
    sync_point_type_to_string-injective vmx_exit_hlt 12 hlt_named refl
