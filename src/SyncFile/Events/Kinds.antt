-- ===== src/SyncFile/Events/Kinds.antt =====
-- The kinds of the points that the records of a file hold.
use rvnsyncpoint.Base.{ℕ, ◌+◌, ◌≡◌, ap, ◌∙◌, Bool, not, ◌&&◌, ◌==◌, List, if◌then◌else◌, arith}
use Prim.Native.Nat.{bit_and}
use rvnsyncpoint.Stream.Cursor.{value_at}
use rvnsyncpoint.SyncPoint.{SyncPoint, is_interrupt, is_vmenter, is_vmexit}
use rvnsyncpoint.SyncPoint.Types.{interrupt, vmenter}
use rvnsyncpoint.SyncFile.State.{SyncFile}
use rvnsyncpoint.SyncFile.Entry.{set_type, is_irq, irq_mask}
use rvnsyncpoint.SyncFile.Points.Landing.{IsAt, Shows}
use rvnsyncpoint.SyncFile.Seek.Landing.{IsOpen}

-- The kind of the point that the record at the offset `p` holds.
abbrev pub kind_at : List ℕ → ℕ → ℕ
kind_at bytes p =
    let type : ℕ = value_at bytes (p + 8) 2 in
    if not (bit_and type is_irq == 0) then interrupt else bit_and type irq_mask

abbrev pub is_exit_at : List ℕ → ℕ → Bool
is_exit_at bytes p = not (kind_at bytes p == interrupt) && not (kind_at bytes p == vmenter)

set_type-type :
    (type : ℕ) (p : SyncPoint)
    → (set_type type p).type
      ≡ (if not (bit_and type is_irq == 0) then interrupt else bit_and type irq_mask)
unfolding set_type
set_type-type type p = ground arith

module _ (bytes : List ℕ) (v p : ℕ) (c : SyncPoint) (h : Shows bytes v p c) where
  Shows-type : c.type ≡ kind_at bytes p
  Shows-type = shown_type h
    where
      shown_type : Shows bytes v p c → c.type ≡ kind_at bytes p
      shown_type (Shows.old _ old_sp e) = ap (λ r. r.type) e ∙ set_type-type _ _
      shown_type (Shows.recent _ base e) = ap (λ r. r.type) e ∙ set_type-type _ _

  pub Shows-is_vmexit : is_vmexit c ≡ is_exit_at bytes p
  unfolding is_vmexit is_interrupt is_vmenter
  Shows-is_vmexit = ap (λ t. not (t == interrupt) && not (t == vmenter)) Shows-type

  pub Shows-is_vmenter : is_vmenter c ≡ (kind_at bytes p == vmenter)
  unfolding is_vmenter
  Shows-is_vmenter = ap (λ t. t == vmenter) Shows-type

pub IsAt-IsOpen :
    (bytes : List ℕ) (v rs n : ℕ) (s : SyncFile) → IsAt bytes v rs n s → IsOpen bytes v rs s
IsAt-IsOpen bytes v rs n s h = record {
  version = h.version;
  size = h.size;
  contents = ap (λ f. f.in_file.bytes) h.place;
  is_open = ap (λ f. f.in_file.is_open) h.place;
  opened = ap (λ f. f.opened) h.place;
}
