-- ===== src/SyncFile/Entry/Layout/Ends.antt =====
-- What `read_v2` and `read_v3` read where the file ends within the record, or where the stream has
-- failed.
use rvnsyncpoint.Base.{
  ℕ, ◌+◌, ◌≡◌, refl, ap, ◌∙◌, List, length, arith, ◌<◌, sym, replicate, ◌++◌, zero, suc,
}
use rvnsyncpoint.Stream.{StreamableFile, read_uint}
use rvnsyncpoint.Stream.Cursor.{at, at_end, failed}
use rvnsyncpoint.Stream.Fields.{
  read_fields, read_fields-append, read_fields-past, read_fields-failed, read_fields-short_from,
  total-append, total-replicate_one, All-append_ones,
}
use rvnsyncpoint.SyncPoint.{SyncPoint, SyncPointV2}
use rvnsyncpoint.SyncFile.Entry.{Entry, read_v2, read_v3, skip, padding_size}
use rvnsyncpoint.SyncFile.Entry.Layout.{
  widths_v2, widths_v3, build_v2, build_v3, read_v2-row, read_v3-row,
}

-- A record of zeros.
abbrev pub zero_entry : SyncPoint → Entry SyncPoint
zero_entry current = record {
  point = record current {
    tsc = 0;
    cs = 0;
    rax = 0;
    rbx = 0;
    rcx = 0;
    rdx = 0;
    rsi = 0;
    rdi = 0;
    rbp = 0;
    rsp = 0;
    r8 = 0;
    r9 = 0;
    r10 = 0;
    r11 = 0;
    r12 = 0;
    r13 = 0;
    r14 = 0;
    r15 = 0;
    rip = 0;
    rflags = 0;
    cr0 = 0;
    cr2 = 0;
    cr3 = 0;
    cr4 = 0;
    fpu_sw = 0;
    fpu_cw = 0;
    fpu_tags = 0;
    fault_error_code = 0;
  };
  type = 0;
  data_offset = 0;
}

-- So as a 32-bit one.
abbrev pub zero_entry_v2 : SyncPointV2 → Entry SyncPointV2
zero_entry_v2 old_sp = record {
  point = record old_sp {
    tsc = 0;
    cs = 0;
    eax = 0;
    ebx = 0;
    ecx = 0;
    edx = 0;
    esi = 0;
    edi = 0;
    ebp = 0;
    esp = 0;
    eip = 0;
    eflags = 0;
    cr0 = 0;
    cr2 = 0;
    cr3 = 0;
    cr4 = 0;
    fpu_sw = 0;
    fpu_cw = 0;
    fpu_tags = 0;
    fault_error_code = 0;
  };
  type = 0;
  data_offset = 0;
}

skip-row : (n : ℕ) (f : StreamableFile) → (skip n f).1 ≡ (read_fields (replicate n 1) f).1
unfolding skip
skip-row zero f = refl
skip-row (suc n) f = skip-row n (read_uint 1 f).1

-- A record that the file does not hold whole leaves the stream at its end.
pub read_v2-short :
    (old_sp : SyncPointV2) (bytes : List ℕ) (p : ℕ)
    → length bytes < p + 80
    → (q : ℕ) × ((read_v2 old_sp (at bytes p)).1 ≡ at_end bytes q)
read_v2-short old_sp bytes p h =
    let (q, e) = read_fields-short_from widths_v2 bytes p (omega arith) (omega arith) h in
    (q, ap (λ r. r.1) (read_v2-row old_sp (at bytes p)) ∙ e)

pub read_v3-short :
    (record_size : ℕ) (current : SyncPoint) (bytes : List ℕ) (p : ℕ)
    → length bytes < p + 201 + padding_size record_size
    → (q : ℕ) × ((read_v3 record_size current (at bytes p)).1 ≡ at_end bytes q)
read_v3-short record_size current bytes p h =
    let n : ℕ = padding_size record_size in
    let (q, e) =
      read_fields-short_from (widths_v3 ++ replicate n 1) bytes p (omega arith)
        (All-append_ones widths_v3 n (omega arith))
        (omega (arith, total-append widths_v3 (replicate n 1), total-replicate_one n)) in
    (
      q,
      ap (λ r. r.1) (read_v3-row record_size current (at bytes p))
          ∙ (skip-row n _ ∙ (sym (read_fields-append widths_v3 (replicate n 1) (at bytes p)) ∙ e)),
    )

pub skip-failed : (n : ℕ) (bytes : List ℕ) (p : ℕ) → (skip n (failed bytes p)).1 ≡ failed bytes p
skip-failed n bytes p =
    skip-row n (failed bytes p) ∙ ap (λ r. r.1) (read_fields-failed (replicate n 1) bytes p)

-- After a refused seek a 64-bit record reads as zeros.
pub read_v3-failed :
    (record_size : ℕ) (current : SyncPoint) (bytes : List ℕ) (p : ℕ)
    → read_v3 record_size current (failed bytes p) ≡ (zero_entry current, failed bytes p)
unfolding build_v3
read_v3-failed record_size current bytes p =
    read_v3-row record_size current (failed bytes p)
    ∙ (ap (λ r. (build_v3 current r.0, (skip (padding_size record_size) r.1).1))
          (read_fields-failed widths_v3 bytes p)
        ∙ ap (λ f. (zero_entry current, f)) (skip-failed (padding_size record_size) bytes p))

-- At the end of the file a record reads as zeros.
pub read_v2-past :
    (old_sp : SyncPointV2) (bytes : List ℕ)
    → (read_v2 old_sp (at bytes (length bytes))).0 ≡ zero_entry_v2 old_sp
unfolding build_v2
read_v2-past old_sp bytes =
    ap (λ r. r.0) (read_v2-row old_sp (at bytes (length bytes)))
    ∙ ap (build_v2 old_sp) (read_fields-past widths_v2 bytes (omega arith))

pub read_v3-past :
    (record_size : ℕ) (current : SyncPoint) (bytes : List ℕ)
    → (read_v3 record_size current (at bytes (length bytes))).0 ≡ zero_entry current
unfolding build_v3
read_v3-past record_size current bytes =
    ap (λ r. r.0) (read_v3-row record_size current (at bytes (length bytes)))
    ∙ ap (build_v3 current) (read_fields-past widths_v3 bytes (omega arith))
