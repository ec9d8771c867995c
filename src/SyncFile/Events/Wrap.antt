-- ===== src/SyncFile/Events/Wrap.antt =====
-- What `current_event` does when no event follows one without effect: it seeks to the position
-- before 0.
use rvnsyncpoint.Base.{
  ℕ, suc, ◌+◌, ◌-◌, ◌*◌, ◌%◌, ◌≤◌, ◌<◌, ◌==◌, ◌^◌, ◌≡◌, refl, ap, ◌∙◌, true, false, not,
  if◌then◌else◌, List, length, arith,
}
use rvnsyncpoint.Outcome.{ok}
use rvnsyncpoint.Stream
use rvnsyncpoint.Stream.Cursor.{at, seek-at}
use rvnsyncpoint.SyncEvent.{SyncEvent, sync_event}
use rvnsyncpoint.SyncFile.State.{SyncFile, Action, ◌>>=◌, ◌>>◌, pure, header_size, u64_mod, bind-ok}
use rvnsyncpoint.SyncFile.Points.{Stack, read_point}
use rvnsyncpoint.SyncFile.Points.Rounds.{
  stride, read_point-file, read_point-position, read_point-at_end,
}
use rvnsyncpoint.SyncFile.Points.Landing.{IsAt}
use rvnsyncpoint.SyncFile.Seek.{seek, place, offset_of}
use rvnsyncpoint.SyncFile.Seek.Landing.{IsOpen}
use rvnsyncpoint.SyncFile.Fetch.{fetch_new_event}
use rvnsyncpoint.SyncFile.Events.Blank.{fetch_new_event-none}
use rvnsyncpoint.SyncPoint.{is_vmexit}
use rvnsyncpoint.SyncFile.Events.{is_mergeable, is_repeated, merge_events}

-- The largest position.
abbrev pub before_zero : ℕ
before_zero = u64_mod - 1

-- The loop seeks to the largest position, since the position 0 of the default event is decremented.
merge_events-unfollowed :
    (stack : Stack) (rounds left : ℕ) (event : SyncEvent) (s s' : SyncFile)
    → is_mergeable event ≡ true
    → fetch_new_event stack rounds s ≡ (ok sync_event, s')
    → is_repeated event sync_event ≡ false
    → merge_events stack rounds (suc left) event s
      ≡ (seek stack rounds before_zero >> pure event) s'
unfolding merge_events sync_event
merge_events-unfollowed stack rounds left event s s' m e r =
    let step : SyncEvent → Action SyncEvent = λ event_next.
      if is_repeated event event_next
      then merge_events stack rounds left
          (record event_next { start_context = event.start_context })
      else seek stack rounds ((event_next.position + u64_mod - 1) % u64_mod) >> pure event in
    ap (λ b. (if not b then pure event else (fetch_new_event stack rounds >>= step)) s) m
    ∙ (bind-ok (fetch_new_event stack rounds) step s sync_event s' e
        ∙ ap
            (λ b.
              (if b
                  then merge_events stack rounds left
                      (record sync_event { start_context = event.start_context })
                  else (seek stack rounds before_zero >> pure event))
                s')
            r)

module _ (stack : Stack) (bytes : List ℕ) (v rs : ℕ) (s : SyncFile) where
  -- That seek goes into the header, two records before the first one.
  place-before_zero :
      IsOpen bytes v rs s
      → 0 < rs
      → rs ≤ 512
      → (place before_zero s).file ≡ at bytes (header_size - 2 * rs)
  unfolding place
  place-before_zero h pos small =
      ap (λ n. Stream.seek n s.file)
        (ap (λ size. offset_of size (before_zero - 1)) h.size ∙ omega arith)
      ∙ seek-at bytes s.file (header_size - 2 * rs) h.is_open h.contents h.opened (omega arith)

  -- From there two rounds of reading bring the reader to the first record, at the position 0.
  before_zero-rewinds :
      IsOpen bytes v rs s
      → stride v rs ≡ rs
      → rs ≤ 512
      → header_size ≤ length bytes
      → IsAt bytes v rs 0 (read_point stack (read_point stack (place before_zero s)))
  before_zero-rewinds h framed small long =
      let s1 = place before_zero s in
      let s2 = read_point stack s1 in
      let e1 : stride s1.version s1.record_size ≡ rs =
        unfold place in rw (h.version, h.size) framed in
      let e2 : stride s2.version s2.record_size ≡ rs = unfold read_point in e1 in
      let wide : 80 ≤ stride v rs = ground arith in
      let f1 = place-before_zero h (omega arith) small in
      let f2 : s2.file ≡ at bytes (header_size - rs) =
        read_point-file stack s1 bytes (header_size - 2 * rs) f1 (omega arith)
        ∙ ap (at bytes) (omega arith) in
      let p2 : s2.position ≡ before_zero =
        read_point-position stack s1 bytes (header_size - 2 * rs) f1 (omega arith)
        ∙ unfold place in refl in
      record {
        version = unfold read_point place in h.version;
        size = unfold read_point place in h.size;
        place =
            read_point-file stack s2 bytes (header_size - rs) f2 (omega arith)
            ∙ ap (at bytes) (omega arith);
        position =
            read_point-position stack s2 bytes (header_size - rs) f2 (omega arith)
            ∙ ap (λ n. (n + 1) % u64_mod) p2;
      }

-- The event does not start at the address 0, so the default event does not repeat it.
default_unrepeated :
    (event : SyncEvent) → (event.start_rip == 0) ≡ false → is_repeated event sync_event ≡ false
unfolding is_repeated sync_event
default_unrepeated event h = ground arith

-- A read for which the bytes do not suffice leaves the file open.
read_point-IsOpen :
    (stack : Stack) (bytes : List ℕ) (v rs n : ℕ) (s : SyncFile)
    → stride v rs ≡ rs
    → IsAt bytes v rs n s
    → length bytes < header_size + rs * n + rs
    → IsOpen bytes v rs (read_point stack s)
read_point-IsOpen stack bytes v rs n s framed h short =
    let same : stride s.version s.record_size ≡ rs = rw (h.version, h.size) framed in
    let (q, e) =
      read_point-at_end stack s bytes (header_size + rs * n) h.place (omega (arith, same)) in
    record {
      version = unfold read_point in h.version;
      size = unfold read_point in h.size;
      contents = ap (λ f. f.in_file.bytes) e;
      is_open = ap (λ f. f.in_file.is_open) e;
      opened = ap (λ f. f.opened) e;
    }

-- At the last record of a file of whole records of at most 512 bytes, which is not the first one,
-- is no VM exit and has no event kept, the loop that combines events returns an event without
-- effect that does not start at the address 0 after a seek to the largest position. At the place of
-- that position two rounds of reading bring the reader to the first record again, at the position
-- 0.
pub merge_events-rewinds :
    (stack : Stack) (bytes : List ℕ) (v rs rounds left n : ℕ) (event : SyncEvent) (s : SyncFile)
    → stride v rs ≡ rs
    → rs ≤ 512
    → length bytes < 2 ^ 63
    → IsAt bytes v rs n s
    → length bytes ≡ header_size + rs * n
    → (n == 1) ≡ false
    → is_vmexit s.current ≡ false
    → s.current_event.is_valid ≡ false
    → is_mergeable event ≡ true
    → (event.start_rip == 0) ≡ false
    → (let s' : SyncFile = read_point stack s in
        (merge_events stack (suc rounds) (suc left) event s
          ≡ (seek stack (suc rounds) before_zero >> pure event) s')
        × IsAt bytes v rs 0 (read_point stack (read_point stack (place before_zero s'))))
merge_events-rewinds stack bytes v rs rounds left n event s framed small fits h l behind other
      no_event m started =
    let wide : 80 ≤ rs = ground arith in
    let (fetched, _) =
      fetch_new_event-none stack bytes v rs rounds n s framed fits h l behind other no_event in
    (
      merge_events-unfollowed stack (suc rounds) left event s (read_point stack s) m fetched
          (default_unrepeated event started),
      before_zero-rewinds stack bytes v rs (read_point stack s)
          (read_point-IsOpen stack bytes v rs n s framed h (omega arith)) framed small
          (omega (arith, l)),
    )
