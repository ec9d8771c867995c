-- ===== src/Dump/Endless.antt =====
-- The loop of the tools at the end of the file: `next` returns the current point again.
use rvnsyncpoint.Base.{
  ℕ, zero, suc, ◌≡◌, ap, sym, replicate, append_nil, append_assoc, ◌∙◌, true, List, [], ◌∷◌, ◌++◌,
}
use rvnsyncpoint.Outcome.{stuck, ok}
use rvnsyncpoint.SyncPoint.{valid}
use rvnsyncpoint.SyncFile.State.{SyncFile}
use rvnsyncpoint.SyncFile.Points.{Stack}
use rvnsyncpoint.SyncFile.Points.Next.{next_at_end}
use rvnsyncpoint.Dump.{Line, Run, while_next, test}

-- Where the end has been met and the current point is valid, as behind a last record that is cut
-- off after its time stamp, a loop whose body only looks at the reader never ends: however many
-- rounds it is given, it uses them up, prints the same line in each of them, and leaves the reader
-- as it was.
pub while_next-endless :
    (line : SyncFile → Line) (stack : Stack) (rounds left : ℕ) (out : List Line) (s : SyncFile)
    → s.file.eof ≡ true
    → valid s.current ≡ true
    → while_next (λ t. (ok (line t), t)) stack rounds left out s
      ≡ (stuck, out ++ replicate left (line s), s)
unfolding while_next
while_next-endless line stack rounds zero out s ended good =
    ap (λ l. (stuck, l, s)) (sym (append_nil out))
while_next-endless line stack rounds (suc left) out s ended good =
    let rest : List Line → SyncFile → Run = while_next (λ t. (ok (line t), t)) stack rounds left in
    ap (λ r. test (λ t. (ok (line t), t)) r out rest) (next_at_end stack rounds s ended)
    ∙ rw good (
        while_next-endless line stack rounds left (out ++ (line s ∷ [])) s ended good
        ∙ ap (λ l. (stuck, l, s)) (append_assoc out (line s ∷ []) (replicate left (line s))))
