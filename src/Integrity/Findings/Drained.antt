-- ===== src/Integrity/Findings/Drained.antt =====
-- A drain whose writes succeed ends, with every row in the table.
use competition_factory_serv.Prelude.{
  ℕ, zero, suc, ◌+◌, ◌*◌, ◌≤◌, ◌≡◌, refl, sym, ap, subst, ◌∙◌, none, some, List, [], ◌∷◌, ◌++◌,
  arith, length, take, drop, append_assoc, append-nil, take-append-drop, length-drop,
}
use competition_factory_serv.Integrity.Issues.{FindingRow}
use competition_factory_serv.Integrity.Findings.{
  max_finding_rows_per_write, Service, drain_from, drain, append_succeeds, Event, append_ok, step,
  run,
}
use competition_factory_serv.Integrity.Findings.Kept.{kept_rows, batch_of}

-- So many writes that succeed, one after the other.
abbrev pub writes : ℕ → List Event
writes zero = []
writes (suc n) = append_ok ∷ writes n

-- Nothing waits and nothing is under way, and the table has these rows.
pub record IsDrained (rows : List FindingRow) (s : Service) : Type 0 where
  pub stored : s.stored ≡ rows
  pub empty : s.queue ≡ []
  pub idle : s.writing ≡ none

stays-IsDrained :
    (n : ℕ) (rows : List FindingRow) (s : Service)
    → IsDrained rows s
    → IsDrained rows (run s (writes n))
unfolding run step
stays-IsDrained zero rows s d = d
stays-IsDrained (suc n) rows s d =
    subst (λ w. IsDrained rows (run (append_succeeds s w) (writes n))) (sym d.idle)
      (stays-IsDrained n rows s d)

drains_from :
    (n : ℕ) (s : Service) (queue : List FindingRow)
    → s.queue ≡ queue
    → length queue ≤ n * max_finding_rows_per_write
    → IsDrained (s.stored ++ queue) (run (drain_from s queue) (writes n))
unfolding run step drain
drains_from n s [] q le =
    stays-IsDrained n (s.stored ++ []) (drain_from s [])
      (record { stored = sym (append-nil s.stored); empty = q; idle = refl })
drains_from zero s (x ∷ xs) q le = absurd (omega (arith, le))
drains_from (suc n) s (x ∷ xs) q le =
    let k = max_finding_rows_per_write in
    let batch = take k (x ∷ xs) in
    let rest = drop k (x ∷ xs) in
    subst (λ rows. IsDrained rows (run (drain_from s (x ∷ xs)) (writes (suc n))))
      (append_assoc s.stored batch rest ∙ ap (λ l. s.stored ++ l) (take-append-drop k (x ∷ xs)))
      (drains_from n
        (record s {
          queue = rest;
          writing = some batch;
          failing_since = 0;
          written = s.written + length batch;
          stored = s.stored ++ batch;
        })
        rest refl (omega (arith, le, length-drop k (x ∷ xs))))

-- A batch that is under way and the queue behind it are in the table, after what was there and in
-- order, once the batch and then as many batches as the queue needs are written; the drain then ends.
pub run_drains :
    (n : ℕ) (s : Service) (batch : List FindingRow)
    → s.writing ≡ some batch
    → length s.queue ≤ n * max_finding_rows_per_write
    → IsDrained (kept_rows s) (run s (writes (suc n)))
unfolding run step drain
run_drains n s batch w le =
    subst
      (λ o. IsDrained (s.stored ++ (batch_of o ++ s.queue)) (run (append_succeeds s o) (writes n)))
      (sym w)
      (subst (λ rows. IsDrained rows (run (append_succeeds s (some batch)) (writes n)))
        (append_assoc s.stored batch s.queue)
        (drains_from n
          (record s {
            stored = s.stored ++ batch;
            written = s.written + length batch;
            failing_since = 0;
          })
          s.queue refl le))
