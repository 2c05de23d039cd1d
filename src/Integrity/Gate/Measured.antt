-- ===== src/Integrity/Gate/Measured.antt =====
-- What the report mode measures and the enforcing mode refuses.
use competition_factory_serv.Prelude.{
  ◌≡◌, refl, ◌∙◌, ◌⊎◌, not, List, [], ◌∷◌, ◌++◌, map, filter, Bool-cases, List-cases, inl, inr,
  append_assoc, append-nil,
}
use competition_factory_serv.Integrity.Issues.{IntegrityIssue, Inconsistency, to_integrity_issue}
use competition_factory_serv.Integrity.Gate.{
  report, enforce, ScanResult, failed, answered, IntegrityResult, is_error, sort_issues,
  check_draw_integrity, scan_failure, warn_line, refused, gate_draw_integrity,
}

abbrev pub issues_of : ScanResult → List IntegrityIssue
issues_of (failed message) = (scan_failure message).errors
issues_of (answered found) = map to_integrity_issue found

sort_issues-filter :
    (found : List Inconsistency) (r : IntegrityResult)
    → ((sort_issues found r).errors ≡ r.errors ++ filter is_error (map to_integrity_issue found))
      × ((sort_issues found r).warnings
          ≡ r.warnings ++ filter (λ i. not (is_error i)) (map to_integrity_issue found))
unfolding sort_issues
sort_issues-filter [] r = (rw (append-nil r.errors) refl, rw (append-nil r.warnings) refl)
sort_issues-filter (i ∷ is) r = elim (Bool-cases (is_error (to_integrity_issue i))) [
  | inl h ↦
      let ih =
        sort_issues-filter is (record r { errors = r.errors ++ to_integrity_issue i ∷ [] }) in
      simp h (ih.0 ∙ append_assoc r.errors (to_integrity_issue i ∷ []) _, ih.1)
  | inr h ↦
      let ih =
        sort_issues-filter is (record r { warnings = r.warnings ++ to_integrity_issue i ∷ [] }) in
      simp h (ih.0, ih.1 ∙ append_assoc r.warnings (to_integrity_issue i ∷ []) _)
]

check_draw_integrity-filter :
    (scan : ScanResult)
    → ((check_draw_integrity scan).errors ≡ filter is_error (issues_of scan))
      × ((check_draw_integrity scan).warnings ≡ filter (λ i. not (is_error i)) (issues_of scan))
unfolding check_draw_integrity
check_draw_integrity-filter (failed message) = (refl, refl)
check_draw_integrity-filter (answered found) =
    sort_issues-filter found (record { errors = []; warnings = [] })

-- A save whose scan reports no issue of severity error fares alike in both modes; any other, a scan
-- that fails included, is a warning line in report mode, and in enforcing mode is refused with
-- exactly the issues of that severity as its errors and all other issues as its warnings.
pub gate_draw_integrity_cases :
    (scan : ScanResult)
    → ((filter is_error (issues_of scan) ≡ [])
        × (gate_draw_integrity enforce scan ≡ gate_draw_integrity report scan))
      ⊎ ((¬ (filter is_error (issues_of scan) ≡ []))
          × (gate_draw_integrity report scan ≡ warn_line)
          × (gate_draw_integrity enforce scan
              ≡ refused
                  (filter is_error (issues_of scan))
                  (filter (λ i. not (is_error i)) (issues_of scan))))
unfolding gate_draw_integrity
gate_draw_integrity_cases scan =
    let (e, w) = check_draw_integrity-filter scan in
    elim (List-cases (filter is_error (issues_of scan))) [
      | inl n ↦ inl (n, simp (e, n))
      | inr (x, xs, n) ↦ inr ((λ m. cc (n, m)), simp (e, n), simp (e, n, w))
    ]
