-- ===== src/Service/Reconciliation/Report.antt =====
-- internal/service/reconciliation.go: what the report contains, over the store in memory.
use payment_ledger_platform.Base.{
  ◌≡◌, ◌≢◌, ◌∙◌, ◌⊎◌, refl, sym, ap, inl, inr, true, false, ◌&&◌, String, ◌==◌, none, some, List,
  [], ◌∷◌, ◌++◌, append-nil, append_assoc, if◌then◌else◌, Option-cases, Bool, Bool-cases, arith,
  eq_iff, Memᴰ, Perm,
}
use payment_ledger_platform.Error.{ok}
use payment_ledger_platform.Amount.{Decimal, Meaning, Le, Lt}
use payment_ledger_platform.Base.Dict.{Dict}
use payment_ledger_platform.Domain.Payment.{Payment}
use payment_ledger_platform.Store.State.{MemoryStore}
use payment_ledger_platform.Store.Memory.Payments.{
  first_with_reference, get_payment_by_provider_reference,
}
use payment_ledger_platform.Store.Interface.{Visits, memory}
use payment_ledger_platform.Service.Reconciliation.{
  SettlementLine, ReconciliationMismatch, unknown_payment, amount_mismatch, compare_lines,
  reconcile,
}

-- A range over the map of payments visits the stored payments, all of them and no other.
pub record VisitsPayments {A : Type 0} (visits : Visits A) : Type 0 where
  pub visits_only :
      (e : String × Payment A) (t : Dict (Payment A)) → Memᴰ e (visits.payments t) → Memᴰ e t
  pub visits_all :
      (e : String × Payment A) (t : Dict (Payment A)) → Memᴰ e t → Memᴰ e (visits.payments t)

module _ {A V : Type 0} ⦃d : Decimal A⦄ (m : Meaning d V) (s : MemoryStore A) where
  -- A payment that is stored has the reference.
  abbrev pub IsStored : String → Payment A → Type 0
  IsStored reference p =
      (id : String) × Memᴰ (id, p) s.payments × (p.provider_reference ≡ reference)

  -- What a line of the settlement leads to. A line whose reference no stored payment has is
  -- unknown, with nothing expected. A line may be judged by any stored payment that has its
  -- reference: what that payment has captured is expected and what the line says is reported
  -- when the two differ by value, and there is no mismatch when they do not.
  pub data Judges (line : SettlementLine A) : List (ReconciliationMismatch A) → Type 0 where
    is_unknown :
        ((p : Payment A) → ¬ IsStored line.provider_reference p)
        → Judges line (
            record {
              provider_reference = line.provider_reference;
              reason = "unknown_provider_payment";
              expected = d.zero;
              reported = line.captured_amount;
            }
            ∷ [])
    has_other_amount :
        (p : Payment A)
        → IsStored line.provider_reference p
        → Lt m.numbers (m.value p.captured_amount) (m.value line.captured_amount)
          ⊎ Lt m.numbers (m.value line.captured_amount) (m.value p.captured_amount)
        → Judges line (
            record {
              provider_reference = line.provider_reference;
              reason = "captured_amount_mismatch";
              expected = p.captured_amount;
              reported = line.captured_amount;
            }
            ∷ [])
    has_same_amount :
        (p : Payment A)
        → IsStored line.provider_reference p
        → Le m.numbers (m.value p.captured_amount) (m.value line.captured_amount)
        → Le m.numbers (m.value line.captured_amount) (m.value p.captured_amount)
        → Judges line []

  -- The mismatches of the lines, one line after the other.
  pub data Reports : List (SettlementLine A) → List (ReconciliationMismatch A) → Type 0 where
    no_lines : Reports [] []
    line_then :
        {line : SettlementLine A}
        → {lines : List (SettlementLine A)} → {xs ys : List (ReconciliationMismatch A)}
        → Judges line xs
        → Reports lines ys
        → Reports (line ∷ lines) (xs ++ ys)

module _ {A : Type 0} ⦃d : Decimal A⦄ where
  found_stored :
      (reference : String) (es : Dict (Payment A)) (p : Payment A)
      → first_with_reference reference es ≡ some p
      → (id : String) × Memᴰ (id, p) es × (p.provider_reference ≡ reference)
  unfolding first_with_reference
  found_stored reference [] p h = let no : ⊥ = ground (arith, h) in elim no [ ]
  found_stored reference (e ∷ es) p h = elim (Bool-cases (e.1.provider_reference == reference)) [
    | inl same ↦
        let here : e.1 ≡ p = ground (arith, same, h) in
        (
          e.0,
          Memᴰ.head (ap (λ q. (e.0, q)) (sym here)),
          ap (λ q. q.provider_reference) (sym here)
              ∙ (eq_iff e.1.provider_reference reference).0 same,
        )
    | inr differs ↦
        let (id, stored, same) = found_stored reference es p (ground (arith, differs, h)) in
        (id, Memᴰ.tail stored, same)
  ]

  missing_differs :
      (reference : String) (es : Dict (Payment A)) (e : String × Payment A)
      → first_with_reference reference es ≡ none
      → Memᴰ e es
      → e.1.provider_reference ≢ reference
  unfolding first_with_reference
  missing_differs reference [] e h m same = elim m [ ]
  missing_differs reference (x ∷ es) e h (Memᴰ.head here) same = ground (
    arith,
    h,
    eq_iff x.1.provider_reference reference,
    ap (λ y. y.1.provider_reference) here,
    same,
  )
  missing_differs reference (x ∷ es) e h (Memᴰ.tail m) same =
      missing_differs reference es e (ground (arith, h, eq_iff x.1.provider_reference reference)) m
        same

module _ {A : Type 0} ⦃d : Decimal A⦄ (visits : Visits A) (s : MemoryStore A) where
  -- What one line contributes to the report.
  abbrev judged : SettlementLine A → List (ReconciliationMismatch A)
  judged line = elim (first_with_reference line.provider_reference (visits.payments s.payments)) [
    | none ↦ unknown_payment line ∷ []
    | some p ↦
        if d.equal p.captured_amount line.captured_amount then [] else amount_mismatch line p ∷ []
  ]

  abbrev report : List (SettlementLine A) → List (ReconciliationMismatch A)
  report [] = []
  report (line ∷ lines) = judged line ++ report lines

  compare_lines-report :
      (lines : List (SettlementLine A)) (mismatches : List (ReconciliationMismatch A))
      → compare_lines (memory visits) lines mismatches s ≡ (ok (mismatches ++ report lines), s)
  unfolding compare_lines get_payment_by_provider_reference
  compare_lines-report [] mismatches = ap (λ l. (ok l, s)) (sym (append-nil mismatches))
  compare_lines-report (line ∷ lines) mismatches =
      elim (Option-cases
        (first_with_reference line.provider_reference (visits.payments s.payments))) [
          | inl missing ↦ ground (
            arith,
            missing,
            compare_lines-report lines (mismatches ++ unknown_payment line ∷ []),
            append_assoc mismatches (unknown_payment line ∷ []) (report lines),
          )
          | inr (p, found) ↦ ground (
            arith,
            found,
            compare_lines-report lines mismatches,
            compare_lines-report lines (mismatches ++ amount_mismatch line p ∷ []),
            append_assoc mismatches (amount_mismatch line p ∷ []) (report lines),
          )
        ]

module _ {A V : Type 0} ⦃d : Decimal A⦄ (m : Meaning d V) (s : MemoryStore A) (visits : Visits A)
    (laws : VisitsPayments visits) where
  judged-Judges : (line : SettlementLine A) → Judges m s line (judged visits s line)
  judged-Judges line =
      elim (Option-cases
        (first_with_reference line.provider_reference (visits.payments s.payments))) [
          | inl missing ↦
              rw (judged, missing)
                (Judges.is_unknown (λ p (id, stored, same).
                  missing_differs line.provider_reference (visits.payments s.payments) (id, p)
                    missing (laws.visits_all (id, p) s.payments stored) same))
          | inr (p, found) ↦
              let (id, met, same) =
                found_stored line.provider_reference (visits.payments s.payments) p found in
              let stored : IsStored m s line.provider_reference p =
                (id, laws.visits_only (id, p) s.payments met, same) in
              elim (Bool-cases (d.equal p.captured_amount line.captured_amount)) [
                | inl equal ↦
                    rw (judged, found, equal)
                      (Judges.has_same_amount p stored
                        (ground
                          (arith, equal, m.equal_by_value p.captured_amount line.captured_amount))
                        (ground
                          (arith, equal, m.equal_by_value p.captured_amount line.captured_amount)))
                | inr unequal ↦
                    rw (judged, found, unequal)
                      (Judges.has_other_amount p stored (
                        apart (
                          ground (
                            arith,
                            unequal,
                            m.equal_by_value p.captured_amount line.captured_amount,
                          ))))
              ]
        ]
    where
      apart : {x y : Bool} → (x && y) ≡ false → (y ≡ false) ⊎ (x ≡ false)
      apart {x = true} h = inl h
      apart {x = false} h = inr refl

  report-Reports : (lines : List (SettlementLine A)) → Reports m s lines (report visits s lines)
  report-Reports [] = Reports.no_lines
  report-Reports (line ∷ lines) = Reports.line_then (judged-Judges line) (report-Reports lines)

  -- `Reconcile` never fails on the store in memory, changes nothing, and returns a permutation
  -- of the mismatches of its lines. A line whose reference no stored payment has leads to one
  -- mismatch that expects zero. Any other line is judged by a stored payment that has its
  -- reference: when the line's amount differs by value from what that payment has captured, it
  -- leads to one mismatch that expects what the payment has captured and reports what the line
  -- says, and otherwise to none. (A range over the map visits the stored payments, all of them
  -- and no other, and sort.Slice permutes.)
  pub reconcile-report :
      (sort : List (ReconciliationMismatch A) → List (ReconciliationMismatch A))
      (permutes : (xs : List (ReconciliationMismatch A)) → Perm xs (sort xs))
      (lines : List (SettlementLine A))
      → (xs ys : List (ReconciliationMismatch A)) × Reports m s lines xs
        × Perm xs ys
        × (reconcile (memory visits) sort lines s ≡ (ok ys, s))
  unfolding reconcile
  reconcile-report sort permutes lines = (
    report visits s lines,
    sort (report visits s lines),
    report-Reports lines,
    permutes (report visits s lines),
    ground (arith, compare_lines-report visits s lines []),
  )
