-- ===== src/Domain/Ledger/Balance.antt =====
-- The double-entry check against an independent description of a balanced journal.
use payment_ledger_platform.Base.{
  ◌≤◌, ◌≡◌, refl, sym, ◌∙◌, ap, ◌↔◌, ◌⊎◌, inl, inr, false, List, [], ◌∷◌, ◌++◌, length, All,
  All-append, Bool-cases, arith,
}
use payment_ledger_platform.Error.{ok, Result-cases}
use payment_ledger_platform.Amount.{Decimal, Meaning, Lt}
use payment_ledger_platform.Amount.Laws.{zero-plus, at_most_refl}
use payment_ledger_platform.Domain.Ledger.{
  LedgerEntry, is_malformed, sum_entries, validate_balanced,
}

module _ {A V : Type 0} ⦃d : Decimal A⦄ (m : Meaning d V) where
  -- A positive amount on one side, and zero on the other.
  abbrev pub OneSided : LedgerEntry A → Type 0
  OneSided e =
      (Lt m.numbers m.numbers.zero (m.value e.debit) × (m.value e.credit ≡ m.numbers.zero))
      ⊎ (Lt m.numbers m.numbers.zero (m.value e.credit) × (m.value e.debit ≡ m.numbers.zero))

  abbrev pub total_debit : List (LedgerEntry A) → V
  total_debit [] = m.numbers.zero
  total_debit (e ∷ es) = m.numbers.plus (m.value e.debit) (total_debit es)

  abbrev pub total_credit : List (LedgerEntry A) → V
  total_credit [] = m.numbers.zero
  total_credit (e ∷ es) = m.numbers.plus (m.value e.credit) (total_credit es)

  -- A ledger in which every entry is one-sided and the two sides have the same sum.
  pub record IsBalanced (es : List (LedgerEntry A)) : Type 0 where
    pub one_sided : All OneSided es
    pub sides_equal : total_debit es ≡ total_credit es

  pub is_malformed_iff : (e : LedgerEntry A) → (is_malformed e ≡ false) ↔ OneSided e
  unfolding is_malformed
  is_malformed_iff e = (
    ground (
      arith,
      m.is_negative_by_value e.debit,
      m.is_negative_by_value e.credit,
      m.is_zero_by_value e.debit,
      m.is_zero_by_value e.credit,
      m.numbers.at_most_antisymm (m.value e.debit) m.numbers.zero,
      m.numbers.at_most_antisymm (m.value e.credit) m.numbers.zero,
    ),
    ground (
      arith,
      m.is_negative_by_value e.debit,
      m.is_negative_by_value e.credit,
      m.is_zero_by_value e.debit,
      m.is_zero_by_value e.credit,
      at_most_refl m.numbers m.numbers.zero,
      m.numbers.at_most_total (m.value e.debit) m.numbers.zero,
      m.numbers.at_most_total (m.value e.credit) m.numbers.zero,
    ),
  )

  -- The loop adds the two sides to its running sums.
  pub sum_entries_lem :
      (es : List (LedgerEntry A)) (debit credit : A)
      → All OneSided es
      → (debit' : A) × (credit' : A) × (sum_entries es debit credit ≡ ok (debit', credit'))
        × (m.value debit' ≡ m.numbers.plus (m.value debit) (total_debit es))
        × (m.value credit' ≡ m.numbers.plus (m.value credit) (total_credit es))
  unfolding sum_entries
  sum_entries_lem [] debit credit h =
      (debit, credit, refl, sym (m.numbers.plus-zero _), sym (m.numbers.plus-zero _))
  sum_entries_lem (e ∷ es) debit credit h =
      let (debit', credit', run, left, right) =
        sum_entries_lem es (d.add debit e.debit) (d.add credit e.credit) h.1 in
      (
        debit',
        credit',
        rw ((is_malformed_iff e).1 h.0) run,
        left
            ∙ ap (λ v. m.numbers.plus v (total_debit es)) (m.value-add debit e.debit)
            ∙ m.numbers.plus_assoc (m.value debit) (m.value e.debit) (total_debit es),
        right
            ∙ ap (λ v. m.numbers.plus v (total_credit es)) (m.value-add credit e.credit)
            ∙ m.numbers.plus_assoc (m.value credit) (m.value e.credit) (total_credit es),
      )

  -- It stops at an entry that is not one-sided.
  pub sum_entries-ok :
      (es : List (LedgerEntry A)) (debit credit : A) {sums : A × A}
      → sum_entries es debit credit ≡ ok sums
      → All OneSided es
  unfolding sum_entries
  sum_entries-ok [] debit credit h = tt
  sum_entries-ok (e ∷ es) debit credit h = elim (Bool-cases (is_malformed e)) [
    | inl bad ↦ cc (rw bad at h)
    | inr good ↦ (
      (is_malformed_iff e).0 good,
      sum_entries-ok es (d.add debit e.debit) (d.add credit e.credit) (rw good at h),
    )
  ]

  -- The sums from zero are the totals.
  sum_entries-totals :
      (es : List (LedgerEntry A)) {debit credit : A}
      → sum_entries es d.zero d.zero ≡ ok (debit, credit)
      → (m.value debit ≡ total_debit es) × (m.value credit ≡ total_credit es)
  sum_entries-totals es h =
      let (debit', credit', run, left, right) =
        sum_entries_lem es d.zero d.zero (sum_entries-ok es d.zero d.zero h) in
      ground (
        arith,
        run,
        left,
        right,
        m.value-zero,
        zero-plus m.numbers (total_debit es),
        zero-plus m.numbers (total_credit es),
      )

  validate_balanced-ok :
      (es : List (LedgerEntry A)) → validate_balanced es ≡ ok tt → (2 ≤ length es) × IsBalanced es
  unfolding validate_balanced
  validate_balanced-ok es h = elim (Result-cases (sum_entries es d.zero d.zero)) [
    | inl ((debit, credit), run) ↦ ground (
      arith,
      run,
      sum_entries-ok es d.zero d.zero run,
      sum_entries-totals es run,
      m.equal_by_value debit credit,
      m.numbers.at_most_antisymm (m.value debit) (m.value credit),
    )
    | inr (e, run) ↦ ground (arith, run)
  ]

  ok-validate_balanced :
      (es : List (LedgerEntry A)) → 2 ≤ length es → IsBalanced es → validate_balanced es ≡ ok tt
  unfolding validate_balanced
  ok-validate_balanced es long h =
      let (debit, credit, run, _, _) = sum_entries_lem es d.zero d.zero h.one_sided in
      ground (
        arith,
        run,
        h.sides_equal,
        sum_entries-totals es run,
        m.equal_by_value debit credit,
        at_most_refl m.numbers (total_debit es),
      )

  -- The double-entry check accepts a journal exactly when it has at least two entries, each
  -- with a positive amount on one side and zero on the other, and its debits and credits have
  -- the same sum.
  pub validate_balanced_iff :
      (es : List (LedgerEntry A))
      → (validate_balanced es ≡ ok tt) ↔ ((2 ≤ length es) × IsBalanced es)
  validate_balanced_iff es = (validate_balanced-ok es, λ h. ok-validate_balanced es h.0 h.1)

  pub total_debit-append :
      (xs ys : List (LedgerEntry A))
      → total_debit (xs ++ ys) ≡ m.numbers.plus (total_debit xs) (total_debit ys)
  total_debit-append [] ys = sym (zero-plus m.numbers (total_debit ys))
  total_debit-append (x ∷ xs) ys =
      ap (m.numbers.plus (m.value x.debit)) (total_debit-append xs ys)
      ∙ sym (m.numbers.plus_assoc (m.value x.debit) (total_debit xs) (total_debit ys))

  pub total_credit-append :
      (xs ys : List (LedgerEntry A))
      → total_credit (xs ++ ys) ≡ m.numbers.plus (total_credit xs) (total_credit ys)
  total_credit-append [] ys = sym (zero-plus m.numbers (total_credit ys))
  total_credit-append (x ∷ xs) ys =
      ap (m.numbers.plus (m.value x.credit)) (total_credit-append xs ys)
      ∙ sym (m.numbers.plus_assoc (m.value x.credit) (total_credit xs) (total_credit ys))

  pub IsBalanced-append :
      (xs ys : List (LedgerEntry A)) → IsBalanced xs → IsBalanced ys → IsBalanced (xs ++ ys)
  IsBalanced-append xs ys h k = record {
    one_sided = All-append OneSided xs ys h.one_sided k.one_sided;
    sides_equal =
        cc (total_debit-append xs ys, total_credit-append xs ys, h.sides_equal, k.sides_equal);
  }
