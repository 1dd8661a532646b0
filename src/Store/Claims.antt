-- ===== src/Store/Claims.antt =====
-- `ClaimOutbox` of internal/store/store.go, against a description of the batch it returns.
use payment_ledger_platform.Base.{
  ◌≡◌, refl, ◌∙◌, ap, ℕ, zero, suc, ◌-◌, ◌<◌, Bool, true, false, inl, inr, List, [], ◌∷◌, ◌++◌,
  length, length-append, take, All, if◌then◌else◌, Bool-cases, arith,
}
use payment_ledger_platform.Base.Dict.{Dict}
use payment_ledger_platform.Error.{ok}
use payment_ledger_platform.Domain.Outbox.{OutboxEvent}
use payment_ledger_platform.Store.State.{MemoryStore}
use payment_ledger_platform.Store.Memory.Outbox.{claim, claim_outbox}

-- The events that are not published, in the order in which the map is visited.
abbrev pub unpublished : Dict OutboxEvent → List OutboxEvent
unpublished [] = []
unpublished (e ∷ es) = if e.1.published then unpublished es else e.1 ∷ unpublished es

append_one : (xs ys : List OutboxEvent) (x : OutboxEvent) → (xs ++ x ∷ []) ++ ys ≡ xs ++ x ∷ ys
append_one [] ys x = refl
append_one (z ∷ xs) ys x = ap (λ l. z ∷ l) (append_one xs ys x)

append-nil : (xs : List OutboxEvent) → xs ≡ xs ++ []
append-nil [] = refl
append-nil (x ∷ xs) = ap (λ l. x ∷ l) (append-nil xs)

nothing_left : (n : ℕ) (xs : List OutboxEvent) → xs ≡ xs ++ take n []
nothing_left zero xs = append-nil xs
nothing_left (suc n) xs = append-nil xs

take-suc :
    (n : ℕ) (x : OutboxEvent) (xs : List OutboxEvent)
    → 0 < n
    → take n (x ∷ xs) ≡ x ∷ take (n - 1) xs
take-suc zero x xs h = ground (arith, h)
take-suc (suc n) x xs h = ap (λ k. x ∷ take k xs) (omega arith)

claim_lem :
    (n : ℕ) (result : List OutboxEvent) (es : Dict OutboxEvent)
    → length result < n
    → claim n result es ≡ result ++ take (n - length result) (unpublished es)
unfolding claim
claim_lem n result [] h = nothing_left (n - length result) result
claim_lem n result (e ∷ es) h = elim (Bool-cases e.1.published) [
  | inl old ↦ ground (arith, old, claim_lem n result es h)
  | inr fresh ↦ ground (
    arith,
    fresh,
    length-append result (e.1 ∷ []),
    claim_lem n (result ++ e.1 ∷ []) es,
    append_one result (take (n - length (result ++ e.1 ∷ [])) (unpublished es)) e.1,
    take-suc (n - length result) e.1 (unpublished es),
  )
]

-- For any positive n, `ClaimOutbox` returns the first n unpublished events, or all of them when
-- there are fewer, in the order in which the map is visited, and changes nothing.
pub claim_outbox-take :
    {A : Type 0} (visit : Dict OutboxEvent → Dict OutboxEvent) (n : ℕ) (s : MemoryStore A)
    → 0 < n
    → claim_outbox visit n s ≡ (ok (take n (unpublished (visit s.outbox))), s)
unfolding claim_outbox
claim_outbox-take {A} visit n s h =
    ap (λ batch. (ok batch, s)) (claim_lem n [] (visit s.outbox) h)
    ∙ ap (λ k. (ok (take k (unpublished (visit s.outbox))), s)) (omega arith)

module _ (P : OutboxEvent → Type 0) where
  All-skip :
      (old : Bool) (x : OutboxEvent) (xs : List OutboxEvent)
      → P x
      → All P xs
      → All P (if old then xs else x ∷ xs)
  All-skip true x xs p h = h
  All-skip false x xs p h = (p, h)

  -- What holds of every entry's event holds of the unpublished ones.
  pub All-unpublished : (es : Dict OutboxEvent) → All (λ e. P e.1) es → All P (unpublished es)
  All-unpublished [] h = tt
  All-unpublished (e ∷ es) h =
      All-skip e.1.published e.1 (unpublished es) h.0 (All-unpublished es h.1)
