-- ===== src/Service/Metrics.antt =====
-- internal/service/metrics.go: counters of 64 bits.
pub mod Counts
use Prim.Native.Nat.{Ordering}
use Prim.Native.String.{compare}
use payment_ledger_platform.Base.{
  ℕ, ◌+◌, ◌%◌, Bool, true, false, String, List, [], ◌∷◌, map, none, some, if◌then◌else◌,
}
use payment_ledger_platform.Base.Dict.{Dict, lookup, insert}

pub record CounterMetrics : Type 0 where
  pub values : Dict ℕ

abbrev pub new_counter_metrics : CounterMetrics
new_counter_metrics = record { values = [] }

-- `m.values[name]`, zero for a name that was never counted.
abbrev pub value_of : String → CounterMetrics → ℕ
value_of name m = elim (lookup name m.values) [ none ↦ 0 | some value ↦ value ]

-- `CounterMetrics.Inc`
unfoldable pub inc : String → CounterMetrics → CounterMetrics
inc name m = record { values = insert name ((value_of name m + 1) % 18446744073709551616) m.values }

-- The loop of `Snapshot`, in the order of the visit.
unfoldable pub copy_values : Dict ℕ → Dict ℕ → Dict ℕ
copy_values result [] = result
copy_values result (e ∷ es) = copy_values (insert e.0 e.1 result) es

unfoldable pub snapshot : (Dict ℕ → Dict ℕ) → CounterMetrics → Dict ℕ
unfolding copy_values
snapshot visit m = copy_values [] (visit m.values)

-- `sort.Strings`
unfoldable pub sort_one : String → List String → List String
sort_one name [] = name ∷ []
sort_one name (other ∷ names) =
    let rest = sort_one name names in
    elim (compare name other) [ Ordering.gt ↦ other ∷ rest | _ ↦ name ∷ other ∷ names ]

unfoldable pub sort_strings : List String → List String
unfolding sort_one
sort_strings [] = []
sort_strings (name ∷ names) = sort_one name (sort_strings names)

-- `CounterMetrics.Names`
unfoldable pub names : (Dict ℕ → Dict ℕ) → CounterMetrics → List String
unfolding sort_strings snapshot
names visit m = sort_strings (map (λ e. e.0) (visit (snapshot visit m)))
