-- ===== src/Service/Metrics/Counts.antt =====
-- internal/service/metrics.go: what the counters count.
use payment_ledger_platform.Base.{
  ◌≡◌, refl, ℕ, ◌+◌, ◌%◌, String, ◌==◌, eq_iff, List, [], ◌∷◌, if◌then◌else◌, arith,
}
use payment_ledger_platform.Base.Dict.{lookup, lookup-insert}
use payment_ledger_platform.Service.Metrics.{CounterMetrics, new_counter_metrics, value_of, inc}

-- How often a name occurs.
abbrev pub occurrences : String → List String → ℕ
occurrences name [] = 0
occurrences name (other ∷ others) = (if other == name then 1 else 0) + occurrences name others

abbrev pub inc_all : List String → CounterMetrics → CounterMetrics
inc_all [] m = m
inc_all (name ∷ names) m = inc_all names (inc name m)

value-inc :
    (name other : String) (m : CounterMetrics)
    → value_of name (inc other m)
      ≡ (if other == name then (value_of name m + 1) % 18446744073709551616 else value_of name m)
unfolding inc
value-inc name other m = ground (
  arith,
  eq_iff other name,
  lookup-insert other name ((value_of other m + 1) % 18446744073709551616) m.values,
)

value-inc_all :
    (name : String) (names : List String) (m : CounterMetrics)
    → value_of name m % 18446744073709551616 ≡ value_of name m
    → value_of name (inc_all names m)
      ≡ (value_of name m + occurrences name names) % 18446744073709551616
value-inc_all name [] m small = omega (arith, small)
value-inc_all name (other ∷ names) m small =
    ground (arith, value-inc name other m, value-inc_all name names (inc other m))

-- After any sequence of `Inc` calls on new metrics, a counter holds how often its name was
-- counted, modulo 2^64.
pub inc-occurrences :
    (name : String) (names : List String)
    → value_of name (inc_all names new_counter_metrics)
      ≡ occurrences name names % 18446744073709551616
unfolding lookup
inc-occurrences name names = ground (arith, value-inc_all name names new_counter_metrics refl)
