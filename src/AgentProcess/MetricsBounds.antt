-- ===== src/AgentProcess/MetricsBounds.antt =====
-- The sizes that an agent reports (agent/metrics.go).
use game_server_manager.Base.{
  ℕ, ◌-◌, ◌/◌, ◌^◌, ◌≤◌, ◌<◌, ◌≡◌, inl, inr, true, Option, none, some, List, [], ◌∷◌, String, leb,
  ◌⊎◌, ltb→lt, lookup, string_key, All, arith, Bool-cases,
}
use game_server_manager.Protocol.{ContainerMetrics}
use game_server_manager.AgentProcess.Metrics.{
  Float64, sub_uint64, mebibytes, MemStat, StatsJson, Container, Measured, smaller_part, less_part,
  mem_used, collect_listed, keep_measured, collect_metrics,
}

-- A difference of uint64 in a case where it does not wrap.
sub_uint64-exact : (a b : ℕ) → a < 2 ^ 64 → b ≤ a → sub_uint64 a b ≡ a - b
sub_uint64-exact a b h k = omega arith

sub_uint64-wraps : (a b : ℕ) → a < b → b < 2 ^ 64 → sub_uint64 a b ≡ 2 ^ 64 - (b - a)
sub_uint64-wraps a b h k = omega arith

less_part-le :
    (part : Option ℕ) (usage : ℕ)
    → usage < 2 ^ 64
    → smaller_part part usage ≡ true
    → less_part part usage ≤ usage
less_part-le none usage h k = omega arith
less_part-le (some part) usage h k =
    let below = ltb→lt part usage k in omega (arith, sub_uint64-exact usage part h (omega arith))

mem_used-le : (s : StatsJson) → s.memory_usage < 2 ^ 64 → mem_used s ≤ s.memory_usage
mem_used-le s h =
    let inactive_file = lookup "inactive_file" s.memory_stats in
    let cache = lookup "cache" s.memory_stats in
    elim (Bool-cases (smaller_part inactive_file s.memory_usage)) [
      | inl e ↦ rw e (less_part-le inactive_file s.memory_usage h e)
      | inr e ↦ elim (Bool-cases (smaller_part cache s.memory_usage)) [
        | inl k ↦ rw (e, k) (less_part-le cache s.memory_usage h k)
        | inr k ↦ rw (e, k) (omega arith)
      ]
    ]

-- What Docker says of a container: it uses no more memory than its limit, in uint64.
abbrev pub StatsWithinLimit : Option StatsJson → Type 0
StatsWithinLimit none = Unit
StatsWithinLimit (some s) = (s.memory_usage ≤ s.memory_limit) × (s.memory_limit < 2 ^ 64)

abbrev pub WithinLimit : ContainerMetrics → Type 0
WithinLimit c = c.mem_used_mb ≤ c.mem_limit_mb

mebibytes_mono : (a b : ℕ) → a ≤ b → mebibytes a ≤ mebibytes b
mebibytes_mono a b h = omega arith

module _ (f : Float64) (num_cpu : ℕ) where
  one :
      (c : Container) (stats : Option StatsJson) (rest : List ContainerMetrics)
      → StatsWithinLimit stats
      → All WithinLimit rest
      → All WithinLimit (keep_measured f num_cpu c.names stats rest)
  one c none rest k others = others
  one c (some s) rest k others = (
    mebibytes_mono (mem_used s) s.memory_limit
        (omega (arith, k.0, mem_used-le s (omega (arith, k.0, k.1)))),
    others,
  )

  collect_listed-WithinLimit :
      (cs : List Container)
      → All (λ c. StatsWithinLimit c.stats) cs
      → All WithinLimit (collect_listed f num_cpu cs)
  unfolding collect_listed
  collect_listed-WithinLimit [] h = tt
  collect_listed-WithinLimit (c ∷ cs) h =
      one c c.stats (collect_listed f num_cpu cs) h.0 (collect_listed-WithinLimit cs h.1)

module _ (f : Float64) (agent_name : String) (m : Measured) where
  -- If Docker reports of no container more memory than its limit, the agent reports of no container
  -- more than its limit either: what is subtracted from the usage never wraps.
  pub collect_metrics-WithinLimit :
      (cs : List Container)
      → m.containers ≡ some cs
      → All (λ c. StatsWithinLimit c.stats) cs
      → All WithinLimit (collect_metrics f agent_name m).containers
  unfolding collect_metrics
  collect_metrics-WithinLimit cs listed h = rw listed (collect_listed-WithinLimit f m.num_cpu cs h)

  -- The host's used memory, in full mebibytes, is its total memory less the available memory, and at
  -- most the total that is reported, or, if more is available than the total, a difference that wraps
  -- around 2^64.
  collect_metrics-memory :
      (stat : MemStat)
      → m.memory ≡ some stat
      → stat.total < 2 ^ 64
      → stat.available < 2 ^ 64
      → ((stat.available ≤ stat.total)
          × ((collect_metrics f agent_name m).mem_used_mb ≡ (stat.total - stat.available) / 2 ^ 20)
          × ((collect_metrics f agent_name m).mem_used_mb
              ≤ (collect_metrics f agent_name m).mem_total_mb))
        ⊎ ((stat.total < stat.available)
            × ((collect_metrics f agent_name m).mem_used_mb
                ≡ (2 ^ 64 - (stat.available - stat.total)) / 2 ^ 20))
  unfolding collect_metrics
  collect_metrics-memory stat measured h k = elim (Bool-cases (leb stat.available stat.total)) [
    | inl e ↦
        let le : stat.available ≤ stat.total = ground arith in
        let exact = sub_uint64-exact stat.total stat.available h le in
        inl (le, rw measured (omega (arith, exact)), rw measured (omega (arith, exact)))
    | inr e ↦
        let lt : stat.total < stat.available = ground arith in
        inr (lt, rw measured (omega (arith, sub_uint64-wraps stat.total stat.available lt k)))
  ]
