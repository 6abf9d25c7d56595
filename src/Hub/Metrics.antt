-- ===== src/Hub/Metrics.antt =====
-- StoreMetrics and GetMetricsHistory (master/main.go): a window over what each agent reported.
use game_server_manager.Base.{
  ℕ, ◌+◌, ◌-◌, ◌≤◌, ◌≡◌, refl, ap, ◌∙◌, sym, inl, inr, List, [], ◌∷◌, ◌++◌, String, arith,
  if◌then◌else◌, ltb, length, drop, lookup, lookup-insert, length-append, length-drop,
  drop-append_left, drop-drop, append_assoc, append-nil, Bool-cases, eq_iff, str_eq, string_key,
}
use game_server_manager.Protocol.{MetricsPayload}
use game_server_manager.Hub.{Hub, or_empty, keep_last_30, store_metrics, get_metrics_history}

-- Everything that was stored for one agent, in order, out of a sequence of StoreMetrics calls.
abbrev pub stored_for : String → List (String × MetricsPayload) → List MetricsPayload
stored_for name [] = []
stored_for name ((n, m) ∷ calls) =
    if str_eq n name then m ∷ stored_for name calls else stored_for name calls

pub store_all : List (String × MetricsPayload) → Hub → Hub
store_all [] h = h
store_all ((n, m) ∷ calls) h = store_all calls (store_metrics n m h)

-- The last n entries of a list.
abbrev pub last_n {ℓ} : {A : Type ℓ} → ℕ → List A → List A
last_n n xs = drop (length xs - n) xs

keep_last_30-last_n : (xs : List MetricsPayload) → keep_last_30 xs ≡ last_n 30 xs
keep_last_30-last_n xs = elim (Bool-cases (ltb 30 (length xs))) [
  | inl e ↦ rw e refl
  | inr e ↦ let none_too_many : length xs - 30 ≡ 0 = ground arith in rw (e, none_too_many) refl
]

last_n-append :
    (xs ys : List MetricsPayload) → last_n 30 (last_n 30 xs ++ ys) ≡ last_n 30 (xs ++ ys)
last_n-append xs ys =
    let cut : ℕ = length xs - 30 in
    let fits : cut ≤ length xs = omega arith in
    let rest : last_n 30 xs ++ ys ≡ drop cut (xs ++ ys) = sym (drop-append_left cut xs ys fits) in
    let n : ℕ = length (xs ++ ys) in
    let shorter : length (last_n 30 xs ++ ys) ≡ n - cut =
      ap length rest ∙ length-drop cut (xs ++ ys) in
    let total : cut + (n - cut - 30) ≡ n - 30 = omega (arith, length-append xs ys) in
    rw (shorter, rest, drop-drop (n - cut - 30) cut (xs ++ ys), total) refl

last_n_again : (xs : List MetricsPayload) → last_n 30 (last_n 30 xs) ≡ last_n 30 xs
last_n_again xs =
    ap (last_n 30) (sym (append-nil (last_n 30 xs)))
    ∙ last_n-append xs []
    ∙ ap (last_n 30) (append-nil xs)

get-store_metrics :
    (n name : String) (m : MetricsPayload) (h : Hub)
    → get_metrics_history name (store_metrics n m h) ≡ (
        if str_eq n name
        then last_n 30 (get_metrics_history name h ++ m ∷ [])
        else get_metrics_history name h)
unfolding store_metrics get_metrics_history
get-store_metrics n name m h = elim (Bool-cases (str_eq n name)) [
  | inl e ↦
      let same : n ≡ name = (eq_iff n name).0 e in
      rw (lookup-insert n name _ h.metrics_history, e, same)
        (keep_last_30-last_n (or_empty (lookup name h.metrics_history) ++ m ∷ []))
  | inr e ↦ rw (lookup-insert n name _ h.metrics_history, e) refl
]

-- After any sequence of reports the history of an agent is exactly the last 30 of what stood there
-- and what that agent reported, oldest first; reports of other agents leave it alone.
pub store_all-history :
    (calls : List (String × MetricsPayload)) (name : String) (h : Hub)
    → get_metrics_history name h ≡ last_n 30 (get_metrics_history name h)
    → get_metrics_history name (store_all calls h)
      ≡ last_n 30 (get_metrics_history name h ++ stored_for name calls)
unfolding store_all
store_all-history [] name h short =
    short ∙ ap (last_n 30) (sym (append-nil (get_metrics_history name h)))
store_all-history ((n, m) ∷ calls) name h short = elim (Bool-cases (str_eq n name)) [
  | inl e ↦
      let old = get_metrics_history name h in
      let now : get_metrics_history name (store_metrics n m h) ≡ last_n 30 (old ++ m ∷ []) =
        get-store_metrics n name m h ∙ rw e refl in
      let window : last_n 30 (last_n 30 (old ++ m ∷ [])) ≡ last_n 30 (old ++ m ∷ []) =
        last_n_again (old ++ m ∷ []) in
      store_all-history calls name (store_metrics n m h) (rw now (sym window))
      ∙ rw (now, e)
          (last_n-append (old ++ m ∷ []) (stored_for name calls)
            ∙ ap (last_n 30) (append_assoc old (m ∷ []) (stored_for name calls)))
  | inr e ↦
      let now : get_metrics_history name (store_metrics n m h) ≡ get_metrics_history name h =
        get-store_metrics n name m h ∙ rw e refl in
      store_all-history calls name (store_metrics n m h) (rw now short) ∙ rw (now, e) refl
]
