-- ===== src/JsonPath/Select.antt =====
-- `Path.Select` of internal/jsonpath/jsonpath.go.
use qubership_authz_agent.Base.{
  Bool, true, false, List, [], ◌∷◌, length, not, Result, ok, err, ◌>>=◌, if◌then◌else◌,
}
use qubership_authz_agent.Json.{Json, null}
use qubership_authz_agent.JsonPath.Budget.{Budget, charge, charge_weight, new_budget}
use qubership_authz_agent.JsonPath.Function.{Doubles, function_input, function_of}
use qubership_authz_agent.JsonPath.Steps.{
  deep_all, key_all, star_all, filter_all, pick_all, slice_of, needs_list, lists_all, index_all,
}
use qubership_authz_agent.JsonPath.Walk.{Progress}
use qubership_authz_agent.JsonPath.{
  Step, key, deep, star, filter, index, index_list, slice, root_bracket, function, Selected, one,
  many, missing, bracket, too_large, panicked,
}

abbrev pub with_budget : Budget → Result Selected (List Json) → Progress
with_budget b (err r) = err r
with_budget b (ok next) = ok (next, b)

unfoldable pub charge_inputs : List Json → Budget → (Budget → Selected) → Selected
unfolding charge function_input
charge_inputs [] b next = next b
charge_inputs (v ∷ vs) b next =
    let (passed, b') = charge b (function_input v) in
    if passed then charge_inputs vs b' next else too_large

unfoldable pub charge_weights : List Json → Budget → Bool × Budget
unfolding charge_weight
charge_weights [] b = (true, b)
charge_weights (v ∷ vs) b =
    let (passed, b') = charge_weight b v in
    let rest = charge_weights vs b' in if passed then rest else (false, b')

-- Whether the path has gone through a step that can select several values.
abbrev pub many_after : Step → Bool → Bool
many_after (key name) m = m
many_after (index i) m = m
many_after root_bracket m = m
many_after (function name) m = m
many_after s m = true

module _ {F : Type 0} (num : Doubles F) where
  -- One step, from what is selected; `at_doc` is whether it is the first.
  unfoldable pub apply_step : Step → Bool → Bool → List Json → Budget → Progress
  unfolding star_all filter_all lists_all slice_of function_of charge_inputs
  apply_step (function name) m at_doc cur b =
      err (charge_inputs cur b (λ b'. function_of num name cur m))
  apply_step root_bracket m at_doc cur b = err bracket
  apply_step (deep name) m at_doc cur b = deep_all name cur [] b
  apply_step (key name) m at_doc cur b = with_budget b (key_all name m at_doc cur)
  apply_step star m at_doc cur b = star_all cur [] b
  apply_step (filter p reads) m at_doc cur b = filter_all p reads m cur [] b
  apply_step (index_list is) m at_doc cur b =
      needs_list m cur >>= λ _. lists_all (λ list. length is) (λ list. pick_all list is) cur [] b
  apply_step (slice lo hi) m at_doc cur b =
      needs_list m cur >>= λ _. lists_all length (λ list. slice_of list lo hi) cur [] b
  apply_step (index i) m at_doc cur b = with_budget b (index_all i m cur)

  abbrev pub many_within : List Json → Bool × Budget → Selected
  many_within cur (true, b) = many cur
  many_within cur (false, b) = too_large

  -- What follows the last step
  abbrev pub finish : Bool → List Json → Budget → Selected
  finish true cur b = many_within cur (charge_weights cur b)
  finish false [] b = panicked
  finish false (v ∷ vs) b = one v

  abbrev pub after_step : Progress → (List Json → Budget → Selected) → Selected
  after_step (err r) next = r
  after_step (ok (cur, b)) next = next cur b

  unfoldable pub select_from : List Step → Bool → Bool → List Json → Budget → Selected
  unfolding apply_step charge_weights
  select_from [] m at_doc cur b = finish m cur b
  select_from (s ∷ ss) m at_doc cur b =
      after_step (apply_step s m at_doc cur b) (select_from ss (many_after s m) false)

  abbrev pub starts_bracket : List Step → Bool
  starts_bracket (root_bracket ∷ ss) = true
  starts_bracket ss = false

  -- `Select`
  unfoldable pub select : List Step → Json → Selected
  unfolding select_from
  select steps null =
      if not (starts_bracket steps)
      then missing
      else select_from steps false true (null ∷ []) (new_budget null)
  select steps doc = select_from steps false true (doc ∷ []) (new_budget doc)
