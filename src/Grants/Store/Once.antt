-- ===== src/Grants/Store/Once.antt =====
-- internal/grants/store.go: a grant is taken once.
use tool_mesh.Prelude.{
  ℕ, String, Bool, true, false, ◌&&◌, none, List, [], ◌∷◌, ◌==◌, eq_iff, ◌≡◌, refl, arith, any,
}
use tool_mesh.Prelude.Dict.{lookup, lookup-remove, lookup-insert, lookup-keep-none}
use tool_mesh.Grants.{State, pending, active, Grant, Subject, subject}
use tool_mesh.Grants.Store.{
  Table, Store, table, with_table, is_live, pruned, put, add_pending, get, take, for_subject, list,
  scan, Found, existing, counted, add_found,
}

-- One operation of a caller, with the time of its step.
pub data Op : Type 0 where
  puts : ℕ → Grant → Op
  adds : ℕ → Grant → ℕ → Op
  gets takes : ℕ → State → String → Op
  selects : ℕ → State → Subject → Op
  lists : ℕ → State → Op

unfoldable pub step : Op → Store → Store
unfolding put add_pending get take for_subject list
step (puts now g) s = put now g s
step (adds now g limit) s = (add_pending now g limit s).1
step (gets now st id) s = (get now st id s).1
step (takes now st id) s = (take now st id s).1
step (selects now st who) s = (for_subject now st who s).1
step (lists now st) s = (list now st s).1

unfoldable pub run : List Op → Store → Store
unfolding step
run [] s = s
run (op ∷ ops) s = run ops (step op s)

abbrev same_state : State → State → Bool
same_state pending pending = true
same_state active active = true
same_state _ _ = false

-- The operation may store a grant under the id in the state.
abbrev pub stores : State → String → Op → Bool
stores st id (puts now g) = same_state g.state st && g.id == id
stores st id (adds now g limit) = same_state pending st && g.id == id
stores st id _ = false

abbrev Absent : State → String → Store → Type 0
Absent st id s = lookup id (table st s) ≡ none

Absent-with :
    (st u : State) (id : String) (t : Table) (s : Store)
    → Absent st id s
    → (same_state u st ≡ true → lookup id t ≡ none)
    → Absent st id (with_table u t s)
Absent-with pending pending id t s a h = h refl
Absent-with active active id t s a h = h refl
Absent-with pending active id t s a h = a
Absent-with active pending id t s a h = a

Absent-same :
    (st u : State) (id : String) (s : Store)
    → same_state u st ≡ true
    → Absent st id s
    → lookup id (table u s) ≡ none
Absent-same pending pending id s e a = a
Absent-same active active id s e a = a
Absent-same pending active id s e a = cc
Absent-same active pending id s e a = cc

pruned-Absent :
    (now : ℕ) (st u : State) (id : String) (s : Store)
    → Absent st id s
    → same_state u st ≡ true
    → lookup id (pruned now u s) ≡ none
unfolding pruned
pruned-Absent now st u id s a e =
    lookup-keep-none (is_live now) id (table u s) (Absent-same st u id s e a)

add_found-none :
    (found : Found) (g : Grant) (limit : ℕ) (id : String) (t : Table)
    → (g.id == id) ≡ false
    → lookup id t ≡ none
    → lookup id (add_found found g limit t).1 ≡ none
add_found-none (existing p) g limit id t d a = a
add_found-none (counted n) g limit id t d a = ground (arith, lookup-insert g.id id g t)

step-Absent :
    (op : Op) (st : State) (id : String) (s : Store)
    → stores st id op ≡ false
    → Absent st id s
    → Absent st id (step op s)
unfolding step put add_pending get take for_subject list
step-Absent (puts now g) st id s n a = Absent-with st g.state id _ s a λ e.
    ground
      (arith, lookup-insert g.id id g (pruned now g.state s), pruned-Absent now st g.state id s a e)
step-Absent (adds now g limit) st id s n a = Absent-with st pending id _ s a λ e.
    add_found-none (scan (subject g) g.kit 0 (pruned now pending s)) g limit id
      (pruned now pending s) (ground arith) (pruned-Absent now st pending id s a e)
step-Absent (gets now u j) st id s n a = Absent-with st u id _ s a (pruned-Absent now st u id s a)
step-Absent (takes now u j) st id s n a =
    Absent-with st u id _ s a
      λ e. ground (arith, lookup-remove j id (pruned now u s), pruned-Absent now st u id s a e)
step-Absent (selects now u who) st id s n a =
    Absent-with st u id _ s a (pruned-Absent now st u id s a)
step-Absent (lists now u) st id s n a = Absent-with st u id _ s a (pruned-Absent now st u id s a)

run-Absent :
    (ops : List Op) (st : State) (id : String) (s : Store)
    → any (stores st id) ops ≡ false
    → Absent st id s
    → Absent st id (run ops s)
unfolding run
run-Absent [] st id s n a = a
run-Absent (op ∷ ops) st id s n a =
    run-Absent ops st id (step op s) (ground arith) (step-Absent op st id s (ground arith) a)

take-Absent : (now : ℕ) (st : State) (id : String) (s : Store) → Absent st id (take now st id s).1
unfolding take
take-Absent now pending id s =
    ground (arith, lookup-remove id id (pruned now pending s), eq_iff id id)
take-Absent now active id s =
    ground (arith, lookup-remove id id (pruned now active s), eq_iff id id)

-- Once a call took the grant of an id in a state, no later `get` or `take` finds one there, after
-- any operations of any callers in between that store none under this id in this state.
pub take-once :
    (now : ℕ) (st : State) (id : String) (s : Store) (ops : List Op) (later : ℕ)
    → any (stores st id) ops ≡ false
    → ((take later st id (run ops (take now st id s).1)).0 ≡ none)
      × ((get later st id (run ops (take now st id s).1)).0 ≡ none)
unfolding take get pruned
take-once now st id s ops later n =
    let gone = run-Absent ops st id (take now st id s).1 n (take-Absent now st id s) in
    (lookup-keep-none (is_live later) id _ gone, lookup-keep-none (is_live later) id _ gone)
