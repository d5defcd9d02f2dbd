-- ===== src/Authz/Embedded/Apply.antt =====
-- internal/authz/embedded.go: apply, which makes the stored tuples those of a policy. What OpenFGA's
-- server answers to a write is a parameter, `Server`.
pub mod Sets
pub mod Runs
pub mod Safe
pub mod Done
use Prim.Native.Nat.{Ordering}
use Prim.Native.String.{compare, ◌++◌ as append}
use tool_mesh.Prelude.{
  ℕ, zero, suc, ◌+◌, String, Bool, true, false, not, ◌&&◌, ◌||◌, Option, none, some, List, [], ◌∷◌,
  ◌++◌, Result, ok, err, ◌==◌, if◌then◌else◌, filter, any, length,
}
use tool_mesh.Authz.Kit.{Kit}
use tool_mesh.Authz.Kit
use tool_mesh.Authz.Kit.Validate.{validate_kits}
use tool_mesh.Authz.Tuples.{Object, Subject, TupleKey, same_tuple, executor, blocked}
use tool_mesh.Authz.Embedded.{Embedded, contains_object}
use tool_mesh.Authz.Rules.{Rules, desired}
use tool_mesh.Authz.Rules.Validate.{RuleError, validate_rules}

-- Whether a request to change the tuples succeeds; `n` counts the requests. A request for one tuple
-- that a chunk was refused for is answered for that tuple.
pub record Server : Type 0 where
  pub accepts : ℕ → Bool
  pub accepts_one : TupleKey → Bool

abbrev pub contains_tuple : List TupleKey → TupleKey → Bool
contains_tuple ts t = any (λ x. same_tuple x t) ts

-- The tuples that the other set lacks.
abbrev pub missing_from : List TupleKey → List TupleKey → List TupleKey
missing_from there ts = filter (λ t. not (contains_tuple there t)) ts

-- Each tuple once, as a Go map of tuples holds it.
unfoldable pub distinct_tuples : List TupleKey → List TupleKey
distinct_tuples [] = []
distinct_tuples (t ∷ ts) =
    if contains_tuple ts t then distinct_tuples ts else t ∷ distinct_tuples ts

-- `writes` and `deletes` of apply: what is wanted and is not there, or the other way round.
abbrev pub difference : List TupleKey → List TupleKey → List TupleKey
difference there ts = distinct_tuples (missing_from there ts)

object_text : Object → String
object_text o = append o.kind (append ":" o.id)

subject_text : Subject → String
unfolding object_text
subject_text s =
    if s.relation == ""
    then object_text s.object
    else append (object_text s.object) (append "#" s.relation)

-- cmp.Or on the results of two comparisons
abbrev or_compare : Ordering → Ordering → Ordering
or_compare Ordering.eq o = o
or_compare Ordering.lt o = Ordering.lt
or_compare Ordering.gt o = Ordering.gt

compare_tuples : TupleKey → TupleKey → Ordering
unfolding object_text subject_text
compare_tuples a b = or_compare (compare (object_text a.object) (object_text b.object)) (
    or_compare (compare a.relation b.relation)
      (compare (subject_text a.user) (subject_text b.user)))

pub insert_tuple : TupleKey → List TupleKey → List TupleKey
unfolding compare_tuples
insert_tuple t [] = t ∷ []
insert_tuple t (x ∷ xs) = elim (compare_tuples t x) [
  | Ordering.gt ↦ x ∷ insert_tuple t xs
  | _ ↦ t ∷ x ∷ xs
]

-- slices.SortFunc
pub sort_tuples : List TupleKey → List TupleKey
unfolding insert_tuple
sort_tuples [] = []
sort_tuples (t ∷ ts) = insert_tuple t (sort_tuples ts)

abbrev pub write_chunk : ℕ
write_chunk = 100

-- slices.Chunk: `room` is what the chunk at hand still takes.
unfoldable pub chunks : ℕ → List TupleKey → List TupleKey → List (List TupleKey)
chunks room taken [] = elim taken [ [] ↦ [] | x ∷ xs ↦ (x ∷ xs) ∷ [] ]
chunks zero taken (t ∷ ts) = taken ∷ chunks 99 (t ∷ []) ts
chunks (suc room) taken (t ∷ ts) = chunks room (taken ++ t ∷ []) ts

-- The tuples, the requests so far, the number of tuples changed, whether it went on to the end, and
-- every content of the store on the way, the last first.
pub record Run : Type 0 where
  pub stored : List TupleKey
  pub requests : ℕ
  pub changed : ℕ
  pub finished : Bool
  pub seen : List (List TupleKey)

abbrev pub to : Run → List TupleKey → ℕ → Run
to r stored n = record r {
  stored = stored;
  requests = suc r.requests;
  changed = r.changed + n;
  seen = stored ∷ r.seen;
}

abbrev pub refused : Run → Run
refused r = record r { requests = suc r.requests; finished = false }

module _ (srv : Server) where
  -- Embedded.writeTuples
  unfoldable pub write_tuples : List (List TupleKey) → Run → Run
  write_tuples [] r = r
  write_tuples (c ∷ cs) r =
      let written = write_tuples cs (to r (c ++ r.stored) (length c)) in
      if srv.accepts r.requests then written else refused r

  -- The loop of deleteTuples, tuple by tuple; one that the server refuses stays.
  unfoldable pub delete_each : List TupleKey → Run → Run
  delete_each [] r = r
  delete_each (t ∷ ts) r =
      let gone = delete_each ts (to r (filter (λ x. not (same_tuple x t)) r.stored) 1) in
      let left = delete_each ts (record r { requests = suc r.requests }) in
      if srv.accepts_one t then gone else left

  -- Embedded.deleteTuples
  unfoldable pub delete_tuples : List TupleKey → Run → Run
  unfolding delete_each
  delete_tuples c r =
      if srv.accepts r.requests
      then to r (missing_from c r.stored) (length c)
      else delete_each c (record r { requests = suc r.requests })

  -- Embedded.deleteAll
  unfoldable pub delete_all : List (List TupleKey) → Run → Run
  unfolding delete_tuples
  delete_all [] r = r
  delete_all (c ∷ cs) r = delete_all cs (delete_tuples c r)

  -- A step of apply goes on only where the last did not fail.
  abbrev pub then_run : Run → (Run → Run) → Run
  then_run r f = if r.finished then f r else r

  abbrev pub is_deny : TupleKey → Bool
  is_deny t = t.relation == blocked

  abbrev pub is_grant : TupleKey → Bool
  is_grant t = not (is_deny t)

  abbrev pub in_chunks : List TupleKey → List (List TupleKey)
  in_chunks ts = chunks write_chunk [] ts

  abbrev pub start : List TupleKey → Run
  start current = record {
    stored = current;
    requests = 0;
    changed = 0;
    finished = true;
    seen = current ∷ [];
  }

  -- New denies, removed grants, new grants, removed denies.
  unfoldable pub change : List TupleKey → List TupleKey → Run
  unfolding write_tuples delete_all chunks sort_tuples distinct_tuples
  change current wanted =
      let writes = sort_tuples (difference current wanted) in
      let deletes = sort_tuples (difference wanted current) in
      let denied = write_tuples (in_chunks (filter is_deny writes)) (start current) in
      let revoked = then_run denied (delete_all (in_chunks (filter is_grant deletes))) in
      let granted = then_run revoked (write_tuples (in_chunks (filter is_grant writes))) in
      then_run granted (delete_all (in_chunks (filter is_deny deletes)))

-- Embedded.setToolGrants
unfoldable pub tool_objects_of : List TupleKey → List Object
tool_objects_of [] = []
tool_objects_of (t ∷ ts) =
    let rest = tool_objects_of ts in if t.object.kind == "tool" then t.object ∷ rest else rest

unfoldable pub insert_kit : Kit → List Kit → List Kit
insert_kit k [] = k ∷ []
insert_kit k (x ∷ xs) = elim (compare k.name x.name) [
  | Ordering.gt ↦ x ∷ insert_kit k xs
  | _ ↦ k ∷ x ∷ xs
]

-- slices.SortFunc on the kits, by name
unfoldable pub sort_kits : List Kit → List Kit
unfolding insert_kit
sort_kits [] = []
sort_kits (k ∷ ks) = insert_kit k (sort_kits ks)

pub data ApplyError : Type 0 where
  bad_kit : Kit.Error → ApplyError
  bad_grant bad_deny : RuleError → ApplyError
  store_failed : ApplyError

abbrev pub Applied : Type 0
Applied = Option ApplyError × Embedded × List (List TupleKey)

abbrev pub check_all : Rules → Result ApplyError (Unit {0})
check_all r = elim (validate_kits r.kits) [
  | err e ↦ err (bad_kit e)
  | ok u ↦ elim (validate_rules r.grants) [
    | err e ↦ err (bad_grant e)
    | ok u ↦ elim (validate_rules r.denies) [ err e ↦ err (bad_deny e) | ok u ↦ ok tt ]
  ]
]

-- What apply ends with: the new rules in effect, or those of any tool that either side names.
abbrev pub ended : Run → Embedded → Rules → Bool → Applied
ended run e r true = (
  none,
  record { stored = run.stored; tool_grants = tool_objects_of run.stored; kits = sort_kits r.kits },
  run.seen,
)
ended run e r false = (
  some store_failed,
  record e { stored = run.stored; tool_grants = tool_objects_of (e.stored ++ desired r) },
  run.seen,
)

-- apply once the rules are checked; the tuples are read without an error.
unfoldable pub apply_checked : Server → Embedded → Rules → Applied
unfolding change desired tool_objects_of sort_kits
apply_checked srv e r = let run = change srv e.stored (desired r) in ended run e r run.finished

abbrev pub apply_if : Result ApplyError (Unit {0}) → Server → Embedded → Rules → Applied
apply_if (err x) srv e r = (some x, e, [])
apply_if (ok u) srv e r = apply_checked srv e r

-- Embedded.apply: the error, the engine, and what the store held on the way.
unfoldable pub apply : Server → Embedded → Rules → Applied
unfolding apply_checked
apply srv e r = apply_if (check_all r) srv e r
